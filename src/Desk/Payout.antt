-- ===== src/Desk/Payout.antt =====
-- The payout of a round is one of the things that may happen beside the claims.
use bitz_pool.Common.{
  ℕ, ◌≤◌, ◌≡◌, refl, ap, ◌∙◌, Bool, Bool-cases, true, false, Option, none, some, inl, inr, List, [],
  ◌∷◌, ◌==◌, any, arith,
}
use bitz_pool.Database.Tables.{Reward, UpdateReward, Tables}
use bitz_pool.Database.Link.{
  Link, no_connection, no_interaction, server_error, linked, find, interact,
}
use bitz_pool.Database.Ledger.{
  update_row, update_where, set_balance, add_bigint, total_for, credit_rows, store_rewards, credit,
  update_rewards,
}
use bitz_pool.Database.Calls.{rewards, run_call}
use bitz_pool.Database.Valid.{IsValid}
use bitz_pool.Database.Valid.Kept.{run_call-IsValid}
use bitz_pool.Replica.{is_of}
use bitz_pool.Desk.{Keeps}
use bitz_pool.Desk.Worked.{Keeps-same}

-- A row that is found is found in the updated rows, with no less.
abbrev Raises : (ℕ → Bool) → List Reward → Option (ℕ × List Reward) → Type 0
Raises q xs none = Unit
Raises q xs (some (n, ys)) =
    (r : Reward)
    → find (λ x. q x.miner_id) xs ≡ some r
    → (r' : Reward) × (find (λ x. q x.miner_id) ys ≡ some r') × (r.balance ≤ r'.balance)

raised_row :
    (q : ℕ → Bool) (x y : Reward) (xs ys : List Reward) (n : ℕ)
    → y.miner_id ≡ x.miner_id
    → x.balance ≤ y.balance
    → Raises q xs (some (n, ys))
    → Raises q (x ∷ xs) (some (n, y ∷ ys))
raised_row q x y xs ys n same le k r h = elim (Bool-cases (q x.miner_id)) [
  | inl chosen ↦
      let is : x ≡ r = ground arith in
      let found : find (λ z. q z.miner_id) (y ∷ ys) ≡ some y =
        (let there : q y.miner_id ≡ true = ap q same ∙ chosen in rw there refl) in
      (y, found, omega (arith, le, ap (λ z. z.balance) is))
  | inr other ↦
      let (r', at, more) = k r (ground arith) in
      let found : find (λ z. q z.miner_id) (y ∷ ys) ≡ some r' =
        (let not_there : q y.miner_id ≡ false = ap q same ∙ other in rw not_there at) in
      (r', found, more)
]

set_row-Raises :
    (q : ℕ → Bool) (x : Reward) (xs ys : List Reward) (n : ℕ) (balance : Option ℕ)
    → ((m : ℕ) → balance ≡ some m → x.balance ≤ m)
    → Raises q xs (some (n, ys))
    → Raises q (x ∷ xs) (update_row x true (set_balance x balance) (some (n, ys)))
set_row-Raises q x xs ys n none h k = tt
set_row-Raises q x xs ys n (some m) h k =
    raised_row q x (record x { balance = m }) xs ys n refl (h m refl) k

add_bigint-le : (a b m : ℕ) → add_bigint a b ≡ some m → a ≤ m
add_bigint-le a b m h = ground arith

update_row-Raises :
    (q : ℕ → Bool) (x : Reward) (xs : List Reward) (b : Bool) (amount : ℕ)
    (o : Option (ℕ × List Reward))
    → Raises q xs o
    → Raises q (x ∷ xs) (update_row x b (set_balance x (add_bigint x.balance amount)) o)
update_row-Raises q x xs b amount none k = tt
update_row-Raises q x xs false amount (some (n, ys)) k =
    raised_row q x x xs ys n refl (omega arith) k
update_row-Raises q x xs true amount (some (n, ys)) k =
    set_row-Raises q x xs ys n (add_bigint x.balance amount) (add_bigint-le x.balance amount) k

credit_rows-Raises :
    (q : ℕ → Bool) (batch : List UpdateReward) (xs : List Reward)
    → Raises q xs (credit_rows batch xs)
unfolding credit_rows update_where
credit_rows-Raises q batch [] = λ r h. (r, h, omega arith)
credit_rows-Raises q batch (x ∷ xs) =
    update_row-Raises q x xs (any (λ u. u.miner_id == x.miner_id) batch)
      (total_for x.miner_id batch) (credit_rows batch xs) (credit_rows-Raises q batch xs)

credited-Keeps :
    (t : Tables) (o : Option (ℕ × List Reward))
    → ((k : ℕ) → Raises (λ i. is_of k t.miners i) t.rewards o)
    → (IsValid t → IsValid (interact linked (store_rewards o) t).1)
    → Keeps t (interact linked (store_rewards o) t).1
credited-Keeps t none h v = Keeps-same t t refl
credited-Keeps t (some (n, ys)) h v = record {
  valid = v;
  miners = λ k m at. at;
  balances = λ k r at. h k r at;
}

credit-Keeps :
    (batch : List UpdateReward) (t : Tables)
    → (IsValid t → IsValid (interact linked (credit batch) t).1)
    → Keeps t (interact linked (credit batch) t).1
unfolding credit
credit-Keeps [] t v = Keeps-same t t refl
credit-Keeps (u ∷ us) t v =
    credited-Keeps t (credit_rows (u ∷ us) t.rewards)
      (λ k. credit_rows-Raises (λ i. is_of k t.miners i) (u ∷ us) t.rewards) v

-- `update_rewards`, on any link and with any result, is a step of the others.
update_rewards-Keeps :
    (link : Link) (batch : List UpdateReward) (t : Tables) → Keeps t (update_rewards link batch t).1
unfolding update_rewards run_call
update_rewards-Keeps no_connection batch t = Keeps-same t t refl
update_rewards-Keeps no_interaction batch t = Keeps-same t t refl
update_rewards-Keeps server_error batch t = Keeps-same t t refl
update_rewards-Keeps linked batch t =
    credit-Keeps batch t (λ v. run_call-IsValid linked (rewards batch) t v)
