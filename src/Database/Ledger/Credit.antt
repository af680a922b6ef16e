-- ===== src/Database/Ledger/Credit.antt =====
-- What `update_rewards` adds to the balances.
use bitz_pool.Common.{
  ℕ, suc, ◌+◌, ◌*◌, ◌<◌, ◌≡◌, refl, false, some, List, [], ◌∷◌, ◌++◌, map, ◌==◌, any, if◌then◌else◌,
  arith, All, sum_of, Bool-cases, inl, inr,
}
use bitz_pool.Common.Word.{u64_mod}
use bitz_pool.Database.Tables.{Reward, UpdateReward, Tables}
use bitz_pool.Database.Link.{ok, linked}
use bitz_pool.Database.Ledger.{total_for, credit_rows, update_rewards}

-- A row after a batch.
abbrev pub credited : List UpdateReward → Reward → Reward
credited batch r = record r { balance = r.balance + total_for r.miner_id batch }

-- The new balance is in range.
abbrev pub Fits : List UpdateReward → Reward → Type 0
Fits batch r = r.balance + total_for r.miner_id batch < u64_mod

total_for_absent :
    (batch : List UpdateReward) (id : ℕ)
    → any (λ u. u.miner_id == id) batch ≡ false
    → total_for id batch ≡ 0
unfolding total_for
total_for_absent [] id h = refl
total_for_absent (u ∷ us) id h = ground (arith, total_for_absent us id)

-- The rows that match and fit are credited, and the others have nothing to get.
credit_rows_lem :
    (batch : List UpdateReward) (rows : List Reward)
    → All (Fits batch) rows
    → (n : ℕ) × (credit_rows batch rows ≡ some (n, map (credited batch) rows))
unfolding credit_rows
credit_rows_lem batch [] h = (0, refl)
credit_rows_lem batch (r ∷ rows) h =
    let (n, rest) = credit_rows_lem batch rows h.1 in
    elim (Bool-cases (any (λ u. u.miner_id == r.miner_id) batch)) [
      | inl hit ↦ (suc n, ground (arith, rest))
      | inr miss ↦ (n, ground (arith, rest, total_for_absent batch r.miner_id miss))
    ]

-- A batch whose balances stay in range credits every row with what the batch holds for it, and
-- changes nothing else.
pub update_rewards_credits :
    (u : UpdateReward) (us : List UpdateReward) (t : Tables)
    → All (Fits (u ∷ us)) t.rewards
    → update_rewards linked (u ∷ us) t
      ≡ (ok tt, record t { rewards = map (credited (u ∷ us)) t.rewards })
unfolding update_rewards
update_rewards_credits u us t h =
    let (n, e) = credit_rows_lem (u ∷ us) t.rewards h in ground (arith, e)

total_for-append :
    (id : ℕ) (xs ys : List UpdateReward)
    → total_for id (xs ++ ys) ≡ total_for id xs + total_for id ys
unfolding total_for
total_for-append id [] ys = omega arith
total_for-append id (u ∷ xs) ys = ground (arith, total_for-append id xs ys)

-- Two batches one after the other are one batch.
pub credited-append :
    (xs ys : List UpdateReward) (rows : List Reward)
    → map (credited ys) (map (credited xs) rows) ≡ map (credited (xs ++ ys)) rows
credited-append xs ys [] = refl
credited-append xs ys (r ∷ rows) =
    ground (arith, total_for-append r.miner_id xs ys, credited-append xs ys rows)

pub Fits-first :
    (xs ys : List UpdateReward) (rows : List Reward)
    → All (Fits (xs ++ ys)) rows
    → All (Fits xs) rows
Fits-first xs ys [] h = tt
Fits-first xs ys (r ∷ rows) h =
    (omega (arith, h.0, total_for-append r.miner_id xs ys), Fits-first xs ys rows h.1)

pub Fits-second :
    (xs ys : List UpdateReward) (rows : List Reward)
    → All (Fits (xs ++ ys)) rows
    → All (Fits ys) (map (credited xs) rows)
Fits-second xs ys [] h = tt
Fits-second xs ys (r ∷ rows) h =
    (omega (arith, h.0, total_for-append r.miner_id xs ys), Fits-second xs ys rows h.1)

-- How many rows a miner has.
unfoldable pub rows_of : ℕ → List Reward → ℕ
rows_of id [] = 0
rows_of id (r ∷ rows) = if r.miner_id == id then suc (rows_of id rows) else rows_of id rows

abbrev pub balances : List Reward → ℕ
balances = sum_of (λ r. r.balance)

balances-nil : (rows : List Reward) → balances (map (credited []) rows) ≡ balances rows
unfolding total_for
balances-nil [] = refl
balances-nil (r ∷ rows) = omega (arith, balances-nil rows)

balances-cons :
    (u : UpdateReward) (us : List UpdateReward) (rows : List Reward)
    → balances (map (credited (u ∷ us)) rows)
      ≡ balances (map (credited us) rows) + u.balance * rows_of u.miner_id rows
unfolding total_for rows_of
balances-cons u us [] = omega arith
balances-cons u us (r ∷ rows) = elim (Bool-cases (u.miner_id == r.miner_id)) [
  | inl same ↦
      let own : total_for r.miner_id (u ∷ us) ≡ u.balance + total_for r.miner_id us =
        ground arith in
      let one : rows_of u.miner_id (r ∷ rows) ≡ suc (rows_of u.miner_id rows) = ground arith in
      rw (own, one) (omega (arith, balances-cons u us rows))
  | inr other ↦ grind (arith, balances-cons u us rows)
]

-- A batch for miners with one row each adds exactly its sum to the sum of the balances.
balances-credited :
    (batch : List UpdateReward) (rows : List Reward)
    → All (λ u. rows_of u.miner_id rows ≡ 1) batch
    → balances (map (credited batch) rows) ≡ balances rows + sum_of (λ u. u.balance) batch
balances-credited [] rows h = omega (arith, balances-nil rows)
balances-credited (u ∷ us) rows h =
    rw (balances-cons u us rows, h.0) (omega (arith, balances-credited us rows h.1))
