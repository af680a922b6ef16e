-- ===== src/Desk/Rows.antt =====
-- What the worker's calls do to the balances.
use bitz_pool.Common.{
  ℕ, ◌≡◌, refl, ap, Bool, Bool-cases, true, false, Option, Option-cases, none, some, inl, inr, List,
  [], ◌∷◌, ◌==◌, arith,
}
use bitz_pool.Database.Tables.{Reward, Pool, Tables, UpdateReward, InsertTxn, InsertClaim}
use bitz_pool.Database.Link.{
  Link, no_connection, no_interaction, server_error, linked, find, call, select, AppDatabaseError,
  err, expect_rows, failed_to_update_row,
}
use bitz_pool.Database.Ledger.{
  update_row, update_where, set_balance, sub_bigint, add_bigint, set_claimed, store_rewards, debit,
  decrease_miner_reward, update_pool_claimed, claimed_query, store_pools, add_new_txn, insert_txn,
  add_new_claim, insert_claim, unit_of,
}
use bitz_pool.Replica.{is_of}
use bitz_pool.Desk.{reward_of}

-- A row of another miner is found in the updated rows as before.
abbrev KeepsFound : (ℕ → Bool) → ℕ → List Reward → Option (ℕ × List Reward) → Type 0
KeepsFound q id xs none = Unit
KeepsFound q id xs (some (n, ys)) =
    (r : Reward)
    → find (λ x. q x.miner_id) xs ≡ some r
    → (r.miner_id == id) ≡ false
    → find (λ x. q x.miner_id) ys ≡ some r

update_row-KeepsFound :
    (q : ℕ → Bool) (id : ℕ) (x : Reward) (xs : List Reward) (b : Bool) (balance : Option ℕ)
    (o : Option (ℕ × List Reward))
    → (x.miner_id == id) ≡ b
    → KeepsFound q id xs o
    → KeepsFound q id (x ∷ xs) (update_row x b (set_balance x balance) o)
update_row-KeepsFound q id x xs b balance none e k = tt
update_row-KeepsFound q id x xs false balance (some (n, ys)) e k = λ r h other.
    elim (Bool-cases (q x.miner_id)) [ inl t ↦ ground arith | inr f ↦ ground (arith, k r) ]
update_row-KeepsFound q id x xs true none (some (n, ys)) e k = tt
update_row-KeepsFound q id x xs true (some m) (some (n, ys)) e k = λ r h other.
    elim (Bool-cases (q x.miner_id)) [
      | inl t ↦
          (let same : x ≡ r = ground arith in
            absurd (ground (arith, ap (λ y. y.miner_id == id) same)))
      | inr f ↦ ground (arith, k r)
    ]

debit_rows-KeepsFound :
    (q : ℕ → Bool) (id amount : ℕ) (xs : List Reward)
    → KeepsFound q id xs (
        update_where
          (λ row. row.miner_id == id)
          (λ row. set_balance row (sub_bigint row.balance amount))
          xs)
unfolding update_where
debit_rows-KeepsFound q id amount [] = λ r h other. h
debit_rows-KeepsFound q id amount (x ∷ xs) =
    update_row-KeepsFound q id x xs (x.miner_id == id) (sub_bigint x.balance amount)
      (update_where (λ row. row.miner_id == id)
        (λ row. set_balance row (sub_bigint row.balance amount)) xs)
      refl (debit_rows-KeepsFound q id amount xs)

-- What a stored update keeps of the other miners.
abbrev pub KeepsOthers : ℕ → Tables → Tables → Type 0
KeepsOthers id t t' =
    (t'.miners ≡ t.miners)
    × ((k : ℕ) (r : Reward)
        → reward_of k t ≡ some r
        → (r.miner_id == id) ≡ false
        → reward_of k t' ≡ some r)

store_rewards-KeepsOthers :
    (id : ℕ) (t : Tables) (o : Option (ℕ × List Reward))
    → ((k : ℕ) → KeepsFound (λ i. is_of k t.miners i) id t.rewards o)
    → KeepsOthers id t (unit_of (call linked (store_rewards o) t)).1
store_rewards-KeepsOthers id t none h = (refl, λ k r found other. found)
store_rewards-KeepsOthers id t (some (n, ys)) h = (refl, λ k r found other. h k r found other)

-- A debit leaves the miners, and the row of every other miner.
pub decrease_miner_reward-KeepsOthers :
    (link : Link) (id amount : ℕ) (t : Tables)
    → KeepsOthers id t (decrease_miner_reward link (record { miner_id = id; balance = amount }) t).1
unfolding decrease_miner_reward debit
decrease_miner_reward-KeepsOthers no_connection id amount t = (refl, λ k r found other. found)
decrease_miner_reward-KeepsOthers no_interaction id amount t = (refl, λ k r found other. found)
decrease_miner_reward-KeepsOthers server_error id amount t = (refl, λ k r found other. found)
decrease_miner_reward-KeepsOthers linked id amount t =
    store_rewards-KeepsOthers id t
      (update_where (λ row. row.miner_id == id)
        (λ row. set_balance row (sub_bigint row.balance amount)) t.rewards)
      (λ k. debit_rows-KeepsFound (λ i. is_of k t.miners i) id amount t.rewards)

store_rewards-err :
    (t : Tables) (o : Option (ℕ × List Reward)) (e : AppDatabaseError)
    → (unit_of (call linked (store_rewards o) t)).0 ≡ err e
    → (unit_of (call linked (store_rewards o) t)).1 ≡ t
store_rewards-err t none e h = refl
store_rewards-err t (some (n, ys)) e h = absurd cc

pub decrease_miner_reward-err :
    (link : Link) (r : UpdateReward) (t : Tables) (e : AppDatabaseError)
    → (decrease_miner_reward link r t).0 ≡ err e
    → (decrease_miner_reward link r t).1 ≡ t
unfolding decrease_miner_reward debit
decrease_miner_reward-err no_connection r t e h = refl
decrease_miner_reward-err no_interaction r t e h = refl
decrease_miner_reward-err server_error r t e h = refl
decrease_miner_reward-err linked r t e h =
    store_rewards-err t
      (update_where (λ row. row.miner_id == r.miner_id)
        (λ row. set_balance row (sub_bigint row.balance r.balance)) t.rewards)
      e h

-- Miners and balances stay.
abbrev pub SameRows : Tables → Tables → Type 0
SameRows t t' = (t'.miners ≡ t.miners) × (t'.rewards ≡ t.rewards)

store_pools-SameRows :
    (t : Tables) (o : Option (ℕ × List Pool)) (good : ℕ → Bool) (x : AppDatabaseError)
    → SameRows t (expect_rows good x (call linked (store_pools o) t)).1
store_pools-SameRows t none good x = (refl, refl)
store_pools-SameRows t (some (n, ys)) good x = (refl, refl)

pub update_pool_claimed-SameRows :
    (link : Link) (authority amount : ℕ) (t : Tables)
    → SameRows t (update_pool_claimed link authority amount t).1
unfolding update_pool_claimed claimed_query
update_pool_claimed-SameRows no_connection authority amount t = (refl, refl)
update_pool_claimed-SameRows no_interaction authority amount t = (refl, refl)
update_pool_claimed-SameRows server_error authority amount t = (refl, refl)
update_pool_claimed-SameRows linked authority amount t =
    store_pools-SameRows t
      (update_where (λ p. p.authority_pubkey == authority)
        (λ p. set_claimed p (add_bigint p.claimed_rewards amount)) t.pools)
      (λ n. n == 1) failed_to_update_row

pub add_new_txn-SameRows :
    (link : Link) (x : InsertTxn) (t : Tables) → SameRows t (add_new_txn link x t).1
unfolding add_new_txn insert_txn
add_new_txn-SameRows no_connection x t = (refl, refl)
add_new_txn-SameRows no_interaction x t = (refl, refl)
add_new_txn-SameRows server_error x t = (refl, refl)
add_new_txn-SameRows linked x t = (refl, refl)

pub add_new_claim-SameRows :
    (link : Link) (now : ℕ) (x : InsertClaim) (t : Tables)
    → SameRows t (add_new_claim link now x t).1
unfolding add_new_claim insert_claim
add_new_claim-SameRows no_connection now x t = (refl, refl)
add_new_claim-SameRows no_interaction now x t = (refl, refl)
add_new_claim-SameRows server_error now x t = (refl, refl)
add_new_claim-SameRows linked now x t = (refl, refl)

pub select-tables :
    {A : Type 0} (link : Link) (p : A → Bool) (rows : Tables → List A) (t : Tables)
    → (call link (select p rows) t).1 ≡ t
select-tables no_connection p rows t = refl
select-tables no_interaction p rows t = refl
select-tables server_error p rows t = refl
select-tables linked p rows t = elim (Option-cases (find p (rows t))) [
  | inl e ↦ ground (arith, e)
  | inr (a, e) ↦ ground (arith, e)
]
