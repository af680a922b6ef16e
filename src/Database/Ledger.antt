-- ===== src/Database/Ledger.antt =====
-- The methods on rewards, pool totals, transactions and claims. A balance is BIGINT UNSIGNED: a
-- statement that would take it out of range is an error and changes nothing.
pub mod Credit
use bitz_pool.Common.{
  ℕ, suc, ◌+◌, ◌-◌, Bool, true, false, ◌&&◌, Option, none, some, List, [], ◌∷◌, ◌==◌, ltb, any,
  if◌then◌else◌,
}
use bitz_pool.Common.Word.{u64_mod}
use bitz_pool.Database.Tables.{
  Reward, UpdateReward, Pool, InsertTxn, Txn, InsertClaim, Claim, Tables,
}
use bitz_pool.Database.Link.{
  failed_to_get_connection_from_pool, failed_to_update_row, query_failed, Result, ok, err, Link,
  no_connection, Query, failed, query_error, answer, interact, call, expect_rows, select,
}

-- `UPDATE .. SET .. WHERE ..`: the rows that match, changed, and their number. One value out of
-- range fails the statement.
-- One row before the others: as it is, or changed if it matches.
abbrev pub update_row :
    {A : Type 0} → A → Bool → Option A → Option (ℕ × List A) → Option (ℕ × List A)
update_row x matched changed none = none
update_row x false changed (some (n, ys)) = some (n, x ∷ ys)
update_row x true none (some (n, ys)) = none
update_row x true (some y) (some (n, ys)) = some (suc n, y ∷ ys)

module _ {A : Type 0} (matches : A → Bool) (change : A → Option A) where
  unfoldable pub update_where : List A → Option (ℕ × List A)
  update_where [] = some (0, [])
  update_where (x ∷ xs) = update_row x (matches x) (change x) (update_where xs)

-- `a + b` and `a - b` on BIGINT UNSIGNED
abbrev pub add_bigint : ℕ → ℕ → Option ℕ
add_bigint a b = if ltb (a + b) u64_mod then some (a + b) else none

abbrev pub sub_bigint : ℕ → ℕ → Option ℕ
sub_bigint a b = if ltb a b then none else some (a - b)

-- `SUM(balance) .. GROUP BY miner_id`, for one miner
unfoldable pub total_for : ℕ → List UpdateReward → ℕ
total_for miner_id [] = 0
total_for miner_id (r ∷ rs) =
    if r.miner_id == miner_id then r.balance + total_for miner_id rs else total_for miner_id rs

abbrev pub set_balance : Reward → Option ℕ → Option Reward
set_balance r none = none
set_balance r (some balance) = some (record r { balance = balance })

-- The `UPDATE rewards r JOIN (..)` of a batch.
unfoldable pub credit_rows : List UpdateReward → List Reward → Option (ℕ × List Reward)
unfolding update_where total_for
credit_rows batch =
    update_where (λ r. any (λ u. u.miner_id == r.miner_id) batch)
      (λ r. set_balance r (add_bigint r.balance (total_for r.miner_id batch)))

abbrev pub store_rewards : Option (ℕ × List Reward) → Query ℕ
store_rewards none t = none
store_rewards (some (n, rewards)) t = some (n, record t { rewards = rewards })

-- An empty batch makes a statement that does not parse.
unfoldable pub credit : List UpdateReward → Query ℕ
unfolding credit_rows
credit [] t = none
credit (r ∷ rs) t = store_rewards (credit_rows (r ∷ rs) t.rewards) t

-- `try_join_all` fails only if an interaction does: the statement's own result is in the value,
-- which is not read.
unfoldable pub update_rewards : Link → List UpdateReward → Tables → Result (Unit {0}) × Tables
unfolding credit
update_rewards no_connection rewards t = (err failed_to_get_connection_from_pool, t)
update_rewards link rewards t =
    let (i, t') = interact link (credit rewards) t in
    (elim i [ failed ↦ err query_failed | query_error ↦ ok tt | answer _ ↦ ok tt ], t')

unfoldable pub debit : UpdateReward → Query ℕ
debit r t =
    store_rewards
      (update_where (λ row. row.miner_id == r.miner_id)
        (λ row. set_balance row (sub_bigint row.balance r.balance)) t.rewards)
      t

abbrev pub unit_of : {A : Type 0} → Result A × Tables → Result (Unit {0}) × Tables
unit_of (ok _, t) = (ok tt, t)
unit_of (err e, t) = (err e, t)

unfoldable pub decrease_miner_reward : Link → UpdateReward → Tables → Result (Unit {0}) × Tables
unfolding debit update_where
decrease_miner_reward link rewards t = unit_of (call link (debit rewards) t)

abbrev pub store_pools : Option (ℕ × List Pool) → Query ℕ
store_pools none t = none
store_pools (some (n, pools)) t = some (n, record t { pools = pools })

abbrev pub set_claimed : Pool → Option ℕ → Option Pool
set_claimed p none = none
set_claimed p (some n) = some (record p { claimed_rewards = n })

abbrev pub set_total : Pool → Option ℕ → Option Pool
set_total p none = none
set_total p (some n) = some (record p { total_rewards = n })

unfoldable pub claimed_query : ℕ → ℕ → Query ℕ
claimed_query pool_authority_pubkey claimed_rewards t =
    store_pools
      (update_where (λ p. p.authority_pubkey == pool_authority_pubkey)
        (λ p. set_claimed p (add_bigint p.claimed_rewards claimed_rewards)) t.pools)
      t

unfoldable pub update_pool_claimed : Link → ℕ → ℕ → Tables → Result (Unit {0}) × Tables
unfolding claimed_query update_where
update_pool_claimed link pool_authority_pubkey claimed_rewards t =
    expect_rows (λ n. n == 1) failed_to_update_row
      (call link (claimed_query pool_authority_pubkey claimed_rewards) t)

unfoldable pub total_query : ℕ → ℕ → Query ℕ
total_query pool_authority_pubkey earned_rewards t =
    store_pools
      (update_where (λ p. p.authority_pubkey == pool_authority_pubkey)
        (λ p. set_total p (add_bigint p.total_rewards earned_rewards)) t.pools)
      t

unfoldable pub update_pool_rewards : Link → ℕ → ℕ → Tables → Result (Unit {0}) × Tables
unfolding total_query update_where
update_pool_rewards link pool_authority_pubkey earned_rewards t =
    unit_of (call link (total_query pool_authority_pubkey earned_rewards) t)

-- `miners m JOIN rewards r ON m.id = r.miner_id WHERE m.pubkey = ?`
unfoldable pub get_miner_rewards : Link → ℕ → Tables → Result Reward × Tables
get_miner_rewards link miner_pubkey t =
    call link
      (select (λ r. any (λ m. m.id == r.miner_id && m.pubkey == miner_pubkey) t.miners)
        (λ u. u.rewards))
      t

unfoldable pub get_miner_rewards_by_id : Link → ℕ → Tables → Result Reward × Tables
get_miner_rewards_by_id link miner_id =
    call link (select (λ r. r.miner_id == miner_id) (λ t. t.rewards))

unfoldable pub insert_txn : InsertTxn → Query ℕ
insert_txn txn t =
    some (
      1,
      record t { next_id = suc t.next_id; txns = record { id = t.next_id; row = txn } ∷ t.txns },
    )

unfoldable pub add_new_txn : Link → InsertTxn → Tables → Result (Unit {0}) × Tables
unfolding insert_txn
add_new_txn link txn t = unit_of (call link (insert_txn txn) t)

unfoldable pub get_txn_by_sig : Link → ℕ → Tables → Result Txn × Tables
get_txn_by_sig link sig = call link (select (λ x. x.row.signature == sig) (λ t. t.txns))

-- `created_at` is the time of the insertion.
unfoldable pub insert_claim : ℕ → InsertClaim → Query ℕ
insert_claim now claim t =
    some (1, record t { claims = record { row = claim; created_at = now } ∷ t.claims })

unfoldable pub add_new_claim : Link → ℕ → InsertClaim → Tables → Result (Unit {0}) × Tables
unfolding insert_claim
add_new_claim link now claim t = unit_of (call link (insert_claim now claim) t)

-- The newest claim comes first.
unfoldable pub get_last_claim : Link → ℕ → Tables → Result Claim × Tables
get_last_claim link miner_id = call link (select (λ c. c.row.miner_id == miner_id) (λ t. t.claims))
