-- ===== src/Database/Miners.antt =====
-- The methods on pools and miners.
pub mod Signup
use bitz_pool.Common.{ℕ, suc, true, false, none, some, ◌∷◌, ◌==◌, if◌then◌else◌}
use bitz_pool.Database.Tables.{Miner, Pool, Tables}
use bitz_pool.Database.Link.{
  failed_to_insert_row, Result, Link, Query, call, expect_rows, find, select,
}

unfoldable pub get_pool_by_authority_pubkey : Link → ℕ → Tables → Result Pool × Tables
get_pool_by_authority_pubkey link pool_pubkey =
    call link (select (λ p. p.authority_pubkey == pool_pubkey) (λ t. t.pools))

-- `INSERT INTO pools (authority_pubkey, proof_pubkey)`
unfoldable pub insert_pool : ℕ → ℕ → Query ℕ
insert_pool authority_pubkey proof_pubkey t = some (
  1,
  record t {
    next_id = suc t.next_id;
    pools =
        record {
          id = t.next_id;
          proof_pubkey = proof_pubkey;
          authority_pubkey = authority_pubkey;
          total_rewards = 0;
          claimed_rewards = 0;
        }
        ∷ t.pools;
  },
)

unfoldable pub add_new_pool : Link → ℕ → ℕ → Tables → Result (Unit {0}) × Tables
unfolding insert_pool
add_new_pool link authority_pubkey proof_pubkey t =
    expect_rows (λ n. n == 1) failed_to_insert_row
      (call link (insert_pool authority_pubkey proof_pubkey) t)

unfoldable pub get_miner_by_pubkey_str : Link → ℕ → Tables → Result Miner × Tables
get_miner_by_pubkey_str link miner_pubkey =
    call link (select (λ m. m.pubkey == miner_pubkey) (λ t. t.miners))

unfoldable pub get_miner_by_id : Link → ℕ → Tables → Result Miner × Tables
get_miner_by_id link miner_id = call link (select (λ m. m.id == miner_id) (λ t. t.miners))

-- `INSERT INTO miners`: the public key is unique.
unfoldable pub insert_miner : ℕ → Query ℕ
insert_miner pubkey t = elim (find (λ m. m.pubkey == pubkey) t.miners) [
  | some _ ↦ none
  | none ↦ some (
    1,
    record t {
      next_id = suc t.next_id;
      miners = record { id = t.next_id; pubkey = pubkey; enabled = true } ∷ t.miners;
    },
  )
]

-- `INSERT INTO rewards`: the miner is unique.
unfoldable pub insert_reward : ℕ → Query ℕ
insert_reward miner_id t = elim (find (λ r. r.miner_id == miner_id) t.rewards) [
  | some _ ↦ none
  | none ↦ some (1, record t { rewards = record { miner_id = miner_id; balance = 0 } ∷ t.rewards })
]

infixl 5 ◌>>=◌
abbrev ◌>>=◌ : {A B : Type 0} → Query A → (A → Query B) → Query B
◌>>=◌ q f t = elim (q t) [ none ↦ none | some (a, t') ↦ f a t' ]

-- `conn.transaction(..)`: the four statements, or, at the first error, none of them.
unfoldable pub signup_transaction : ℕ → ℕ → Query ℕ
unfolding insert_miner insert_reward
signup_transaction user_pubkey pool_authority_pubkey = do
  _ ← insert_miner user_pubkey
  miner ← select (λ m. m.pubkey == user_pubkey) (λ t. t.miners)
  pool ← select (λ p. p.authority_pubkey == pool_authority_pubkey) (λ t. t.pools)
  insert_reward miner.id

unfoldable pub signup_user_transaction : Link → ℕ → ℕ → Tables → Result (Unit {0}) × Tables
unfolding signup_transaction
signup_user_transaction link user_pubkey pool_authority_pubkey t =
    expect_rows (λ n. if n == 0 then false else true) failed_to_insert_row
      (call link (signup_transaction user_pubkey pool_authority_pubkey) t)
