-- ===== src/Start.antt =====
-- The start of the server in src/main.rs: the balance, the proof, and what the database must have
-- before the systems run.
pub mod Parts
pub mod Prepared
mod Tests
use bitz_pool.Common.{
  ℕ, suc, Bool, true, false, Option, none, some, List, [], ◌∷◌, ltb, if◌then◌else◌,
}
use bitz_pool.State.{Proof, Server, init}
use bitz_pool.Database.Tables.{Miner, Pool, Challenge, InsertChallenge, Tables}
use bitz_pool.Database.Link.{
  Link, Result, ok, err, AppDatabaseError, failed_to_get_connection_from_pool,
}
use bitz_pool.Database.Miners.{
  get_pool_by_authority_pubkey, add_new_pool, get_miner_by_pubkey_str, signup_user_transaction,
}
use bitz_pool.Database.Rounds.{get_challenge_by_challenge, add_new_challenge}
use bitz_pool.Rewards.Batches.{Session}

-- The fields of `Config` that the modelled code reads.
pub record Config : Type 0 where
  pub pool_id : ℕ
  pub commissions_miner_id : ℕ

-- How `main` ends before the systems run: by an error, or by a panic.
pub data Exit : Type 0 where
  failed_to_load_balance : Exit
  balance_is_too_low : Exit
  panicked : Exit

pub data Outcome (A : Type 0) : Type 0 where
  value : A → Session → Outcome A
  exit : Exit → Outcome A

-- A part of the start: on the database, and how far each call of it gets. `none` is the end of the
-- links.
abbrev pub Start : Type 0 → Type 0
Start A = Session → Option (Outcome A)

infixl 5 ◌>>=◌ ◌>>◌
abbrev pub ◌>>=◌ : {A B : Type 0} → Start A → (A → Start B) → Start B
◌>>=◌ m f s = elim (m s) [
  | none ↦ none
  | some (value a s') ↦ f a s'
  | some (exit e) ↦ some (exit e)
]

abbrev pub ◌>>◌ : {A B : Type 0} → Start A → Start B → Start B
m >> k = m >>= λ _. k

abbrev pub pure : {A : Type 0} → A → Start A
pure a s = some (value a s)

abbrev pub panic : {A : Type 0} → Start A
panic s = some (exit panicked)

-- One call of the database.
abbrev pub ask : {A : Type 0} → (Link → Tables → Result A × Tables) → Start (Result A)
ask op ([], t) = none
ask op (link ∷ links, t) = some (value (op link t).0 (links, (op link t).1))

-- `if result.is_err() { panic!(..) }`
abbrev pub or_panic : {A : Type 0} → Result A → Start A
or_panic (ok a) = pure a
or_panic (err e) = panic

-- After a lookup that need not succeed: an error other than that of the connection means that the
-- row is missing, and it is inserted.
abbrev pub or_insert :
    {A : Type 0} → Result A → (Link → Tables → Result (Unit {0}) × Tables) → Start (Unit {0})
or_insert (ok a) insert = pure tt
or_insert (err failed_to_get_connection_from_pool) insert = panic
or_insert (err _) insert = ask insert >>= or_panic

unfoldable pub ensure_pool : ℕ → ℕ → Start (Unit {0})
ensure_pool authority proof_pubkey = do
  db_pool ← ask (λ link. get_pool_by_authority_pubkey link authority)
  or_insert db_pool (λ link. add_new_pool link authority proof_pubkey)

-- The miner of the commission receiver, who is signed up after any error.
unfoldable pub commission_miner : ℕ → ℕ → Start ℕ
commission_miner authority commission_pubkey =
    ask (λ link. get_miner_by_pubkey_str link commission_pubkey) >>= λ found. elim found [
      | ok miner ↦ pure miner.id
      | err _ ↦
          ask (λ link. signup_user_transaction link commission_pubkey authority)
          >>= or_panic
          >>= λ _.
              ask (λ link. get_miner_by_pubkey_str link commission_pubkey) >>= or_panic >>= λ m.
              pure m.id
    ]

unfoldable pub ensure_first_challenge : ℕ → List ℕ → Start (Unit {0})
ensure_first_challenge pool_id challenge = do
  found ← ask (λ link. get_challenge_by_challenge link challenge)
  or_insert found (λ link.
      add_new_challenge link
        (record { pool_id = pool_id; challenge = challenge; rewards_earned = none }))

-- From the second lookup of the pool on.
unfoldable pub configure : ℕ → ℕ → List ℕ → Start Config
unfolding ensure_first_challenge
configure authority commission_miner_id challenge = do
  found ← ask (λ link. get_pool_by_authority_pubkey link authority)
  db_pool ← or_panic found
  _ ← ensure_first_challenge db_pool.id challenge
  pure (record { pool_id = db_pool.id; commissions_miner_id = commission_miner_id })

-- The database part of `main`, for a proof that is loaded.
unfoldable pub start_database : ℕ → ℕ → ℕ → Proof → Start Config
unfolding ensure_pool commission_miner configure
start_database authority proof_pubkey commission_pubkey p = do
  _ ← ensure_pool authority proof_pubkey
  commission_miner_id ← commission_miner authority commission_pubkey
  configure authority commission_miner_id p.challenge

-- `main` up to the systems: the answers of the RPC on the balance and the proof, and the database.
unfoldable pub start : Option ℕ → Option Proof → ℕ → ℕ → ℕ → Start (Config × Server)
unfolding start_database
start none p authority proof_pubkey commission_pubkey s = some (exit failed_to_load_balance)
start (some balance) p authority proof_pubkey commission_pubkey s =
    if ltb balance 100000 then some (exit balance_is_too_low) else elim p [
      | none ↦ some (exit panicked)
      | some p ↦ elim (start_database authority proof_pubkey commission_pubkey p s) [
        | none ↦ none
        | some (exit e) ↦ some (exit e)
        | some (value config s') ↦ some (value (config, init p) s')
      ]
    ]
