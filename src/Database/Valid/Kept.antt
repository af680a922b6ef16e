-- ===== src/Database/Valid/Kept.antt =====
-- Every writing call keeps the keys of the tables.
use bitz_pool.Common.{ℕ, ◌≤◌, ◌≡◌, refl, Bool, Option, none, some, List, map, arith}
use bitz_pool.Database.Tables.{UpdateReward, Tables}
use bitz_pool.Database.Link.{AppDatabaseError, Result, ok, err, Link, Query, call, expect_rows}
use bitz_pool.Database.Miners.{signup_transaction, insert_pool}
use bitz_pool.Database.Ledger.{
  debit, unit_of, update_rewards, insert_txn, insert_claim, claimed_query, total_query,
}
use bitz_pool.Database.Rounds.{insert_challenge, set_rewards, insert_earnings, insert_submissions}
use bitz_pool.Database.Calls.{
  Call, new_pool, signup, rewards, decrease, claimed, pool_rewards, txn, claim, challenge,
  challenge_rewards, earnings, submissions, run_call,
}
use bitz_pool.Database.Valid.{
  IsValid, Preserves, Below-mono, signup-Preserves, credit-Preserves, debit-Preserves,
}

-- Tables with the same miners and rewards.
pub same_keys :
    (t u : Tables)
    → u.miners ≡ t.miners
    → u.rewards ≡ t.rewards
    → t.next_id ≤ u.next_id
    → IsValid t
    → IsValid u
same_keys t u m r le v = record {
  pubkeys = rw m v.pubkeys;
  ids = rw m v.ids;
  ids_below = rw m (Below-mono t.next_id u.next_id (map (λ x. x.id) t.miners) le v.ids_below);
  owners = rw r v.owners;
  owners_below =
      rw r (Below-mono t.next_id u.next_id (map (λ x. x.miner_id) t.rewards) le v.owners_below);
}

-- What a writing query leaves alone.
abbrev KeepsKeys : Tables → Option (ℕ × Tables) → Type 0
KeepsKeys t none = Unit
KeepsKeys t (some (n, u)) =
    (u.miners ≡ t.miners) × (u.rewards ≡ t.rewards) × (t.next_id ≤ u.next_id)

KeepsKeys-Preserves :
    (t : Tables) (o : Option (ℕ × Tables)) → KeepsKeys t o → IsValid t → Preserves o
KeepsKeys-Preserves t none k v = tt
KeepsKeys-Preserves t (some (n, u)) k v = same_keys t u k.0 k.1 k.2 v

expect_rows-tables :
    (good : ℕ → Bool) (e : AppDatabaseError) (r : Result ℕ × Tables)
    → (expect_rows good e r).1 ≡ r.1
expect_rows-tables good e (ok n, t) = refl
expect_rows-tables good e (err x, t) = refl

unit_of-tables : {A : Type 0} (r : Result A × Tables) → (unit_of r).1 ≡ r.1
unit_of-tables (ok a, t) = refl
unit_of-tables (err e, t) = refl

module _ (link : Link) (q : Query ℕ) (t : Tables) (p : Preserves (q t)) (v : IsValid t) where
  call-IsValid : IsValid (call link q t).1
  call-IsValid = ground arith

  expect_rows-IsValid :
      (good : ℕ → Bool) (e : AppDatabaseError) → IsValid (expect_rows good e (call link q t)).1
  expect_rows-IsValid good e = rw (expect_rows-tables good e (call link q t)) call-IsValid

  unit_of-IsValid : IsValid (unit_of (call link q t)).1
  unit_of-IsValid = rw (unit_of-tables (call link q t)) call-IsValid

update_rewards-IsValid :
    (link : Link) (batch : List UpdateReward) (t : Tables)
    → IsValid t
    → IsValid (update_rewards link batch t).1
unfolding update_rewards
update_rewards-IsValid link batch t v = ground (arith, credit-Preserves batch t v)

-- Every writing call, on every link and with every result, keeps the public keys and the ids of the
-- miners distinct, one balance at most for a miner, and the ids below the counter.
pub run_call-IsValid :
    (link : Link) (c : Call) (t : Tables) → IsValid t → IsValid (run_call link c t).1
unfolding run_call insert_pool claimed_query total_query insert_txn insert_claim insert_challenge
    set_rewards insert_earnings insert_submissions
run_call-IsValid link (new_pool authority proof) t v =
    expect_rows-IsValid link (insert_pool authority proof) t
      (KeepsKeys-Preserves t (insert_pool authority proof t) (refl, refl, omega arith) v) v _ _
run_call-IsValid link (signup user authority) t v =
    expect_rows-IsValid link (signup_transaction user authority) t
      (signup-Preserves user authority t v) v _ _
run_call-IsValid link (rewards batch) t v = update_rewards-IsValid link batch t v
run_call-IsValid link (decrease r) t v = unit_of-IsValid link (debit r) t (debit-Preserves r t v) v
run_call-IsValid link (claimed authority amount) t v =
    expect_rows-IsValid link (claimed_query authority amount) t
      (KeepsKeys-Preserves t (claimed_query authority amount t) (ground arith) v) v _ _
run_call-IsValid link (pool_rewards authority amount) t v =
    unit_of-IsValid link (total_query authority amount) t
      (KeepsKeys-Preserves t (total_query authority amount t) (ground arith) v) v
run_call-IsValid link (txn x) t v =
    unit_of-IsValid link (insert_txn x) t
      (KeepsKeys-Preserves t (insert_txn x t) (refl, refl, omega arith) v) v
run_call-IsValid link (claim now c) t v =
    unit_of-IsValid link (insert_claim now c) t
      (KeepsKeys-Preserves t (insert_claim now c t) (refl, refl, omega arith) v) v
run_call-IsValid link (challenge c) t v =
    expect_rows-IsValid link (insert_challenge c) t
      (KeepsKeys-Preserves t (insert_challenge c t) (ground arith) v) v _ _
run_call-IsValid link (challenge_rewards c id amount) t v =
    expect_rows-IsValid link (set_rewards c id amount) t
      (KeepsKeys-Preserves t (set_rewards c id amount t) (ground arith) v) v _ _
run_call-IsValid link (earnings batch) t v =
    expect_rows-IsValid link (insert_earnings batch) t
      (KeepsKeys-Preserves t (insert_earnings batch t) (refl, refl, omega arith) v) v _ _
run_call-IsValid link (submissions batch) t v =
    expect_rows-IsValid link (insert_submissions batch) t
      (KeepsKeys-Preserves t (insert_submissions batch t) (refl, refl, omega arith) v) v _ _
