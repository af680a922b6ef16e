-- ===== src/Database/Valid.antt =====
-- The keys of the tables: what the UNIQUE constraints of migrations/ and the signup give, and that
-- every writing call keeps it.
pub mod Kept
use bitz_pool.Common.{
  ℕ, suc, ◌+◌, ◌≤◌, ◌<◌, ◌≡◌, refl, sym, ap, ap₂, ◌∙◌, Bool, true, false, Option, none, some, List,
  [], ◌∷◌, ◌++◌, map, ◌==◌, any, if◌then◌else◌, arith, All, Bool-cases, Option-cases, inl, inr,
}
use bitz_pool.Database.Tables.{Miner, Reward, UpdateReward, Pool, Tables}
use bitz_pool.Database.Link.{
  AppDatabaseError, Result, ok, err, Link, no_connection, no_interaction, server_error, linked,
  Query, call, expect_rows, find,
}
use bitz_pool.Database.Miners.{insert_miner, insert_reward, signup_transaction, insert_pool}
use bitz_pool.Database.Miners.Signup.{signed_up, signup_transaction_lem}
use bitz_pool.Database.Ledger.{
  update_row, update_where, set_balance, store_rewards, credit, debit, unit_of, update_rewards,
  insert_txn, insert_claim, claimed_query, total_query,
}
use bitz_pool.Database.Rounds.{insert_challenge, set_rewards, insert_earnings, insert_submissions}
use bitz_pool.Database.Calls.{
  Call, new_pool, signup, rewards, decrease, claimed, pool_rewards, txn, claim, challenge,
  challenge_rewards, earnings, submissions, run_call,
}

abbrev pub Distinct : List ℕ → Type 0
Distinct [] = Unit
Distinct (x ∷ xs) = (any (λ y. y == x) xs ≡ false) × Distinct xs

abbrev pub Below : ℕ → List ℕ → Type 0
Below n = All (λ x. x < n)

-- Public keys and ids of miners are distinct, a miner has at most one balance, and every id is
-- below the counter.
pub record IsValid (t : Tables) : Type 0 where
  pub pubkeys : Distinct (map (λ m. m.pubkey) t.miners)
  pub ids : Distinct (map (λ m. m.id) t.miners)
  pub ids_below : Below t.next_id (map (λ m. m.id) t.miners)
  pub owners : Distinct (map (λ r. r.miner_id) t.rewards)
  pub owners_below : Below t.next_id (map (λ r. r.miner_id) t.rewards)

Below-mono : (m n : ℕ) (xs : List ℕ) → m ≤ n → Below m xs → Below n xs
Below-mono m n [] le h = tt
Below-mono m n (x ∷ xs) le h = (omega arith, Below-mono m n xs le h.1)

Below-fresh : (n : ℕ) (xs : List ℕ) → Below n xs → any (λ y. y == n) xs ≡ false
Below-fresh n [] h = refl
Below-fresh n (x ∷ xs) h = ground (arith, Below-fresh n xs h.1)

-- A key that no row has.
find-any :
    {A : Type 0} (f : A → ℕ) (k : ℕ) (rows : List A)
    → find (λ x. f x == k) rows ≡ none
    → any (λ y. y == k) (map f rows) ≡ false
find-any f k [] h = refl
find-any f k (x ∷ rows) h = ground (arith, find-any f k rows)

-- An update of other columns keeps a key column.
abbrev Keeps : {A : Type 0} → (A → ℕ) → List A → Option (ℕ × List A) → Type 0
Keeps f xs none = Unit
Keeps f xs (some (n, ys)) = map f ys ≡ map f xs

abbrev KeepsRow : {A : Type 0} → (A → ℕ) → A → Option A → Type 0
KeepsRow f x none = Unit
KeepsRow f x (some y) = f y ≡ f x

module _ {A : Type 0} (f : A → ℕ) where
  update_row-Keeps :
      (x : A) (xs : List A) (b : Bool) (c : Option A) (o : Option (ℕ × List A))
      → KeepsRow f x c
      → Keeps f xs o
      → Keeps f (x ∷ xs) (update_row x b c o)
  update_row-Keeps x xs b c none k h = tt
  update_row-Keeps x xs false c (some (n, ys)) k h = ap (λ l. f x ∷ l) h
  update_row-Keeps x xs true none (some (n, ys)) k h = tt
  update_row-Keeps x xs true (some y) (some (n, ys)) k h = ap₂ (λ a l. a ∷ l) k h

  update_where-Keeps :
      (matches : A → Bool) (change : A → Option A)
      → ((x : A) → KeepsRow f x (change x))
      → (xs : List A) → Keeps f xs (update_where matches change xs)
  unfolding update_where
  update_where-Keeps matches change same [] = refl
  update_where-Keeps matches change same (x ∷ xs) =
      update_row-Keeps x xs (matches x) (change x) (update_where matches change xs) (same x)
        (update_where-Keeps matches change same xs)

set_balance-KeepsRow : (r : Reward) (o : Option ℕ) → KeepsRow (λ x. x.miner_id) r (set_balance r o)
set_balance-KeepsRow r none = tt
set_balance-KeepsRow r (some n) = refl

-- Rewards with the same owners.
rewards_same_owners :
    (t : Tables) (rows : List Reward)
    → map (λ r. r.miner_id) rows ≡ map (λ r. r.miner_id) t.rewards
    → IsValid t
    → IsValid (record t { rewards = rows })
rewards_same_owners t rows e v = record {
  pubkeys = v.pubkeys;
  ids = v.ids;
  ids_below = v.ids_below;
  owners = rw e v.owners;
  owners_below = rw e v.owners_below;
}

-- What a writing query does to the tables, if it runs.
abbrev Preserves : Option (ℕ × Tables) → Type 0
Preserves none = Unit
Preserves (some (n, t)) = IsValid t

store_rewards-Preserves :
    (t : Tables) (o : Option (ℕ × List Reward))
    → Keeps (λ r. r.miner_id) t.rewards o
    → IsValid t
    → Preserves (store_rewards o t)
store_rewards-Preserves t none k v = tt
store_rewards-Preserves t (some (n, rows)) k v = rewards_same_owners t rows k v

credit-Preserves : (batch : List UpdateReward) (t : Tables) → IsValid t → Preserves (credit batch t)
unfolding credit
credit-Preserves [] t v = tt
credit-Preserves (u ∷ us) t v =
    store_rewards-Preserves t _
      (update_where-Keeps (λ r. r.miner_id) _ _ (λ r. set_balance-KeepsRow r _) t.rewards) v

debit-Preserves : (r : UpdateReward) (t : Tables) → IsValid t → Preserves (debit r t)
unfolding debit
debit-Preserves r t v =
    store_rewards-Preserves t _
      (update_where-Keeps (λ row. row.miner_id) _ _ (λ row. set_balance-KeepsRow row _) t.rewards) v

pub Below-find :
    (n : ℕ) (rows : List Reward)
    → Below n (map (λ r. r.miner_id) rows)
    → find (λ r. r.miner_id == n) rows ≡ none
Below-find n [] h = refl
Below-find n (r ∷ rows) h = ground (arith, Below-find n rows h.1)

pub signed_up-IsValid :
    (pubkey : ℕ) (t : Tables)
    → find (λ m. m.pubkey == pubkey) t.miners ≡ none
    → IsValid t
    → IsValid (signed_up pubkey t)
signed_up-IsValid pubkey t free v = record {
  pubkeys = (find-any (λ m. m.pubkey) pubkey t.miners free, v.pubkeys);
  ids = (Below-fresh t.next_id (map (λ m. m.id) t.miners) v.ids_below, v.ids);
  ids_below = (
    omega arith,
    Below-mono t.next_id (suc t.next_id) (map (λ m. m.id) t.miners) (omega arith) v.ids_below,
  );
  owners = (Below-fresh t.next_id (map (λ r. r.miner_id) t.rewards) v.owners_below, v.owners);
  owners_below = (
    omega arith,
    Below-mono t.next_id (suc t.next_id) (map (λ r. r.miner_id) t.rewards) (omega arith)
        v.owners_below,
  );
}

signup-Preserves :
    (pubkey authority : ℕ) (t : Tables)
    → IsValid t
    → Preserves (signup_transaction pubkey authority t)
signup-Preserves pubkey authority t v =
    rw
      (
        signup_transaction_lem pubkey authority t (Below-find t.next_id t.rewards v.owners_below),
        Preserves,
      )
      (ground (arith, signed_up-IsValid pubkey t))
