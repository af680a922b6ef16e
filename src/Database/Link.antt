-- ===== src/Database/Link.antt =====
-- The frame that every method of `AppDatabase` has: a connection from the pool, `interact`, the
-- result of the statement.
use bitz_pool.Common.{
  ℕ, ◌≡◌, refl, ◌⊎◌, inl, inr, ◌+◌, Bool, true, false, Option, none, some, List, [], ◌∷◌,
}
use bitz_pool.Database.Tables.{Tables}

pub data AppDatabaseError : Type 0 where
  failed_to_get_connection_from_pool : AppDatabaseError
  failed_to_update_row : AppDatabaseError
  failed_to_insert_row : AppDatabaseError
  interaction_failed : AppDatabaseError
  query_failed : AppDatabaseError

pub data Result (A : Type 0) : Type 0 where
  ok : A → Result A
  err : AppDatabaseError → Result A

-- How far a call gets: no connection from the pool, a failed `interact`, an error that the server
-- answers with (a deadlock, a full disk) and that leaves the tables as they were, or the statement
-- runs and its answer arrives. A statement that takes effect and whose answer is lost on the way is
-- not among them: theorems on calls that are repeated are about calls that fail without effect.
pub data Link : Type 0 where
  no_connection : Link
  no_interaction : Link
  server_error : Link
  linked : Link

abbrev pub runs : Link → ℕ
runs linked = 1
runs _ = 0

-- The calls that reach the database.
abbrev pub reached : List Link → ℕ
reached [] = 0
reached (l ∷ ls) = runs l + reached ls

-- A statement: `none` is an error of its own, which leaves the tables as they were.
abbrev pub Query : Type 0 → Type 0
Query A = Tables → Option (A × Tables)

-- The two levels of result of `interact`: of the interaction, and of the statement.
pub data Interaction (A : Type 0) : Type 0 where
  failed : Interaction A
  query_error : Interaction A
  answer : A → Interaction A

module _ {A : Type 0} where
  -- `db_conn.interact(..)`, once there is a connection.
  abbrev pub interact : Link → Query A → Tables → Interaction A × Tables
  interact linked q t = elim (q t) [ none ↦ (query_error, t) | some (a, t') ↦ (answer a, t') ]
  interact server_error q t = (query_error, t)
  interact _ q t = (failed, t)

  -- `match res { Ok(Ok(query)) => .., Ok(Err(_)) => QueryFailed, Err(_) => InteractionFailed }`
  abbrev pub result_of : Interaction A → Result A
  result_of failed = err interaction_failed
  result_of query_error = err query_failed
  result_of (answer a) = ok a

  -- A method that returns what its statement returns.
  abbrev pub call : Link → Query A → Tables → Result A × Tables
  call no_connection q t = (err failed_to_get_connection_from_pool, t)
  call link q t = let (i, t') = interact link q t in (result_of i, t')

-- A check of the number of rows that a statement reports.
abbrev pub expect_rows :
    (ℕ → Bool) → AppDatabaseError → Result ℕ × Tables → Result (Unit {0}) × Tables
expect_rows good e (ok n, t) = (elim (good n) [ true ↦ ok tt | false ↦ err e ], t)
expect_rows good e (err x, t) = (err x, t)

-- `get_result` of a `SELECT`: the first row that satisfies the condition, or `NotFound`.
abbrev pub find {ℓ} : {A : Type ℓ} → (A → Bool) → List A → Option A
find p [] = none
find p (x ∷ xs) = elim (p x) [ true ↦ some x | false ↦ find p xs ]

abbrev pub select : {A : Type 0} → (A → Bool) → (Tables → List A) → Query A
select p rows t = elim (find p (rows t)) [ none ↦ none | some a ↦ some (a, t) ]

pub Result-cases :
    {A : Type 0} (r : Result A) → ((a : A) × (r ≡ ok a)) ⊎ ((e : AppDatabaseError) × (r ≡ err e))
Result-cases (ok a) = inl (a, refl)
Result-cases (err e) = inr (e, refl)
