-- ===== src/Rewards/Batches.antt =====
-- The rows of a round written to the database in batches of 200, each call repeated until it
-- succeeds: src/systems/pool_mine_success_system.rs.
pub mod Once
use bitz_pool.Common.{
  ◌>>=◌, ℕ, zero, suc, ◌+◌, ◌*◌, ◌≤◌, ◌<◌, ◌≡◌, refl, Bool, true, false, Option, none, some, List,
  [], ◌∷◌, ◌++◌, ◌==◌, arith, length, length-drop, take, drop, take-append-drop, map, ap, sym, ◌∙◌,
  if◌then◌else◌, All, Bool-cases, inl, inr,
}
use bitz_pool.Database.Tables.{UpdateReward, Reward, Tables}
use bitz_pool.Database.Link.{
  Link, no_connection, no_interaction, server_error, linked, Result, ok, err, AppDatabaseError,
  failed_to_get_connection_from_pool, query_failed,
}
use bitz_pool.Database.Ledger.{total_for, update_rewards, update_pool_rewards}
use bitz_pool.Database.Rounds.{
  add_new_earnings_batch, add_new_submissions_batch, get_submission_id_with_nonce,
  update_challenge_rewards,
}
use bitz_pool.Database.Ledger.Credit.{
  credited, Fits, Fits-first, Fits-second, credited-append, update_rewards_credits,
}
use bitz_pool.Rewards.{Rows, MineSuccess}

-- `slice.chunks(batch_size)`, with the length of the slice as fuel: a chunk takes at least one.
unfoldable pub chunks_from {ℓ} : {A : Type ℓ} → ℕ → ℕ → List A → List (List A)
chunks_from batch_size zero xs = []
chunks_from batch_size (suc fuel) [] = []
chunks_from batch_size (suc fuel) (x ∷ xs) =
    take batch_size (x ∷ xs) ∷ chunks_from batch_size fuel (drop batch_size (x ∷ xs))

unfoldable pub chunks {ℓ} : {A : Type ℓ} → ℕ → List A → List (List A)
unfolding chunks_from
chunks batch_size xs = chunks_from batch_size (length xs) xs

-- What the loops need: the database, and how far each further call of it will get.
abbrev pub Session : Type 0
Session = List Link × Tables

-- `while let Err(_) = op.await { .. }`: the links say how far each call gets. `none` is a loop that
-- is still running when they end.
unfoldable pub retry : {A : Type 0} → (Link → Tables → Result A × Tables) → Session → Option Session
retry op ([], t) = none
retry op (link ∷ links, t) =
    let (r, t') = op link t in
    let rest = retry op (links, t') in elim r [ ok _ ↦ some (links, t') | err _ ↦ rest ]

-- The loop over the batches.
unfoldable pub for_each_batch :
    {A R : Type 0}
    → (Link → List A → Tables → Result R × Tables)
    → List (List A)
    → Session
    → Option Session
unfolding retry
for_each_batch op [] s = some s
for_each_batch op (batch ∷ batches) s = elim (retry (λ link. op link batch) s) [
  | none ↦ none
  | some s' ↦ for_each_batch op batches s'
]

-- One call, where its error is only logged.
unfoldable pub once :
    {A : Type 0} → (Link → Tables → Result A × Tables) → Session → Option (Result A × Session)
once op ([], t) = none
once op (link ∷ links, t) = let (r, t') = op link t in some (r, (links, t'))

-- The challenge gets its rewards if the best nonce has a submission, in one attempt.
unfoldable finish_challenge : MineSuccess → Session → Option Session
unfolding once
finish_challenge msg s = elim (once (λ link. get_submission_id_with_nonce link msg.best_nonce) s) [
  | none ↦ none
  | some (err _, s') ↦ some s'
  | some (ok id, s') ↦
      elim (once (λ link. update_challenge_rewards link msg.challenge id msg.rewards) s') [
        | none ↦ none
        | some (_, s'') ↦ some s''
      ]
]

-- The database part of the handler, in its order.
pub store_rows : ℕ → MineSuccess → Rows → Session → Option Session
unfolding finish_challenge chunks for_each_batch retry
store_rows authority msg rows s = do
  s ← for_each_batch add_new_earnings_batch (chunks 200 rows.i_earnings) s
  s ← for_each_batch update_rewards (chunks 200 rows.i_rewards) s
  s ← for_each_batch add_new_submissions_batch (chunks 200 rows.i_submissions) s
  s ← retry (λ link. update_pool_rewards link authority msg.rewards) s
  finish_challenge msg s
