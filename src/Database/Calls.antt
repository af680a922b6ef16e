-- ===== src/Database/Calls.antt =====
-- The methods that write, as one type of calls, and what they do when the server is not reached.
use bitz_pool.Common.{ℕ, ◌≡◌, refl, ◌≢◌, ◌↔◌, List}
use bitz_pool.Database.Tables.{
  UpdateReward, InsertChallenge, InsertEarning, InsertSubmission, InsertTxn, InsertClaim, Tables,
}
use bitz_pool.Database.Link.{Result, ok, Link, no_connection, no_interaction, server_error, linked}
use bitz_pool.Database.Miners.{add_new_pool, signup_user_transaction}
use bitz_pool.Database.Ledger.{
  update_rewards, decrease_miner_reward, update_pool_claimed, update_pool_rewards, add_new_txn,
  add_new_claim,
}
use bitz_pool.Database.Rounds.{
  add_new_challenge, update_challenge_rewards, add_new_earnings_batch, add_new_submissions_batch,
}

pub data Call : Type 0 where
  new_pool : ℕ → ℕ → Call
  signup : ℕ → ℕ → Call
  rewards : List UpdateReward → Call
  decrease : UpdateReward → Call
  claimed : ℕ → ℕ → Call
  pool_rewards : ℕ → ℕ → Call
  txn : InsertTxn → Call
  claim : ℕ → InsertClaim → Call
  challenge : InsertChallenge → Call
  challenge_rewards : List ℕ → ℕ → ℕ → Call
  earnings : List InsertEarning → Call
  submissions : List InsertSubmission → Call

unfoldable pub run_call : Link → Call → Tables → Result (Unit {0}) × Tables
unfolding add_new_pool signup_user_transaction update_rewards decrease_miner_reward
    update_pool_claimed update_pool_rewards add_new_txn add_new_claim add_new_challenge
    update_challenge_rewards add_new_earnings_batch add_new_submissions_batch
run_call link (new_pool authority proof) t = add_new_pool link authority proof t
run_call link (signup user authority) t = signup_user_transaction link user authority t
run_call link (rewards batch) t = update_rewards link batch t
run_call link (decrease r) t = decrease_miner_reward link r t
run_call link (claimed authority amount) t = update_pool_claimed link authority amount t
run_call link (pool_rewards authority amount) t = update_pool_rewards link authority amount t
run_call link (txn x) t = add_new_txn link x t
run_call link (claim now c) t = add_new_claim link now c t
run_call link (challenge c) t = add_new_challenge link c t
run_call link (challenge_rewards c id amount) t = update_challenge_rewards link c id amount t
run_call link (earnings batch) t = add_new_earnings_batch link batch t
run_call link (submissions batch) t = add_new_submissions_batch link batch t

-- The one call that hides an error of the server.
abbrev pub Hides : Link → Call → Type 0
Hides server_error (rewards batch) = Unit
Hides _ _ = ⊥

-- A writing call whose statement does not run leaves the tables as they were, and reports an
-- error, with one exception: `update_rewards` reports success when the server answers with one.
pub run_call_unlinked :
    (link : Link) (c : Call) (t : Tables)
    → link ≢ linked
    → ((run_call link c t).1 ≡ t) × (((run_call link c t).0 ≡ ok tt) ↔ Hides link c)
unfolding run_call
run_call_unlinked linked c t h = absurd (h refl)
run_call_unlinked no_connection (rewards batch) t h = (refl, ((λ e. cc), (λ x. absurd x)))
run_call_unlinked no_connection _ t h = (refl, ((λ e. cc), (λ x. absurd x)))
run_call_unlinked no_interaction (rewards batch) t h = (refl, ((λ e. cc), (λ x. absurd x)))
run_call_unlinked no_interaction _ t h = (refl, ((λ e. cc), (λ x. absurd x)))
run_call_unlinked server_error (rewards batch) t h = (refl, ((λ e. tt), (λ x. refl)))
run_call_unlinked server_error _ t h = (refl, ((λ e. cc), (λ x. absurd x)))
