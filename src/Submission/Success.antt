-- ===== src/Submission/Success.antt =====
-- What a mined solution hands to the system that pays it out.
use bitz_pool.Common.{
  ◌>>=◌, ℕ, ◌+◌, ◌≤◌, ◌<◌, ◌≡◌, refl, ap, sym, lt→ltb, Option, some, arith, sum_of,
}
use bitz_pool.Common.Map.{HashMap}
use bitz_pool.Common.Word.{u64_mod, from_le_bytes}
use bitz_pool.State.{Solution, Drillx, Proof, InternalMessageSubmission}
use bitz_pool.Database.Tables.{UpdateReward}
use bitz_pool.Rewards.{full_rewards_of, commissions_of, total_hashpowers, MineSuccess}
use bitz_pool.Rewards.Shares.{earned, rewards_conserved, total_hashpowers_exact}

-- The rewards of a `MineEventWithGlobalBoosts` that the code reads.
pub record MineEvent : Type 0 where
  pub net_base_reward : ℕ
  pub net_miner_boost_reward : ℕ

-- `MessageInternalMineSuccess`, of the old proof, the best solution and the submissions as they were
-- when the window was closed.
abbrev message : Drillx → ℕ → Proof → ℕ → Solution → HashMap InternalMessageSubmission → MineSuccess
message drillx full_rewards old_proof challenge_id best_solution submissions = record {
  difficulty = drillx.difficulty best_solution;
  rewards = full_rewards;
  commissions = commissions_of full_rewards;
  challenge_id = challenge_id;
  challenge = old_proof.challenge;
  best_nonce = from_le_bytes best_solution.n;
  total_hashpower = (total_hashpowers submissions (0, 0)).0;
  total_real_hashpower = (total_hashpowers submissions (0, 0)).1;
  submissions = submissions;
}

-- `none` is the panic of the sum.
pub mine_success_of :
    Drillx
    → MineEvent
    → Proof
    → ℕ
    → Solution
    → HashMap InternalMessageSubmission
    → Option MineSuccess
unfolding full_rewards_of commissions_of total_hashpowers
mine_success_of drillx event old_proof challenge_id best_solution submissions = do
  full_rewards ← full_rewards_of event.net_base_reward event.net_miner_boost_reward
  some (message drillx full_rewards old_proof challenge_id best_solution submissions)

-- The credit of the commission.
unfoldable pub commission_rewards : ℕ → MineSuccess → UpdateReward
commission_rewards commissions_miner_id msg = record {
  miner_id = commissions_miner_id;
  balance = msg.commissions;
}

mine_success_of-some :
    (drillx : Drillx) (event : MineEvent) (p : Proof) (challenge_id : ℕ) (best : Solution)
    (submissions : HashMap InternalMessageSubmission)
    → event.net_base_reward + event.net_miner_boost_reward < u64_mod
    → mine_success_of drillx event p challenge_id best submissions
      ≡ some (
          message drillx
            (event.net_base_reward + event.net_miner_boost_reward)
            p
            challenge_id
            best
            submissions)
unfolding mine_success_of full_rewards_of
mine_success_of-some drillx event p challenge_id best submissions fits =
    rw (lt→ltb (event.net_base_reward + event.net_miner_boost_reward) u64_mod fits) refl

-- A round whose rewards and hashpowers stay below 2^64, with some hashpower in it, hands out no
-- more than it mined: what its submissions earn and the commission add up to at most the two rewards.
pub mine_success_of-conserves :
    (drillx : Drillx) (event : MineEvent) (p : Proof) (challenge_id : ℕ) (best : Solution)
    (submissions : HashMap InternalMessageSubmission)
    → event.net_base_reward + event.net_miner_boost_reward < u64_mod
    → sum_of (λ e. e.1.hashpower) submissions < u64_mod
    → sum_of (λ e. e.1.real_hashpower) submissions < u64_mod
    → 0 < sum_of (λ e. e.1.real_hashpower) submissions
    → (msg : MineSuccess) × (mine_success_of drillx event p challenge_id best submissions
        ≡ some msg)
      × (sum_of (λ e. earned msg e.1) msg.submissions + msg.commissions
          ≤ event.net_base_reward + event.net_miner_boost_reward)
mine_success_of-conserves drillx event p challenge_id best submissions fits hash real some_hash =
    let full = event.net_base_reward + event.net_miner_boost_reward in
    let msg = message drillx full p challenge_id best submissions in
    let totals = total_hashpowers_exact submissions hash real in
    (
      msg,
      mine_success_of-some drillx event p challenge_id best submissions fits,
      rewards_conserved msg fits refl (omega (arith, ap (λ t. t.1) totals, some_hash))
          (sym (ap (λ t. t.1) totals)),
    )

-- The fields of a message that was made.
pub mine_success_of_fields :
    (drillx : Drillx) (event : MineEvent) (p : Proof) (challenge_id : ℕ) (best : Solution)
    (submissions : HashMap InternalMessageSubmission) (msg : MineSuccess)
    → event.net_base_reward + event.net_miner_boost_reward < u64_mod
    → mine_success_of drillx event p challenge_id best submissions ≡ some msg
    → (msg.commissions ≡ commissions_of (event.net_base_reward + event.net_miner_boost_reward))
      × (msg.challenge_id ≡ challenge_id)
      × (msg.challenge ≡ p.challenge)
mine_success_of_fields drillx event p challenge_id best submissions msg fits made =
    let e : msg
        ≡ message drillx (event.net_base_reward + event.net_miner_boost_reward) p challenge_id best
            submissions =
      cc (made, mine_success_of-some drillx event p challenge_id best submissions fits) in
    (ap (λ m. m.commissions) e, ap (λ m. m.challenge_id) e, ap (λ m. m.challenge) e)
