-- ===== src/Epochs/Tests.antt =====
-- The theorems on the submission system at a run that sends the best solution.
use bitz_pool.Common.{
  ℕ, ◌≡◌, refl, true, none, some, [], ◌∷◌, length, arith, sum_of, map, bytes_eq, ◌+◌, ◌≤◌, ◌++◌,
  false,
}
use bitz_pool.Common.Int.{saturating_add, saturating_sub}
use bitz_pool.Hashpower.{hashpower_of, real_hashpower_of}
use bitz_pool.Client.{record_submission, submission_of}
use bitz_pool.Proofs.{get_cutoff}
use bitz_pool.Submission.{write}
use bitz_pool.Submission.Attempts.{Attempt, send_mine, finalized_in_time}
use bitz_pool.Schedule.Run.{run, sub}
use bitz_pool.Epochs
use bitz_pool.Database.Tables.{Challenge}
use bitz_pool.Database.Link.{linked, find}
use bitz_pool.Database.Ledger.Credit.{credited}
use bitz_pool.Rewards.Batches.{Session}
use bitz_pool.Submission.Logs.{MineEventWithGlobalBoosts}
use bitz_pool.Submission.Success.{commission_rewards}
use bitz_pool.Epochs.Payout.{pay_round, Reached-pays}
use bitz_pool.Rewards.{MineSuccess}
use bitz_pool.Rewards.Shares.{earned}
use bitz_pool.Epochs.{
  Snapshot, System, Driver, polling, drive, turned, driven, moved, try_sending, sending,
}
use bitz_pool.Epochs.Refines.{lifted}
use bitz_pool.Samples.{drillx, tables, proof, solution}

abbrev SystemRun : Type 0
SystemRun = (x : System) × Epochs.Reached drillx 1 x

abbrev attempt : Attempt
attempt = record {
  loaded = none;
  has_blockhash = true;
  tx_error = none;
  answers = some 77 ∷ [];
  polls = [];
}

abbrev driven_at : ℕ → SystemRun → SystemRun
driven_at now (x, r) = (
  turned (drive drillx now attempt none (length x.waiting) x.driver x.world.server) x,
  moved x _ r (driven now attempt none x),
)

begun : SystemRun
unfolding run
begun = (_, lifted drillx 1 tables run.0 run.1 (omega arith))

-- The window is closed and the transaction is sent.
sent_run : SystemRun
sent_run = driven_at 1060 (driven_at 1060 (driven_at 1060 (driven_at 1060 (driven_at 1060 begun))))

sent_run_polls :
    (sent_run.0.driver
      ≡ polling
          (record { old_proof = proof; best_solution = solution; submissions = (1, sub) ∷ [] })
          9
          77
          0)
    × (length sent_run.0.waiting ≡ 1)
unfolding sent_run begun run drive get_cutoff saturating_add saturating_sub write record_submission
    submission_of try_sending sending send_mine hashpower_of real_hashpower_of
sent_run_polls = (refl, refl)

-- The transaction is final, and the round goes to the payout.
abbrev final : Attempt
final = record attempt {
  polls = record { elapsed = 20; status = some (record { finalized = true; failed = false }) } ∷ [];
}

paid_run : SystemRun
paid_run =
    let (x, r) = sent_run in
    (
      turned (drive drillx 1080 final none (length x.waiting) x.driver x.world.server) x,
      moved x _ r (driven 1080 final none x),
    )

abbrev round : Snapshot
round = record { old_proof = proof; best_solution = solution; submissions = (1, sub) ∷ [] }

paid_run_pays : paid_run.0.paid ≡ [] ++ ((77, round) ∷ [])
unfolding paid_run sent_run begun run drive get_cutoff saturating_add saturating_sub write
    record_submission submission_of try_sending sending send_mine finalized_in_time hashpower_of
    real_hashpower_of
paid_run_pays = refl

abbrev mine_event : MineEventWithGlobalBoosts
mine_event = record {
  balance = 5000;
  difficulty = 17;
  last_hash_at = 1060;
  timing = 0;
  net_reward = 1000;
  net_base_reward = 900;
  net_miner_boost_reward = 100;
  net_staker_boost_reward = 0;
}

Reached-pays_example :
    (msg : MineSuccess) × (s : Session) × (pay_round drillx 1 12 mine_event round
        (linked ∷ linked ∷ linked ∷ linked ∷ [], tables)
      ≡ some (msg, s))
    × ((row : Challenge) × (find (λ d. bytes_eq d.challenge proof.challenge) s.1.challenges
          ≡ some row)
        × (row.id ≡ msg.challenge_id))
    × (s.1.rewards ≡ map (credited (commission_rewards 12 msg ∷ [])) tables.rewards)
    × (sum_of (λ e. earned msg e.1) msg.submissions + msg.commissions ≤ 900 + 100)
unfolding submission_of hashpower_of real_hashpower_of
Reached-pays_example =
    Reached-pays drillx 1 12 paid_run.0 [] [] 77 round mine_event [] tables paid_run.1 paid_run_pays
      (omega arith) (omega arith) (omega arith) (omega arith) (omega arith)
