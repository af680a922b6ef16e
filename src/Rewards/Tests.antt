-- ===== src/Rewards/Tests.antt =====
-- Tests of the rewards, and the theorems at a round of two submissions.
use bitz_pool.Common.{◌+◌, ◌*◌, ◌/◌, ◌≤◌, ◌≡◌, refl, true, some, List, [], ◌∷◌, map, length, arith}
use bitz_pool.Database.Link.{Link, no_connection, linked}
use bitz_pool.Rewards.{
  commissions_of, total_rewards_of, earned_rewards_of, Rows, submission_rows, no_rows,
}
use bitz_pool.Rewards.Shares.{earned_exact}
use bitz_pool.Rewards.Paid.{paid, sockets_of, rows-paid-le}
use bitz_pool.Rewards.Batches.{chunks, for_each_batch}
use bitz_pool.Rewards.Batches.Once.{rewards_credited_once}
use bitz_pool.Database.Ledger.{update_rewards, total_for}
use bitz_pool.Database.Ledger.Credit.{credited}
use bitz_pool.Database.Link.{reached}
use bitz_pool.Samples.{success_message, submission, sockets, batch, tables}

commission_of_a_round : commissions_of 1000 ≡ 50
unfolding commissions_of
commission_of_a_round = refl

share_of_a_round : earned_rewards_of success_message (submission 11 13 160) ≡ some 633
unfolding earned_rewards_of
share_of_a_round = refl

earned_exact_example :
    earned_rewards_of success_message (submission 11 13 160)
    ≡ some (160 * 1000000 / 240 * total_rewards_of success_message / 1000000)
earned_exact_example =
    earned_exact success_message (submission 11 13 160) (omega arith) (omega arith) (omega arith)
      (omega arith) (omega arith)

rows-paid-le_example :
    (rows : Rows) × (submission_rows 1 success_message
        (λ id. true)
        sockets
        success_message.submissions
        no_rows
      ≡ some rows)
    × (paid rows ≤ total_rewards_of success_message)
unfolding sockets_of
rows-paid-le_example =
    rows-paid-le 1 success_message (λ id. true) sockets (omega arith) (omega arith)
      (refl, (refl, tt)) (omega arith, (omega arith, tt)) refl

abbrev links : List Link
links = no_connection ∷ linked ∷ []

rewards_credited_once_example :
    (ls : List Link) × (for_each_batch update_rewards (chunks 200 batch) (links, tables)
      ≡ some (ls, record tables { rewards = map (credited batch) tables.rewards }))
    × (length (chunks 200 batch) + reached ls ≡ reached links)
unfolding chunks total_for
rewards_credited_once_example =
    rewards_credited_once batch tables (omega arith, (omega arith, tt)) links (tt, (tt, tt))
      (omega arith)
