-- ===== src/Replica/Tests.antt =====
-- The queries on a replica with two rounds.
use bitz_pool.Common.{◌≡◌, refl, none, some, List}
use bitz_pool.Database.Link.{linked, ok}
use bitz_pool.Replica.{
  EarningView, max_difficulty, filter_rows, rank_sum, get_high_difficulty, get_hashpower,
  hashpower_of_rank, get_earnings_with_challenge_and_submission_day,
  get_earnings_with_challenge_and_submission_hours,
}
use bitz_pool.Replica.Views.{Reports, earnings_lists_exact}
use bitz_pool.Samples.{replica}

earnings_lists_exact_example :
    (day : List EarningView) × (hours : List EarningView)
    × (get_earnings_with_challenge_and_submission_day linked 100000 501 replica ≡ ok day)
    × (get_earnings_with_challenge_and_submission_hours linked 100000 501 replica ≡ ok hours)
    × Reports 100000 86400 501 replica replica.earnings day
    × Reports 100000 10800 501 replica replica.earnings hours
earnings_lists_exact_example = earnings_lists_exact 100000 501 replica

highest : get_high_difficulty linked 100000 none replica ≡ ok 15
unfolding get_high_difficulty max_difficulty filter_rows
highest = refl

highest_of_miner : get_high_difficulty linked 100000 (some 501) replica ≡ ok 12
unfolding get_high_difficulty max_difficulty filter_rows
highest_of_miner = refl

hashpower_of_round : get_hashpower linked none replica ≡ ok 160
unfolding get_hashpower rank_sum filter_rows
hashpower_of_round = refl

hashpower_at_12 : hashpower_of_rank 140 ≡ 80
unfolding hashpower_of_rank
hashpower_at_12 = refl
