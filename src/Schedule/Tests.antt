-- ===== src/Schedule/Tests.antt =====
-- The theorems on runs at a concrete run.
use bitz_pool.Common.{◌≡◌, refl, some, [], ◌∷◌, arith}
use bitz_pool.Common.Map.{get}
use bitz_pool.Tasks.{check_proof}
use bitz_pool.Client.{submission_of, record_submission}
use bitz_pool.Schedule.Sound.{WorldIsSound, Reached-WorldIsSound}
use bitz_pool.Schedule.Stale.{overtaken, overtaken-records_stale}
use bitz_pool.Schedule.Run.{sub, run}
use bitz_pool.Samples.{drillx, solution, server}

overtaken-records_stale_example :
    let e = (overtaken drillx (check_proof 100 solution 1 5 11) (2 ∷ []) server).epoch_hashes in
    (e.challenge ≡ 2 ∷ [])
    × (e.best_hash.solution ≡ some solution)
    × (get 1 e.submissions ≡ some (submission_of drillx solution 11 5))
overtaken-records_stale_example =
    overtaken-records_stale drillx 100 1 5 11 solution (2 ∷ []) server refl (omega arith) refl

run_records : get 1 run.0.server.epoch_hashes.submissions ≡ some sub
unfolding run record_submission submission_of
run_records = refl

Reached-WorldIsSound_example : WorldIsSound drillx run.0
Reached-WorldIsSound_example = Reached-WorldIsSound drillx run.0 run.1
