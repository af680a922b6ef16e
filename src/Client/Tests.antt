-- ===== src/Client/Tests.antt =====
-- Tests of the client handler, and the theorems at a server with two connections.
use bitz_pool.Common.{◌≡◌, refl, some, arith}
use bitz_pool.Common.Map.{get}
use bitz_pool.Common.Word.{from_le_bytes}
use bitz_pool.Hashpower.{hashpower_of, real_hashpower_of}
use bitz_pool.Tasks.{check_window, compare_old, done}
use bitz_pool.Client.{record_submission, submission_of}
use bitz_pool.Client.Alone.{run_stages, accepted, judged, run_stages-judged}
use bitz_pool.Client.Race.{interleaved, interleaved_loses}
use bitz_pool.Samples.{drillx, solution, server, submission}

run_stages-judged_example :
    let (s', t') = run_stages drillx 6 (check_window 100 solution 1) server in
    (t' ≡ done)
    × (s'.epoch_hashes
        ≡ judged 1 solution (accepted drillx server 100 solution 1) server.epoch_hashes)
run_stages-judged_example = run_stages-judged drillx 100 solution 1 server

solution_is_recorded :
    get 1 (run_stages drillx 6 (check_window 100 solution 1) server).0.epoch_hashes.submissions
    ≡ some (record {
      miner_id = 11;
      supplied_diff = 17;
      supplied_nonce = 5;
      hashpower = 2560;
      real_hashpower = 2560;
    })
unfolding run_stages hashpower_of real_hashpower_of from_le_bytes record_submission submission_of
solution_is_recorded = refl

interleaved_loses_example :
    let e =
      (interleaved drillx
        (compare_old 1 solution (submission 11 17 2560))
        (compare_old 1 solution (submission 11 14 320))
        server).epoch_hashes in
    (get 1 e.submissions ≡ some (submission 11 14 320)) × (e.best_hash.difficulty ≡ 17)
interleaved_loses_example =
    interleaved_loses drillx 1 solution solution (submission 11 17 2560) (submission 11 14 320)
      server refl (omega arith) (omega arith)
