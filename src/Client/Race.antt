-- ===== src/Client/Race.antt =====
-- Two tasks of one connection that interleave between the reading of the old submission and the
-- write of the new one.
use bitz_pool.Common.{ℕ, ◌<◌, ◌≡◌, refl, true, Option, none, some, arith}
use bitz_pool.Common.Map.{get, insert, get-insert}
use bitz_pool.State.{Solution, Drillx, InternalMessageSubmission, Server}
use bitz_pool.Tasks.{Task, compare_old, record_new, done}
use bitz_pool.Client.{record_submission, solution_stage}
use bitz_pool.Client.Alone.{improves}

-- Both tasks compare, then the first writes, then the second.
pub interleaved : Drillx → Task → Task → Server → Server
interleaved drillx a b s =
    let (s1, a1) = solution_stage drillx a s in
    let (s2, b1) = solution_stage drillx b s1 in
    let (s3, _) = solution_stage drillx a1 s2 in (solution_stage drillx b1 s3).0

compare_old_proceeds :
    (drillx : Drillx) (uuid : ℕ) (x : Solution) (sub : InternalMessageSubmission) (s : Server)
    → improves (get uuid s.epoch_hashes.submissions) sub.supplied_diff ≡ true
    → solution_stage drillx (compare_old uuid x sub) s ≡ (s, record_new uuid x sub)
unfolding solution_stage
compare_old_proceeds drillx uuid x sub s h = ground arith

record_new_writes :
    (drillx : Drillx) (uuid : ℕ) (x : Solution) (sub : InternalMessageSubmission) (s : Server)
    → solution_stage drillx (record_new uuid x sub) s
      ≡ (record s { epoch_hashes = record_submission uuid x sub s.epoch_hashes }, done)
unfolding solution_stage
record_new_writes drillx uuid x sub s = refl

improves_mono :
    (o : Option InternalMessageSubmission) (m n : ℕ)
    → m < n
    → improves o m ≡ true
    → improves o n ≡ true
improves_mono none m n less h = refl
improves_mono (some old) m n less h = ground arith

both_written :
    (drillx : Drillx) (uuid : ℕ) (x y : Solution) (a b : InternalMessageSubmission) (s : Server)
    → improves (get uuid s.epoch_hashes.submissions) a.supplied_diff ≡ true
    → improves (get uuid s.epoch_hashes.submissions) b.supplied_diff ≡ true
    → (interleaved drillx (compare_old uuid x a) (compare_old uuid y b) s).epoch_hashes
      ≡ record_submission uuid y b (record_submission uuid x a s.epoch_hashes)
unfolding interleaved
both_written drillx uuid x y a b s h k = rw (
  interleaved,
  compare_old_proceeds drillx uuid x a s h,
  compare_old_proceeds drillx uuid y b s k,
  record_new_writes drillx uuid x a s,
  record_new_writes drillx uuid y b
      (record s { epoch_hashes = record_submission uuid x a s.epoch_hashes }),
)

-- If two solutions of one connection both beat what it has, and both tasks read the old
-- submission before either writes, then the later write stays, also where it is the worse one:
-- the connection keeps a submission below its best, while the best hash keeps the difficulty of
-- the better solution.
pub interleaved_loses :
    (drillx : Drillx) (uuid : ℕ) (x y : Solution) (better worse : InternalMessageSubmission)
    (s : Server)
    → improves (get uuid s.epoch_hashes.submissions) worse.supplied_diff ≡ true
    → worse.supplied_diff < better.supplied_diff
    → s.epoch_hashes.best_hash.difficulty < better.supplied_diff
    → let e =
        (interleaved drillx
          (compare_old uuid x better)
          (compare_old uuid y worse)
          s).epoch_hashes in
      (get uuid e.submissions ≡ some worse) × (e.best_hash.difficulty ≡ better.supplied_diff)
unfolding record_submission
interleaved_loses drillx uuid x y better worse s first less best =
    rw
      (both_written drillx uuid x y better worse s
        (improves_mono (get uuid s.epoch_hashes.submissions) worse.supplied_diff
          better.supplied_diff less first)
        first)
      (
        ground (arith, get-insert uuid uuid worse (insert uuid better s.epoch_hashes.submissions)),
        ground arith,
      )
