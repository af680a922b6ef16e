-- ===== src/Schedule/Sound.antt =====
-- What holds of the epoch in every order of the steps.
use bitz_pool.Common.{◌≡◌, refl, subst, List, [], ◌∷◌, ◌++◌, All}
use bitz_pool.State.{Drillx, Proof, Server, init}
use bitz_pool.Tasks.{
  Task, mark_ready, check_window, late, find_ranges, find_miner, check_proof, refuse, compare_old,
  record_new, announce, fetch_ranges, store_ranges, done,
}
use bitz_pool.Proofs.{store_proof}
use bitz_pool.Client.{handle_message}
use bitz_pool.Client.Sound.{EpochIsSound, TaskIsSound, solution_stage-EpochIsSound}
use bitz_pool.Client.Handled.{handle_message_sound, ready_stage_sound}
use bitz_pool.Ready.Stages.{round_stage}
use bitz_pool.Ready.Spawned.{round_stage-IsQuiet, announce_stage_sound, All-append}
use bitz_pool.Sockets.Epoch.{
  connect-epoch, disconnect-epoch, drop_silent-epoch, text_all_clients-epoch,
}
use bitz_pool.Submission.Epoch.{write-EpochIsSound}
use bitz_pool.Schedule.{
  World, task_stage, Step, message, round, stage, submission, proof_update, proof_stored, connected,
  disconnected, silence, texted, Reached, started, then_step,
}

-- A sound epoch, and tasks that carry sound submissions only.
pub record WorldIsSound (drillx : Drillx) (w : World) : Type 0 where
  pub epoch : EpochIsSound drillx w.server.epoch_hashes
  pub carried : All (TaskIsSound drillx) w.tasks

init-EpochIsSound : (drillx : Drillx) (p : Proof) → EpochIsSound drillx (init p).epoch_hashes
unfolding init
init-EpochIsSound drillx p = record { entries = tt; best = (refl, refl) }

store_proof-epoch : (p : Proof) (s : Server) → (store_proof p s).epoch_hashes ≡ s.epoch_hashes
unfolding store_proof
store_proof-epoch p s = refl

task_stage_sound :
    (drillx : Drillx) (t : Task) (s : Server)
    → TaskIsSound drillx t
    → EpochIsSound drillx s.epoch_hashes
    → EpochIsSound drillx (task_stage drillx t s).0.epoch_hashes
      × TaskIsSound drillx (task_stage drillx t s).1
task_stage_sound drillx (mark_ready addr) s k h =
    let (e, q) = ready_stage_sound drillx addr s in (rw e h, q)
task_stage_sound drillx (announce addr msg uuid r) s k h =
    let (e, q) = announce_stage_sound drillx (announce addr msg uuid r) s k in (rw e h, q)
task_stage_sound drillx (fetch_ranges uuid r) s k h =
    let (e, q) = announce_stage_sound drillx (fetch_ranges uuid r) s k in (rw e h, q)
task_stage_sound drillx (store_ranges uuid rs) s k h =
    let (e, q) = announce_stage_sound drillx (store_ranges uuid rs) s k in (rw e h, q)
task_stage_sound drillx (check_window a x u) s k h =
    solution_stage-EpochIsSound drillx (check_window a x u) s k h
task_stage_sound drillx (late a) s k h = solution_stage-EpochIsSound drillx (late a) s k h
task_stage_sound drillx (find_ranges a x u) s k h =
    solution_stage-EpochIsSound drillx (find_ranges a x u) s k h
task_stage_sound drillx (find_miner a x u n) s k h =
    solution_stage-EpochIsSound drillx (find_miner a x u n) s k h
task_stage_sound drillx (check_proof a x u n m) s k h =
    solution_stage-EpochIsSound drillx (check_proof a x u n m) s k h
task_stage_sound drillx (refuse a) s k h = solution_stage-EpochIsSound drillx (refuse a) s k h
task_stage_sound drillx (compare_old u x sub) s k h =
    solution_stage-EpochIsSound drillx (compare_old u x sub) s k h
task_stage_sound drillx (record_new u x sub) s k h =
    solution_stage-EpochIsSound drillx (record_new u x sub) s k h
task_stage_sound drillx done s k h = solution_stage-EpochIsSound drillx done s k h

-- The tasks with one of them exchanged.
All-exchange :
    (drillx : Drillx) (before after : List Task) (t : Task)
    → All (TaskIsSound drillx) (before ++ (t ∷ after))
    → TaskIsSound drillx t
      × ((u : Task) → TaskIsSound drillx u → All (TaskIsSound drillx) (before ++ (u ∷ after)))
All-exchange drillx [] after t h = (h.0, λ u k. (k, h.1))
All-exchange drillx (b ∷ before) after t h =
    let (k, rest) = All-exchange drillx before after t h.1 in (k, λ u l. (h.0, rest u l))

pub Step-WorldIsSound :
    (drillx : Drillx) (v w : World)
    → WorldIsSound drillx v
    → Step drillx v w
    → WorldIsSound drillx w
Step-WorldIsSound drillx v w h (message m now _) =
    let (e, q) = handle_message_sound drillx m now v.server in
    record {
      epoch = rw e h.epoch;
      carried = All-append drillx v.tasks (handle_message m now v.server).1 h.carried q;
    }
Step-WorldIsSound drillx v w h (round now _) =
    let (e, q) = round_stage-IsQuiet drillx now v.ready v.server in
    record {
      epoch = rw e h.epoch;
      carried = All-append drillx v.tasks (round_stage now v.ready v.server).spawned h.carried q;
    }
Step-WorldIsSound drillx v w h (stage _ before after t there) =
    let (k, exchange) =
      All-exchange drillx before after t (subst (All (TaskIsSound drillx)) there h.carried) in
    let (e, q) = task_stage_sound drillx t v.server k h.epoch in
    record { epoch = e; carried = exchange (task_stage drillx t v.server).1 q }
Step-WorldIsSound drillx v w h (submission x _) = record {
  epoch = write-EpochIsSound drillx x v.server h.epoch;
  carried = h.carried;
}
Step-WorldIsSound drillx v w h (proof_update p _ free) = record {
  epoch = h.epoch;
  carried = h.carried;
}
Step-WorldIsSound drillx v w h (proof_stored p _ there) = record {
  epoch = rw (store_proof-epoch p v.server) h.epoch;
  carried = h.carried;
}
Step-WorldIsSound drillx v w h (connected who c _) = record {
  epoch = rw (connect-epoch who c v.server) h.epoch;
  carried = h.carried;
}
Step-WorldIsSound drillx v w h (disconnected who _) = record {
  epoch = rw (disconnect-epoch who v.server) h.epoch;
  carried = h.carried;
}
Step-WorldIsSound drillx v w h (silence now pongs _) = record {
  epoch = rw (drop_silent-epoch now pongs v.server) h.epoch;
  carried = h.carried;
}
Step-WorldIsSound drillx v w h (texted msg _) = record {
  epoch = rw (text_all_clients-epoch msg v.server) h.epoch;
  carried = h.carried;
}

-- Whatever the order in which messages, rounds, tasks, the writes of the submission system and the
-- proofs of the websocket, connections and texts follow one another, each submission of the epoch
-- reaches the least difficulty, has the hashpower of its difficulty, and is no better than the best
-- hash; the best hash has the difficulty of its solution, and there is one exactly if there is a
-- submission.
pub Reached-WorldIsSound : (drillx : Drillx) (w : World) → Reached drillx w → WorldIsSound drillx w
Reached-WorldIsSound drillx w (started p) = record {
  epoch = init-EpochIsSound drillx p;
  carried = tt;
}
Reached-WorldIsSound drillx w (then_step v _ r s) =
    Step-WorldIsSound drillx v w (Reached-WorldIsSound drillx v r) s
