-- ===== src/Schedule/Run.antt =====
-- A run of the server for the tests: a connection, a range of nonces, a solution, its submission.
use bitz_pool.Common.{ℕ, ◌≡◌, refl, List, [], ◌∷◌, ◌++◌}
use bitz_pool.Common.Word.{from_le_bytes}
use bitz_pool.Common.Int.{saturating_add, saturating_sub}
use bitz_pool.State.{
  init, ready, best_solution, ClientMessage, AppClientConnection, InternalMessageSubmission, Range,
}
use bitz_pool.Message.{start_mining_binary}
use bitz_pool.Proofs.{get_cutoff}
use bitz_pool.Sockets.{connect}
use bitz_pool.Ready.{nonce_range, set_remove, i64_bits, announce_stage}
use bitz_pool.Ready.Stages.{round_stage}
use bitz_pool.Tasks.{
  Task, mark_ready, check_window, find_ranges, find_miner, check_proof, compare_old, record_new,
  announce, fetch_ranges, store_ranges, done,
}
use bitz_pool.Client.{submission_of, handle_message, ready_stage, solution_stage}
use bitz_pool.Schedule.{
  World, spawning, stepped, first_world, task_stage, message, round, stage, connected, Reached,
  started, then_step,
}
use bitz_pool.Samples.{drillx, solution, proof, connection}

abbrev pub Run : Type 0
Run = (w : World) × Reached drillx w

abbrev told : ClientMessage → ℕ → Run → Run
told m now (w, r) = (spawning w (handle_message m now w.server), then_step w _ r (message m now w))

abbrev joined : ℕ → AppClientConnection → Run → Run
joined who c (w, r) =
    (record w { server = (connect who c w.server).0 }, then_step w _ r (connected who c w))

abbrev round_at : ℕ → Run → Run
round_at now (w, r) = (stepped (round_stage now w.ready w.server) w, then_step w _ r (round now w))

-- A round that serves one client takes eight stages.
abbrev round_of_one : ℕ → Run → Run
round_of_one now r =
    let a = round_at now (round_at now (round_at now (round_at now r))) in
    round_at now (round_at now (round_at now (round_at now a)))

abbrev staged :
    (r : Run) (before after : List Task) (t : Task) → r.0.tasks ≡ before ++ (t ∷ after) → Run
staged (w, r) before after t e = (
  record w {
    server = (task_stage drillx t w.server).0;
    tasks = before ++ ((task_stage drillx t w.server).1 ∷ after);
  },
  then_step w _ r (stage w before after t e),
)

abbrev start : Run
start = (first_world proof, started proof)

abbrev pub sub : InternalMessageSubmission
sub = submission_of drillx solution 11 5

-- The run up to the solution: the client has the range of the first block of nonces.
abbrev announced : Task
announced =
    announce 100
      (start_mining_binary (record {
        challenge = 1 ∷ [];
        cutoff = 57;
        nonce_range_start = 0;
        nonce_range_end = 39999999;
      }))
      1 (record { start = 0; end = 39999999 })

abbrev first_block : List Range
first_block = record { start = 0; end = 39999999 } ∷ []

unfoldable pub run : Run
unfolding init connect handle_message ready_stage round_stage nonce_range set_remove i64_bits
    get_cutoff saturating_add saturating_sub announce_stage solution_stage submission_of
    from_le_bytes
run =
    let a = told (ready 100) 1000 (joined 100 (connection 1) start) in
    let b = staged a [] [] (mark_ready 100) refl in
    let c = round_of_one 1001 b in
    let d = staged c (done ∷ []) [] announced refl in
    let e = staged d (done ∷ []) [] (fetch_ranges 1 (record { start = 0; end = 39999999 })) refl in
    let f = staged e (done ∷ []) [] (store_ranges 1 first_block) refl in
    let g = told (best_solution 100 solution 1) 1002 f in
    let before = done ∷ done ∷ [] in
    let h = staged g before [] (check_window 100 solution 1) refl in
    let i = staged h before [] (find_ranges 100 solution 1) refl in
    let j = staged i before [] (find_miner 100 solution 1 5) refl in
    let k = staged j before [] (check_proof 100 solution 1 5 11) refl in
    let l = staged k before [] (compare_old 1 solution sub) refl in
    staged l before [] (record_new 1 solution sub) refl
