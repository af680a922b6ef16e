-- ===== src/Client.antt =====
-- src/systems/client_message_handler_system.rs: the handler of client messages, and each stage of
-- the task that judges a solution.
pub mod Sound
pub mod Alone
pub mod Race
pub mod Handled
mod Tests
use bitz_pool.Common.{
  ℕ, ◌-◌, Bool, true, false, ◌&&◌, Option, none, some, List, [], ◌∷◌, ◌++◌, ltb, leb, ◌==◌,
  if◌then◌else◌, any, String,
}
use bitz_pool.Common.Map.{get, insert, contains_key}
use bitz_pool.Common.Word.{from_le_bytes}
use bitz_pool.State.{
  min_diff, Solution, Drillx, InternalMessageSubmission, BestHash, EpochHashes, Range,
  ClientMessage, ready, mining, pong, best_solution, WsMessage, text, Sent, Server,
}
use bitz_pool.Hashpower.{real_hashpower_of, hashpower_of}
use bitz_pool.Tasks.{
  Task, mark_ready, check_window, late, find_ranges, find_miner, check_proof, refuse, compare_old,
  record_new, done,
}

-- `Range::contains`
abbrev pub in_range : ℕ → Range → Bool
in_range nonce r = leb r.start nonce && ltb nonce r.end

-- `HashSet::insert`
abbrev pub set_insert : ℕ → List ℕ → List ℕ
set_insert a [] = a ∷ []
set_insert a (b ∷ bs) = if a == b then b ∷ bs else b ∷ set_insert a bs

-- A text for the client, if its socket is still there.
unfoldable pub send_text : ℕ → String → Server → Server
send_text addr msg s =
    if contains_key addr s.app_state.sockets
    then record s { outbox = s.outbox ++ (record { to = addr; message = text msg } ∷ []) }
    else s

-- The submission that a solution is worth to a miner.
unfoldable pub submission_of : Drillx → Solution → ℕ → ℕ → InternalMessageSubmission
submission_of drillx solution miner_id nonce =
    let diff = drillx.difficulty solution in
    record {
      miner_id = miner_id;
      supplied_nonce = nonce;
      supplied_diff = diff;
      hashpower = hashpower_of diff;
      real_hashpower = real_hashpower_of diff;
    }

-- The write of a submission, with the best hash of the epoch.
unfoldable pub record_submission :
    ℕ → Solution → InternalMessageSubmission → EpochHashes → EpochHashes
record_submission uuid solution sub e = record e {
  submissions = insert uuid sub e.submissions;
  best_hash =
      if ltb e.best_hash.difficulty sub.supplied_diff
      then record { difficulty = sub.supplied_diff; solution = some solution }
      else e.best_hash;
}

abbrev pub late_text : String
late_text = "Late submission. Please make sure your hash time is under 60 seconds."

abbrev pub invalid_text : String
invalid_text = "Invalid solution. If this keeps happening, please contact support."

module _ (drillx : Drillx) where
  -- One stage of the task that a solution starts: what it does under its lock, and the next stage.
  unfoldable pub solution_stage : Task → Server → Server × Task
  solution_stage (check_window addr solution uuid) s =
      (s, if s.window_closed then late addr else find_ranges addr solution uuid)
  solution_stage (late addr) s = (send_text addr late_text s, done)
  solution_stage (find_ranges addr solution uuid) s = (
    s,
    elim (get uuid s.client_nonce_ranges) [
      | none ↦ done
      | some nonce_ranges ↦
          let nonce = from_le_bytes solution.n in
          if any (in_range nonce) nonce_ranges then find_miner addr solution uuid nonce else done
    ],
  )
  solution_stage (find_miner addr solution uuid nonce) s = (
    s,
    elim (get addr s.app_state.sockets) [
      | none ↦ done
      | some socket ↦ check_proof addr solution uuid nonce socket.miner_id
    ],
  )
  solution_stage (check_proof addr solution uuid nonce miner_id) s = (
    s,
    if drillx.is_valid solution s.proof.challenge
        then (if leb min_diff (drillx.difficulty solution)
            then compare_old uuid solution (submission_of drillx solution miner_id nonce)
            else done)
        else refuse addr,
  )
  solution_stage (refuse addr) s = (send_text addr invalid_text s, done)
  solution_stage (compare_old uuid solution sub) s = (
    s,
    elim (get uuid s.epoch_hashes.submissions) [
      | none ↦ record_new uuid solution sub
      | some old_sub ↦
          if ltb old_sub.supplied_diff sub.supplied_diff then record_new uuid solution sub else done
    ],
  )
  solution_stage (record_new uuid solution sub) s =
      (record s { epoch_hashes = record_submission uuid solution sub s.epoch_hashes }, done)
  solution_stage t s = (s, t)

-- The task of a `Ready` message.
unfoldable pub ready_stage : ℕ → Server → Server × Task
ready_stage addr s = (record s { ready_clients = set_insert addr s.ready_clients }, done)

-- One message from the channel, at time `now`: the new state and the tasks spawned.
unfoldable pub handle_message : ClientMessage → ℕ → Server → Server × List Task
handle_message (pong addr) now s = (record s { pongs = insert addr now s.pongs }, [])
handle_message (ready addr) now s = (s, mark_ready addr ∷ [])
handle_message (mining addr) now s = (s, [])
handle_message (best_solution addr solution uuid) now s = (s, check_window addr solution uuid ∷ [])
