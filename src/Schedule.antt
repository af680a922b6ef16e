-- ===== src/Schedule.antt =====
-- The systems running together: the state that they share, the tasks that are under way, where the
-- two loops stand that hand out ranges and take in proofs, and the steps that may follow one another
-- in any order. A message, a round, a task, a write and a proof go lock by lock; a check for silence
-- takes its sockets and their pongs away in one step, since nothing else that is modelled here reads
-- the pongs, and a text goes to all the sockets in one step.
pub mod Sound
pub mod Stale
pub mod Run
mod Tests
use bitz_pool.Common.Map.{HashMap}
use bitz_pool.Common.{ℕ, String, ◌≡◌, Option, none, some, List, [], ◌∷◌, ◌++◌}
use bitz_pool.State.{Drillx, Proof, AppClientConnection, ClientMessage, Server, init}
use bitz_pool.Tasks.{Task, mark_ready, announce, fetch_ranges, store_ranges}
use bitz_pool.Client.{handle_message, solution_stage, ready_stage}
use bitz_pool.Ready.{announce_stage}
use bitz_pool.Ready.Stages.{Round, resting, RoundStep, round_stage}
use bitz_pool.Proofs.{track_proof, store_proof}
use bitz_pool.Sockets.{connect, disconnect, drop_silent, text_all_clients}
use bitz_pool.Submission.{Write, write}

pub record World : Type 0 where
  pub server : Server
  pub tasks : List Task
  -- the loop of the ready clients
  pub ready : Round
  -- the proof that the proof tracking has decided to store
  pub incoming : Option Proof

-- The stage that a task is at.
abbrev pub task_stage : Drillx → Task → Server → Server × Task
task_stage drillx (mark_ready addr) s = ready_stage addr s
task_stage drillx (announce addr msg uuid r) s = announce_stage (announce addr msg uuid r) s
task_stage drillx (fetch_ranges uuid r) s = announce_stage (fetch_ranges uuid r) s
task_stage drillx (store_ranges uuid rs) s = announce_stage (store_ranges uuid rs) s
task_stage drillx t s = solution_stage drillx t s

-- The world after a step that spawns tasks.
abbrev pub spawning : World → Server × List Task → World
spawning w (s, spawned) = record w { server = s; tasks = w.tasks ++ spawned }

abbrev pub stepped : RoundStep → World → World
stepped r w = record w { server = r.server; ready = r.round; tasks = w.tasks ++ r.spawned }

-- One step: a message of a client, a stage of the loop of the ready clients, a stage of a task, a write of the
-- submission system, a proof of the websocket, a connection that comes or goes, is dropped for its
-- silence or gets a text.
pub data Step (drillx : Drillx) : World → World → Type 0 where
  message :
      (m : ClientMessage) (now : ℕ) (w : World)
      → Step drillx w (spawning w (handle_message m now w.server))
  round : (now : ℕ) (w : World) → Step drillx w (stepped (round_stage now w.ready w.server) w)
  stage :
      (w : World) (before after : List Task) (t : Task)
      → w.tasks ≡ before ++ (t ∷ after)
      → Step drillx w (record w {
        server = (task_stage drillx t w.server).0;
        tasks = before ++ ((task_stage drillx t w.server).1 ∷ after);
      })
  submission : (x : Write) (w : World) → Step drillx w (record w { server = write x w.server })
  -- a notification, when the one before it is dealt with
  proof_update :
      (p : Option Proof) (w : World)
      → w.incoming ≡ none
      → Step drillx w (record w { incoming = track_proof p w.server })
  proof_stored :
      (p : Proof) (w : World)
      → w.incoming ≡ some p
      → Step drillx w (record w { server = store_proof p w.server; incoming = none })
  connected :
      (who : ℕ) (c : AppClientConnection) (w : World)
      → Step drillx w (record w { server = (connect who c w.server).0 })
  disconnected :
      (who : ℕ) (w : World) → Step drillx w (record w { server = disconnect who w.server })
  silence :
      (now : ℕ) (pongs : HashMap ℕ) (w : World)
      → Step drillx w (record w { server = drop_silent now pongs w.server })
  texted :
      (msg : String) (w : World)
      → Step drillx w (record w { server = text_all_clients msg w.server })

abbrev pub first_world : Proof → World
first_world p = record { server = init p; tasks = []; ready = resting; incoming = none }

-- What can be reached from the start.
pub data Reached (drillx : Drillx) : World → Type 0 where
  started : (p : Proof) → Reached drillx (first_world p)
  then_step : (v w : World) → Reached drillx v → Step drillx v w → Reached drillx w
