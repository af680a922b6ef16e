-- ===== src/Epochs.antt =====
-- src/systems/pool_submission_system.rs as it runs: the loop of the system (`Driver`), the tasks that
-- wait for a new proof while a transaction is not final (`Waiting`), and the rounds that are to be
-- paid out, beside everything else that runs (Schedule). Every step is under one lock, or is one
-- answer from outside.
pub mod Refines
pub mod Paid
pub mod Payout
mod Tests
use bitz_pool.Common.{
  ℕ, zero, suc, ◌≡◌, Bool, true, false, not, ◌&&◌, ◌||◌, Option, none, some, List, [], ◌∷◌, ◌++◌,
  length, bytes_eq, if◌then◌else◌,
}
use bitz_pool.Common.Int.{pos, leb_ℤ}
use bitz_pool.Common.Map.{HashMap}
use bitz_pool.State.{Solution, Drillx, Proof, InternalMessageSubmission, Server}
use bitz_pool.Proofs.{get_cutoff}
use bitz_pool.Database.Link.{Link}
use bitz_pool.Database.Tables.{InsertChallenge, Tables}
use bitz_pool.Submission.{
  Write, close_window, open_window, set_proof, set_last_challenge, reset_nonce, reset_nonce_ranges,
  reset_epoch_hashes, discard_epoch_hashes, write, new_epoch, newer, failed_stages,
}
use bitz_pool.Submission.Attempts.{Attempt, is_refused, send_mine, finalized_in_time}
use bitz_pool.Submission.Challenges.{ensure_challenge}
use bitz_pool.Schedule.{
  World, first_world, Step, message, round, stage, submission, proof_update, proof_stored,
  connected, disconnected, silence, texted,
}

-- What is left to do for a new epoch: a write, or the challenge that goes into the database.
pub data Stage : Type 0 where
  writing : Write → Stage
  add_challenge : List ℕ → Stage

abbrev pub then_stages : List Write → List Stage → List Stage
then_stages [] rest = rest
then_stages (w ∷ ws) rest = writing w ∷ then_stages ws rest

-- A waiting task: its old proof, and whether the channel has told it to stop.
pub data Waiting : Type 0 where
  try_recv : Proof → Bool → Waiting
  comparing : Proof → Bool → Waiting
  get_proof : Proof → Bool → Waiting
  starting : List Stage → Waiting
  ended : Waiting

-- The stages of a new epoch that the websocket announced, and of one that the RPC did.
abbrev pub found_latest : Proof → Proof → List Stage
found_latest old latest =
    writing (set_last_challenge old.challenge)
    ∷ add_challenge latest.challenge
    ∷ then_stages (new_epoch latest.challenge) []

abbrev pub found_rpc : Proof → Proof → List Stage
found_rpc old p =
    writing (set_proof p)
    ∷ writing (set_last_challenge old.challenge)
    ∷ then_stages (new_epoch p.challenge) (add_challenge p.challenge ∷ [])

-- A stage of a waiting task, with what `get_proof` answers. The challenge is added by a step of its
-- own, since that waits for the database.
unfoldable pub waiting_stage : Option Proof → Waiting → Server → Server × Waiting
waiting_stage rpc (try_recv old stopped) s = (s, if stopped then ended else comparing old stopped)
waiting_stage rpc (comparing old stopped) s = (
  s,
  if bytes_eq old.challenge s.proof.challenge
      then get_proof old stopped
      else starting (found_latest old s.proof),
)
waiting_stage rpc (get_proof old stopped) s =
    (s, elim (newer old rpc) [ none ↦ try_recv old stopped | some p ↦ starting (found_rpc old p) ])
waiting_stage rpc (starting []) s = (s, ended)
waiting_stage rpc (starting (writing w ∷ rest)) s = (write w s, starting rest)
waiting_stage rpc w s = (s, w)

-- `tx_message_sender.send(0)` to the task with the number k.
abbrev pub stop : Waiting → Waiting
stop (try_recv old stopped) = try_recv old true
stop (comparing old stopped) = comparing old true
stop (get_proof old stopped) = get_proof old true
stop w = w

unfoldable pub stop_at : ℕ → List Waiting → List Waiting
stop_at k [] = []
stop_at zero (w ∷ ws) = stop w ∷ ws
stop_at (suc k) (w ∷ ws) = w ∷ stop_at k ws

-- The submissions as they were when the window was closed, with the solution and the old proof.
pub record Snapshot : Type 0 where
  pub old_proof : Proof
  pub best_solution : Solution
  pub submissions : HashMap InternalMessageSubmission

-- Where the loop of the system stands.
pub data Driver : Type 0 where
  idle : Driver
  is_there : Proof → Driver
  closing : Proof → Driver
  reading : Proof → Driver
  -- with the attempts that are left
  trying : Snapshot → ℕ → Driver
  -- with the transaction, and the waiting task of the attempt
  polling : Snapshot → ℕ → ℕ → ℕ → Driver
  comparing : Proof → Driver
  get_proof : Proof → Proof → Driver
  checking : Proof → Driver
  starting : List Stage → Driver
  -- the task of the system has ended in a panic
  panicked : Driver

-- What follows from a step of the loop.
pub record Turn : Type 0 where
  pub server : Server
  pub driver : Driver
  pub spawned : List Waiting
  pub stopped : Option ℕ
  pub paid : List (ℕ × Snapshot)

abbrev pub goes_on : Server → Driver → Turn
goes_on s d = record { server = s; driver = d; spawned = []; stopped = none; paid = [] }

abbrev pub failing : Driver
failing = Driver.starting (then_stages failed_stages [])

-- From the blockhash to the signature of the transaction that was sent: `none` breaks off the
-- attempts, or is still sending.
pub data Sending : Type 0 where
  not_yet : Sending
  next_attempt : Sending
  break_off : Sending
  sent : ℕ → Sending

pub sending : Attempt → Sending
unfolding send_mine
sending a =
    if a.has_blockhash
    then (if is_refused a.tx_error then break_off else elim (send_mine 1 a.answers) [
      | none ↦ not_yet
      | some none ↦ break_off
      | some (some sig) ↦ sent sig
    ])
    else next_attempt

-- An attempt up to its polling; `handle` is the number of the task that it spawns.
unfoldable pub try_sending : ℕ → Snapshot → ℕ → Attempt → Server → Turn
unfolding sending
try_sending handle x n a s = elim (sending a) [
  | not_yet ↦ goes_on s (trying x (suc n))
  | next_attempt ↦ goes_on s (trying x n)
  | break_off ↦ goes_on s failing
  | sent sig ↦ record (goes_on s (polling x n sig handle)) {
    spawned = Waiting.try_recv x.old_proof false ∷ [];
  }
]

-- One step of the loop at time `now`, with what the attempt and `get_proof` meet outside.
unfoldable pub drive : Drillx → ℕ → Attempt → Option Proof → ℕ → Driver → Server → Turn
unfolding try_sending finalized_in_time
drive drillx now a rpc handle idle s =
    goes_on s (if leb_ℤ (get_cutoff s.proof 1 now) (pos 0) then is_there s.proof else idle)
drive drillx now a rpc handle (is_there old) s =
    goes_on s (elim s.epoch_hashes.best_hash.solution [ none ↦ idle | some _ ↦ closing old ])
drive drillx now a rpc handle (closing old) s = goes_on (write close_window s) (reading old)
drive drillx now a rpc handle (reading old) s = goes_on s (elim s.epoch_hashes.best_hash.solution [
  | none ↦ failing
  | some best ↦
      trying
        (record { old_proof = old; best_solution = best; submissions = s.epoch_hashes.submissions })
        10
])
drive drillx now a rpc handle (trying x zero) s = goes_on s failing
drive drillx now a rpc handle (trying x (suc n)) s = elim a.loaded [
  | none ↦ try_sending handle x n a s
  | some (p, last_reset_at) ↦
      if drillx.is_valid x.best_solution p.challenge
      then try_sending handle x n a s
      else goes_on (write (set_proof p) s) failing
]
drive drillx now a rpc handle (polling x n sig k) s = elim (finalized_in_time a.polls) [
  | none ↦ goes_on s (polling x n sig k)
  | some true ↦ record (goes_on s (Driver.comparing x.old_proof)) {
    stopped = some k;
    paid = (sig, x) ∷ [];
  }
  | some false ↦ record (goes_on s (trying x n)) { stopped = some k }
]
drive drillx now a rpc handle (Driver.comparing old) s = goes_on s (
    if bytes_eq old.challenge s.proof.challenge
    then Driver.get_proof old s.proof
    else checking s.proof)
drive drillx now a rpc handle (Driver.get_proof old latest) s = goes_on s (elim (newer old rpc) [
  | none ↦ Driver.comparing old
  | some p ↦ Driver.starting (
      writing (set_proof p)
      ∷ then_stages (new_epoch p.challenge) (add_challenge latest.challenge ∷ []))
])
drive drillx now a rpc handle (checking latest) s = goes_on s (
    if bytes_eq latest.challenge s.epoch_hashes.challenge
    then idle
    else Driver.starting
        (then_stages (new_epoch latest.challenge) (add_challenge latest.challenge ∷ [])))
drive drillx now a rpc handle panicked s = goes_on s panicked
drive drillx now a rpc handle (Driver.starting []) s = goes_on s idle
drive drillx now a rpc handle (Driver.starting (writing w ∷ rest)) s =
    goes_on (write w s) (Driver.starting rest)
drive drillx now a rpc handle (Driver.starting (add_challenge c ∷ rest)) s =
    goes_on s (Driver.starting (add_challenge c ∷ rest))

-- The whole server: what runs beside the loop, the loop, its tasks, the rounds to be paid out, and
-- the database as far as its challenges go.
pub record System : Type 0 where
  pub world : World
  pub driver : Driver
  pub waiting : List Waiting
  pub paid : List (ℕ × Snapshot)
  pub tables : Tables

abbrev pub on_server : Server → World → World
on_server s w = record w { server = s }

-- The system after a step of the loop.
abbrev pub turned : Turn → System → System
turned t x = record x {
  world = on_server t.server x.world;
  driver = t.driver;
  waiting = elim t.stopped [ none ↦ x.waiting | some k ↦ stop_at k x.waiting ] ++ t.spawned;
  paid = x.paid ++ t.paid;
}

abbrev pub new_challenge : ℕ → List ℕ → InsertChallenge
new_challenge pool_id c = record { pool_id = pool_id; challenge = c; rewards_earned = none }

-- A step of the parts that are not the submission system.
abbrev pub IsOutside : {drillx : Drillx} {v w : World} → Step drillx v w → Type 0
IsOutside (submission x w) = ⊥
IsOutside _ = Unit

pub data Move (drillx : Drillx) (pool_id : ℕ) : System → System → Type 0 where
  outside :
      (x : System) (w : World) (st : Step drillx x.world w)
      → IsOutside st
      → Move drillx pool_id x (record x { world = w })
  driven :
      (now : ℕ) (a : Attempt) (rpc : Option Proof) (x : System)
      → Move drillx pool_id x
          (turned (drive drillx now a rpc (length x.waiting) x.driver x.world.server) x)
  -- `get_proof_and_config_with_busses` fails to decode an account of an attempt (`expect`)
  load_panics :
      (snapshot : Snapshot) (n : ℕ) (x : System)
      → x.driver ≡ trying snapshot (suc n)
      → Move drillx pool_id x (record x { driver = panicked })
  -- the challenge that the loop adds, when the database has it
  driver_added :
      (c : List ℕ) (rest : List Stage) (links left : List Link) (t : Tables) (x : System)
      → x.driver ≡ Driver.starting (add_challenge c ∷ rest)
      → ensure_challenge (new_challenge pool_id c) (links, x.tables) ≡ some (left, t)
      → Move drillx pool_id x (record x { driver = Driver.starting rest; tables = t })
  waited :
      (rpc : Option Proof) (before after : List Waiting) (w : Waiting) (x : System)
      → x.waiting ≡ before ++ (w ∷ after)
      → Move drillx pool_id x (record x {
        world = on_server (waiting_stage rpc w x.world.server).0 x.world;
        waiting = before ++ ((waiting_stage rpc w x.world.server).1 ∷ after);
      })
  waiting_added :
      (c : List ℕ) (rest : List Stage) (links left : List Link) (t : Tables)
      (before after : List Waiting) (x : System)
      → x.waiting ≡ before ++ (Waiting.starting (add_challenge c ∷ rest) ∷ after)
      → ensure_challenge (new_challenge pool_id c) (links, x.tables) ≡ some (left, t)
      → Move drillx pool_id x
          (record x { waiting = before ++ (Waiting.starting rest ∷ after); tables = t })

-- What the server can come to, from the proof that `main` loads and the tables that it leaves.
pub data Reached (drillx : Drillx) (pool_id : ℕ) : System → Type 0 where
  started :
      (p : Proof) (t : Tables)
      → Reached drillx pool_id
          (record { world = first_world p; driver = idle; waiting = []; paid = []; tables = t })
  moved :
      (x y : System) → Reached drillx pool_id x → Move drillx pool_id x y → Reached drillx pool_id y
