-- ===== src/Client/Alone.antt =====
-- The task of a solution that runs with nothing in between, against a description of what the
-- handler accepts.
use bitz_pool.Common.{
  ◌>>=◌, ℕ, zero, suc, ◌≤◌, ◌<◌, ◌≡◌, refl, Bool, true, false, inl, inr, Option, none, some, arith,
  ltb, leb, if◌then◌else◌, any, Option-cases, Bool-cases,
}
use bitz_pool.Common.Map.{get, get-insert}
use bitz_pool.Common.Word.{from_le_bytes}
use bitz_pool.State.{min_diff, Solution, Drillx, InternalMessageSubmission, EpochHashes, Server}
use bitz_pool.Tasks.{
  Task, check_window, late, find_ranges, find_miner, check_proof, refuse, compare_old, done,
}
use bitz_pool.Client.{submission_of, record_submission, send_text, solution_stage, in_range}

-- n stages in a row.
unfoldable pub run_stages : Drillx → ℕ → Task → Server → Server × Task
unfolding solution_stage
run_stages drillx zero t s = (s, t)
run_stages drillx (suc n) t s =
    let (s', t') = solution_stage drillx t s in run_stages drillx n t' s'

abbrev require : Bool → Option (Unit {0})
require true = some tt
require false = none

-- A submission that is better than the miner's last, or the first.
abbrev pub improves : Option InternalMessageSubmission → ℕ → Bool
improves none diff = true
improves (some old_sub) diff = ltb old_sub.supplied_diff diff

-- What the pool accepts: while the window is open, a nonce in a range of the connection, from an
-- address with a socket, a valid solution for the current proof, of the least difficulty, better
-- than what the connection has.
abbrev pub accepted : Drillx → Server → ℕ → Solution → ℕ → Option InternalMessageSubmission
accepted drillx s addr solution uuid =
    let nonce = from_le_bytes solution.n in
    if s.window_closed then none else (do
      ranges ← get uuid s.client_nonce_ranges
      _ ← require (any (in_range nonce) ranges)
      socket ← get addr s.app_state.sockets
      _ ← require (drillx.is_valid solution s.proof.challenge)
      _ ← require (leb min_diff (drillx.difficulty solution))
      _ ← require (improves (get uuid s.epoch_hashes.submissions) (drillx.difficulty solution))
      some (submission_of drillx solution socket.miner_id nonce))

-- The epoch after the judgement.
abbrev pub judged : ℕ → Solution → Option InternalMessageSubmission → EpochHashes → EpochHashes
judged uuid solution none e = e
judged uuid solution (some sub) e = record_submission uuid solution sub e

-- n stages finish a task and leave the epoch e.
abbrev Settles : Drillx → ℕ → Task → Server → EpochHashes → Type 0
Settles drillx n t s e =
    ((run_stages drillx n t s).1 ≡ done) × ((run_stages drillx n t s).0.epoch_hashes ≡ e)

module _ (drillx : Drillx) (s : Server) where
  done-Settles : (n : ℕ) → Settles drillx n done s s.epoch_hashes
  unfolding run_stages
  done-Settles zero = (refl, refl)
  done-Settles (suc n) = done-Settles n

  compare_old-Settles :
      (uuid : ℕ) (solution : Solution) (sub : InternalMessageSubmission)
      → Settles drillx 2 (compare_old uuid solution sub) s (
          if improves (get uuid s.epoch_hashes.submissions) sub.supplied_diff
          then record_submission uuid solution sub s.epoch_hashes
          else s.epoch_hashes)
  unfolding run_stages record_submission
  compare_old-Settles uuid solution sub = ground arith

  refuse-Settles : (addr : ℕ) → Settles drillx 2 (refuse addr) s s.epoch_hashes
  unfolding run_stages send_text
  refuse-Settles addr = ground arith

  late-Settles : (addr : ℕ) → Settles drillx 5 (late addr) s s.epoch_hashes
  unfolding run_stages send_text
  late-Settles addr = ground arith

  check_proof-Settles :
      (addr : ℕ) (solution : Solution) (uuid nonce miner_id : ℕ)
      → Settles drillx 3 (check_proof addr solution uuid nonce miner_id) s (
          judged uuid solution
            (do
              _ ← require (drillx.is_valid solution s.proof.challenge)
              _ ← require (leb min_diff (drillx.difficulty solution))
              _ ←
                  require
                    (improves (get uuid s.epoch_hashes.submissions) (drillx.difficulty solution))
              some (submission_of drillx solution miner_id nonce))
            s.epoch_hashes)
  unfolding run_stages submission_of
  check_proof-Settles addr solution uuid nonce miner_id = ground (
    arith,
    compare_old-Settles uuid solution (submission_of drillx solution miner_id nonce),
    refuse-Settles addr,
    done-Settles 2,
  )

  find_miner-Settles :
      (addr : ℕ) (solution : Solution) (uuid nonce : ℕ)
      → Settles drillx 4 (find_miner addr solution uuid nonce) s (
          judged uuid solution
            (do
              socket ← get addr s.app_state.sockets
              _ ← require (drillx.is_valid solution s.proof.challenge)
              _ ← require (leb min_diff (drillx.difficulty solution))
              _ ←
                  require
                    (improves (get uuid s.epoch_hashes.submissions) (drillx.difficulty solution))
              some (submission_of drillx solution socket.miner_id nonce))
            s.epoch_hashes)
  unfolding run_stages
  find_miner-Settles addr solution uuid nonce = elim (Option-cases (get addr s.app_state.sockets)) [
    | inl gone ↦ ground (arith, done-Settles 3)
    | inr (socket, e) ↦ ground (arith, check_proof-Settles addr solution uuid nonce socket.miner_id)
  ]

  find_ranges-Settles :
      (addr : ℕ) (solution : Solution) (uuid : ℕ)
      → s.window_closed ≡ false
      → Settles drillx 5
          (find_ranges addr solution uuid)
          s
          (judged uuid solution (accepted drillx s addr solution uuid) s.epoch_hashes)
  unfolding run_stages
  find_ranges-Settles addr solution uuid w = elim (Option-cases (get uuid s.client_nonce_ranges)) [
    | inl unset ↦ ground (arith, done-Settles 4)
    | inr (ranges, e) ↦ elim (Bool-cases (any (in_range (from_le_bytes solution.n)) ranges)) [
      | inl inside ↦
          ground (arith, find_miner-Settles addr solution uuid (from_le_bytes solution.n))
      | inr outside ↦ ground (arith, done-Settles 4)
    ]
  ]

-- Six stages judge a solution, if nothing runs in between, and exactly what is accepted is
-- recorded: any other solution leaves the epoch as it was.
pub run_stages-judged :
    (drillx : Drillx) (addr : ℕ) (solution : Solution) (uuid : ℕ) (s : Server)
    → let (s', t') = run_stages drillx 6 (check_window addr solution uuid) s in
      (t' ≡ done)
      × (s'.epoch_hashes
          ≡ judged uuid solution (accepted drillx s addr solution uuid) s.epoch_hashes)
unfolding run_stages
run_stages-judged drillx addr solution uuid s = elim (Bool-cases s.window_closed) [
  | inl closed ↦ ground (arith, late-Settles drillx s addr)
  | inr open_window ↦ ground (arith, find_ranges-Settles drillx s addr solution uuid open_window)
]

accepted-improves :
    (drillx : Drillx) (s : Server) (addr : ℕ) (solution : Solution) (uuid : ℕ)
    (old sub : InternalMessageSubmission)
    → get uuid s.epoch_hashes.submissions ≡ some old
    → accepted drillx s addr solution uuid ≡ some sub
    → old.supplied_diff < sub.supplied_diff
unfolding submission_of
accepted-improves drillx s addr solution uuid old sub e a = ground arith

get-record_submission :
    (uuid : ℕ) (solution : Solution) (sub : InternalMessageSubmission) (e : EpochHashes)
    → get uuid (record_submission uuid solution sub e).submissions ≡ some sub
unfolding record_submission
get-record_submission uuid solution sub e = ground (arith, get-insert uuid uuid sub e.submissions)

-- Judged alone, a solution never takes a better submission from its connection: what the
-- connection had is still there, or gave way to one of a higher difficulty.
judged-keeps_best :
    (drillx : Drillx) (addr : ℕ) (solution : Solution) (uuid : ℕ) (s : Server)
    (old : InternalMessageSubmission)
    → get uuid s.epoch_hashes.submissions ≡ some old
    → (new : InternalMessageSubmission) × (get uuid
          (run_stages drillx 6 (check_window addr solution uuid) s).0.epoch_hashes.submissions
        ≡ some new)
      × (old.supplied_diff ≤ new.supplied_diff)
judged-keeps_best drillx addr solution uuid s old e =
    rw (run_stages-judged drillx addr solution uuid s).1
      (elim (Option-cases (accepted drillx s addr solution uuid)) [
        | inl refused ↦ (old, rw refused e, omega arith)
        | inr (sub, a) ↦ (
          sub,
          rw a (get-record_submission uuid solution sub s.epoch_hashes),
          omega (arith, accepted-improves drillx s addr solution uuid old sub e a),
        )
      ])
