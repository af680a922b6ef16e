-- ===== src/Ready/Stages.antt =====
-- src/systems/handle_ready_clients_system.rs stage by stage: what the loop does under one lock, and
-- what it holds between two locks, when anything else may run.
use bitz_pool.Common.{
  ℕ, Bool, true, false, not, ◌&&◌, none, some, List, [], ◌∷◌, length, ltb, if◌then◌else◌,
}
use bitz_pool.Common.Map.{get}
use bitz_pool.Common.Int.{ℤ, pos, ltb_ℤ}
use bitz_pool.State.{Server}
use bitz_pool.Message.{start_mining_binary}
use bitz_pool.Proofs.{get_cutoff}
use bitz_pool.Tasks.{Task, announce}
use bitz_pool.Ready.{nonce_range, i64_bits, set_remove}

-- Where the loop stands. The last three hold the challenge and the cutoff that are announced, and
-- the clients that are left.
pub data Round : Type 0 where
  resting : Round
  listing : Round
  reading_proof : List ℕ → Round
  reading_best : List ℕ → Round
  -- with `should_mine` and the cutoff
  reading_window : Bool → ℤ → List ℕ → Round
  reading_challenge : ℤ → List ℕ → Round
  serving : List ℕ → ℤ → List ℕ → Round
  -- with the address of the client and the uuid of its socket
  taking_nonce : List ℕ → ℤ → ℕ → ℕ → List ℕ → Round
  unlisting : List ℕ → ℤ → ℕ → List ℕ → Round

pub record RoundStep : Type 0 where
  pub server : Server
  pub round : Round
  pub spawned : List Task

abbrev pub steps_to : Server → Round → RoundStep
steps_to s r = record { server = s; round = r; spawned = [] }

-- A stage of the loop at time `now`.
unfoldable pub round_stage : ℕ → Round → Server → RoundStep
unfolding nonce_range i64_bits start_mining_binary
round_stage now resting s = steps_to s (if s.app_state.paused then resting else listing)
round_stage now listing s =
    steps_to s (if ltb 0 (length s.ready_clients) then reading_proof s.ready_clients else resting)
round_stage now (reading_proof clients) s =
    let cutoff = get_cutoff s.proof 2 now in
    steps_to s
      (if ltb_ℤ cutoff (pos 10) then reading_best clients else reading_window true cutoff clients)
round_stage now (reading_best clients) s = steps_to s (elim s.epoch_hashes.best_hash.solution [
  | some _ ↦ reading_window false (pos 0) clients
  | none ↦ reading_window true (pos 0) clients
])
round_stage now (reading_window should_mine cutoff clients) s =
    steps_to s
      (if should_mine && not s.window_closed then reading_challenge cutoff clients else resting)
round_stage now (reading_challenge cutoff clients) s =
    steps_to s (serving s.proof.challenge cutoff clients)
round_stage now (serving challenge cutoff []) s = steps_to s resting
round_stage now (serving challenge cutoff (client ∷ clients)) s =
    steps_to s (elim (get client s.app_state.sockets) [
      | some sender ↦ taking_nonce challenge cutoff client sender.uuid clients
      | none ↦ unlisting challenge cutoff client clients
    ])
round_stage now (taking_nonce challenge cutoff client uuid clients) s =
    let (range, nonce) = nonce_range s.nonce in
    record {
      server = record s { nonce = nonce };
      round = unlisting challenge cutoff client clients;
      spawned =
          announce client
            (start_mining_binary (record {
              challenge = challenge;
              cutoff = i64_bits cutoff;
              nonce_range_start = range.start;
              nonce_range_end = range.end;
            }))
            uuid range
          ∷ [];
    }
round_stage now (unlisting challenge cutoff client clients) s =
    steps_to (record s { ready_clients = set_remove client s.ready_clients })
      (serving challenge cutoff clients)
