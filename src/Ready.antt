-- ===== src/Ready.antt =====
-- src/systems/handle_ready_clients_system.rs: a round of the system that hands out nonce ranges, as
-- it runs when nothing interrupts it (Stages has it lock by lock), and each stage of the task that
-- it starts for a client.
pub mod Ranges
pub mod Stages
pub mod Spawned
mod Tests
use bitz_pool.Common.{
  ℕ, ◌+◌, ◌-◌, Bool, true, false, not, ◌&&◌, Option, none, some, List, [], ◌∷◌, ◌++◌, length, ◌==◌,
  ltb, if◌then◌else◌,
}
use bitz_pool.Common.Map.{get, insert}
use bitz_pool.Common.Word.{u64_mod, add_u64, sub_u64}
use bitz_pool.Common.Int.{ℤ, pos, negsuc, ltb_ℤ}
use bitz_pool.State.{Solution, Range, binary, Sent, Server}
use bitz_pool.Message.{ServerMessageStartMining, start_mining_binary}
use bitz_pool.Proofs.{get_cutoff}
use bitz_pool.Tasks.{Task, announce, fetch_ranges, store_ranges, done}

abbrev pub nonce_range_size : ℕ
nonce_range_size = 40000000

-- The range that starts at a nonce, and the nonce after it.
unfoldable pub nonce_range : ℕ → Range × ℕ
nonce_range nonce =
    let start = nonce in
    let nonce_end = sub_u64 (add_u64 start nonce_range_size) 1 in
    (record { start = start; end = nonce_end }, add_u64 nonce nonce_range_size)

-- The bit pattern of an `i64`.
unfoldable pub i64_bits : ℤ → ℕ
i64_bits (pos n) = n
i64_bits (negsuc n) = u64_mod - 1 - n

-- `HashSet::remove`
unfoldable pub set_remove : ℕ → List ℕ → List ℕ
set_remove a [] = []
set_remove a (b ∷ bs) = if a == b then set_remove a bs else b ∷ set_remove a bs

-- One client, when nothing comes between the locks that its turn takes: a range if it still has a
-- socket, and off the list of ready clients in any case.
unfoldable pub serve_client : ℤ → ℕ → Server → Server × List Task
unfolding nonce_range i64_bits start_mining_binary
serve_client cutoff client s =
    let ready_clients = set_remove client s.ready_clients in
    elim (get client s.app_state.sockets) [
      | none ↦ (record s { ready_clients = ready_clients }, [])
      | some sender ↦
          let (range, nonce) = nonce_range s.nonce in
          let msg : ServerMessageStartMining = record {
            challenge = s.proof.challenge;
            cutoff = i64_bits cutoff;
            nonce_range_start = range.start;
            nonce_range_end = range.end;
          } in
          (
            record s { nonce = nonce; ready_clients = ready_clients },
            announce client (start_mining_binary msg) sender.uuid range ∷ [],
          )
    ]

unfoldable pub serve_clients : ℤ → List ℕ → Server → Server × List Task
serve_clients cutoff [] s = (s, [])
serve_clients cutoff (client ∷ clients) s =
    let (s', spawned) = serve_client cutoff client s in
    let (s'', more) = serve_clients cutoff clients s' in (s'', spawned ++ more)

-- Whether to mine and the cutoff to announce: with less than 10 seconds left only if there is no
-- best hash yet, and then with a cutoff of 0.
unfoldable pub mining_cutoff : ℤ → Option Solution → Bool × ℤ
mining_cutoff cutoff solution =
    if ltb_ℤ cutoff (pos 10)
    then (elim solution [ none ↦ true | some _ ↦ false ], pos 0)
    else (true, cutoff)

-- One round of the loop that nothing interrupts, at time `now`.
unfoldable pub ready_round : ℕ → Server → Server × List Task
unfolding mining_cutoff
ready_round now s =
    if s.app_state.paused
    then (s, [])
    else (let clients = s.ready_clients in
        if ltb 0 (length clients)
        then (let (should_mine, cutoff) =
              mining_cutoff (get_cutoff s.proof 2 now) s.epoch_hashes.best_hash.solution in
            if should_mine && not s.window_closed then serve_clients cutoff clients s else (s, []))
        else (s, []))

-- A stage of the task for one client: the message goes out first, the range is stored after.
unfoldable pub announce_stage : Task → Server → Server × Task
announce_stage (announce client msg uuid range) s = (
  record s { outbox = s.outbox ++ (record { to = client; message = binary msg } ∷ []) },
  fetch_ranges uuid range,
)
announce_stage (fetch_ranges uuid range) s = (
  s,
  store_ranges uuid (elim (get uuid s.client_nonce_ranges) [
    | some nonce_ranges ↦ nonce_ranges ++ (range ∷ [])
    | none ↦ range ∷ []
  ]),
)
announce_stage (store_ranges uuid ranges) s =
    (record s { client_nonce_ranges = insert uuid ranges s.client_nonce_ranges }, done)
announce_stage t s = (s, t)
