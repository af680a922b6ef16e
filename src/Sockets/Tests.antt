-- ===== src/Sockets/Tests.antt =====
-- The theorems on connections at concrete messages.
use bitz_pool.Common.{
  ℕ, ◌≡◌, ◌<◌, ◌↔◌, ◌⊎◌, refl, true, false, ◌==◌, if◌then◌else◌, none, some, List, [], ◌∷◌, length,
  arith,
}
use bitz_pool.Common.Word.{to_le_bytes}
use bitz_pool.State.{Solution, best_solution, binary, AppClientConnection, Server}
use bitz_pool.Common.Map.{get}
use bitz_pool.Rewards.Paid.{sockets_of}
use bitz_pool.Sockets.{process_message, connect, disconnect}
use bitz_pool.Sockets.Parsed.{
  best_solution_bytes, process_message-best_solution, process_message_panics,
}
use bitz_pool.Sockets.Distinct.{HaveOwnUuids, connections-HaveOwnUuids}
use bitz_pool.Samples.{server, connection}

abbrev sent : Solution
sent = record { d = to_le_bytes 16 77; n = to_le_bytes 8 40000007 }

process_message-best_solution_example :
    process_message (binary (best_solution_bytes sent (to_le_bytes 32 501))) 1 100
    ≡ some (record { is_break = false; sent = some (best_solution 100 sent 1) })
unfolding to_le_bytes
process_message-best_solution_example =
    process_message-best_solution sent (to_le_bytes 32 501) 1 100 refl refl (omega arith)

abbrev short : List ℕ
short = 2 ∷ 3 ∷ []

process_message_panics_example :
    (process_message (binary short) 1 100 ≡ none)
    ↔ ((short ≡ []) ⊎ ((tail : List ℕ) × (short ≡ 2 ∷ tail) × (length short < 57)))
process_message_panics_example = process_message_panics short 1 100

abbrev empty_server : Server
empty_server = record server { app_state = record server.app_state { sockets = [] } }

connections-HaveOwnUuids_example :
    HaveOwnUuids (connect 102 (connection 3) empty_server).0.app_state.sockets
    × HaveOwnUuids (disconnect 102 empty_server).app_state.sockets
    × (get 102 empty_server.app_state.sockets ≡ none
        → ((connect 102 (connection 3) empty_server).1 ≡ true)
          × ((k : ℕ)
              → get k (connect 102 (connection 3) empty_server).0.app_state.sockets
                ≡ (if k == 102 then some (connection 3) else get k empty_server.app_state.sockets)))
    × ((x : AppClientConnection)
        → get 102 empty_server.app_state.sockets ≡ some x
        → connect 102 (connection 3) empty_server ≡ (empty_server, false))
    × ((k : ℕ)
        → get k (disconnect 102 empty_server).app_state.sockets
          ≡ (if k == 102 then none else get k empty_server.app_state.sockets))
unfolding sockets_of
connections-HaveOwnUuids_example =
    connections-HaveOwnUuids 102 (connection 3) empty_server (λ uuid. omega arith) refl
