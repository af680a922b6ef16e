-- ===== src/Sockets.antt =====
-- The connections of src/utils.rs (`handle_socket`, `process_message`) and what the systems do to
-- them: the ping check of src/main.rs, src/systems/pong_tracking_system.rs and
-- src/systems/message_text_all_clients_system.rs.
pub mod Parsed
pub mod Distinct
pub mod Epoch
pub mod Dropped
mod Tests
use bitz_pool.Common.{
  ℕ, ◌+◌, ◌-◌, ◌<◌, Bool, true, false, Option, none, some, List, [], ◌∷◌, ◌++◌, String, take, drop,
  length, ◌==◌, leb, ltb, if◌then◌else◌,
}
use bitz_pool.Common.Map.{HashMap, insert, remove, contains_key}
use bitz_pool.State.{
  Solution, AppClientConnection, ClientMessage, ready, mining, pong, best_solution, WsMessage, text,
  binary, close_message, pong_message, ping_message, Sent, Server,
}

abbrev pub set_sockets : HashMap AppClientConnection → Server → Server
set_sockets socks s = record s { app_state = record s.app_state { sockets = socks } }

-- A new connection: refused if the address has one.
unfoldable pub connect : ℕ → AppClientConnection → Server → Server × Bool
connect who connection s =
    if contains_key who s.app_state.sockets
    then (s, false)
    else (set_sockets (insert who connection s.app_state.sockets) s, true)

unfoldable pub disconnect : ℕ → Server → Server
disconnect who s = set_sockets (remove who s.app_state.sockets) s

-- `ControlFlow`, with the message for the channel.
pub record Processed : Type 0 where
  pub is_break : Bool
  pub sent : Option ClientMessage

abbrev continue_with : Option ClientMessage → Option Processed
continue_with m = some (record { is_break = false; sent = m })

-- The bytes of a best solution after the type: 16 of the digest, 8 of the nonce, 32 of a public key
-- that nothing reads.
abbrev solution_of : List ℕ → Solution
solution_of bytes = record { d = take 16 bytes; n = take 8 (drop 16 bytes) }

-- A binary message. `none` is the panic of an index past its end.
unfoldable pub process_binary : List ℕ → ℕ → ℕ → Option Processed
process_binary [] socket_uuid who = none
process_binary (message_type ∷ d) socket_uuid who =
    if message_type == 0
    then continue_with (some (ready who))
    else if message_type == 1
    then continue_with (some (mining who))
    else if message_type == 2
    then (if ltb (length d) 56
        then none
        else continue_with (some (best_solution who (solution_of d) socket_uuid)))
    else continue_with none

unfoldable pub process_message : WsMessage → ℕ → ℕ → Option Processed
unfolding process_binary
process_message (text t) socket_uuid who = continue_with none
process_message (binary d) socket_uuid who = process_binary d socket_uuid who
process_message (close_message frame) socket_uuid who =
    some (record { is_break = true; sent = none })
process_message (pong_message v) socket_uuid who = continue_with (some (pong who))
process_message (ping_message v) socket_uuid who = continue_with none

-- What a connection sends over the channel until it closes, breaks or panics.
unfoldable pub receive : ℕ → ℕ → List WsMessage → List ClientMessage
unfolding process_message
receive socket_uuid who [] = []
receive socket_uuid who (msg ∷ msgs) =
    let rest = receive socket_uuid who msgs in
    elim (process_message msg socket_uuid who) [
      | none ↦ []
      | some p ↦
          let sent : List ClientMessage = elim p.sent [ none ↦ [] | some m ↦ m ∷ [] ] in
          if p.is_break then sent else sent ++ rest
    ]

-- `ping_check_system`: the sockets whose ping failed are removed.
unfoldable pub remove_unreachable : List ℕ → Server → Server
unfolding disconnect
remove_unreachable [] s = s
remove_unreachable (who ∷ failed) s = remove_unreachable failed (disconnect who s)

abbrev pub silenced : ℕ → Server → Server
silenced who s = record (disconnect who s) { pongs = remove who s.pongs }

-- `pong_tracking_system`, over the pongs as they were read: a socket without a pong for more than
-- 90 seconds is removed, and its pong.
unfoldable pub drop_silent : ℕ → HashMap ℕ → Server → Server
unfolding disconnect
drop_silent now [] s = s
drop_silent now ((who, at) ∷ pongs) s =
    drop_silent now pongs (if ltb 90 (now - at) then silenced who s else s)

-- `message_text_all_clients_system`: one message to every socket.
abbrev pub texts : String → HashMap AppClientConnection → List Sent
texts msg [] = []
texts msg ((who, client) ∷ socks) = record { to = who; message = text msg } ∷ texts msg socks

unfoldable pub text_all_clients : String → Server → Server
text_all_clients msg s = record s { outbox = s.outbox ++ texts msg s.app_state.sockets }
