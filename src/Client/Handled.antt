-- ===== src/Client/Handled.antt =====
-- A message and the task of a ready client leave the epoch alone.
use bitz_pool.Common.{ℕ, ◌≡◌, refl, All}
use bitz_pool.State.{Drillx, ClientMessage, ready, mining, pong, best_solution, Server}
use bitz_pool.Client.{handle_message, ready_stage}
use bitz_pool.Client.Sound.{TaskIsSound}

pub handle_message_sound :
    (drillx : Drillx) (m : ClientMessage) (now : ℕ) (s : Server)
    → let (s', spawned) = handle_message m now s in
      (s'.epoch_hashes ≡ s.epoch_hashes) × All (TaskIsSound drillx) spawned
unfolding handle_message
handle_message_sound drillx (ready addr) now s = (refl, (tt, tt))
handle_message_sound drillx (mining addr) now s = (refl, tt)
handle_message_sound drillx (pong addr) now s = (refl, tt)
handle_message_sound drillx (best_solution addr solution uuid) now s = (refl, (tt, tt))

pub ready_stage_sound :
    (drillx : Drillx) (addr : ℕ) (s : Server)
    → let (s', t') = ready_stage addr s in
      (s'.epoch_hashes ≡ s.epoch_hashes) × TaskIsSound drillx t'
unfolding ready_stage
ready_stage_sound drillx addr s = (refl, tt)
