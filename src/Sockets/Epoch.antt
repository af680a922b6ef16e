-- ===== src/Sockets/Epoch.antt =====
-- Connections and texts leave the epoch alone.
use bitz_pool.Common.{ℕ, ◌-◌, ◌≡◌, refl, [], ◌∷◌, String, ltb, arith, Bool-cases, inl, inr}
use bitz_pool.Common.Map.{HashMap}
use bitz_pool.State.{AppClientConnection, Server}
use bitz_pool.Sockets.{connect, disconnect, silenced, drop_silent, text_all_clients}

pub connect-epoch :
    (who : ℕ) (c : AppClientConnection) (s : Server)
    → (connect who c s).0.epoch_hashes ≡ s.epoch_hashes
unfolding connect
connect-epoch who c s = ground arith

pub disconnect-epoch : (who : ℕ) (s : Server) → (disconnect who s).epoch_hashes ≡ s.epoch_hashes
unfolding disconnect
disconnect-epoch who s = refl

pub drop_silent-epoch :
    (now : ℕ) (pongs : HashMap ℕ) (s : Server)
    → (drop_silent now pongs s).epoch_hashes ≡ s.epoch_hashes
unfolding drop_silent disconnect
drop_silent-epoch now [] s = refl
drop_silent-epoch now ((who, at) ∷ pongs) s = elim (Bool-cases (ltb 90 (now - at))) [
  | inl gone ↦ rw (gone, drop_silent) (drop_silent-epoch now pongs (silenced who s))
  | inr there ↦ rw (there, drop_silent) (drop_silent-epoch now pongs s)
]

pub text_all_clients-epoch :
    (msg : String) (s : Server) → (text_all_clients msg s).epoch_hashes ≡ s.epoch_hashes
unfolding text_all_clients
text_all_clients-epoch msg s = refl
