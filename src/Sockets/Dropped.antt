-- ===== src/Sockets/Dropped.antt =====
-- Which connections src/systems/pong_tracking_system.rs drops.
use bitz_pool.Common.{
  ℕ, ◌-◌, ◌≡◌, Bool, none, [], ◌∷◌, ◌==◌, ◌&&◌, ltb, if◌then◌else◌, refl, any, arith,
}
use bitz_pool.Common.Map.{HashMap, get, get-remove}
use bitz_pool.State.{Server}
use bitz_pool.Sockets.{disconnect, silenced, drop_silent}

-- An address with a pong of more than 90 seconds ago, among the pongs that were read.
abbrev pub is_silent : ℕ → ℕ → HashMap ℕ → Bool
is_silent now who pongs = any (λ e. e.0 == who && ltb 90 (now - e.1)) pongs

-- Exactly the addresses that are silent in the pongs that were read lose their connection and their
-- pong, also one that came in since; an address without a pong keeps its connection.
drop_silent-drops :
    (now who : ℕ) (pongs : HashMap ℕ) (s : Server)
    → (get who (drop_silent now pongs s).app_state.sockets
        ≡ (if is_silent now who pongs then none else get who s.app_state.sockets))
      × (get who (drop_silent now pongs s).pongs
          ≡ (if is_silent now who pongs then none else get who s.pongs))
unfolding drop_silent disconnect
drop_silent-drops now who [] s = (refl, refl)
drop_silent-drops now who ((addr, at) ∷ pongs) s =
    let rest = drop_silent-drops now who pongs (if ltb 90 (now - at) then silenced addr s else s) in
    let socks = get-remove who addr s.app_state.sockets in
    let kept = get-remove who addr s.pongs in (ground arith, ground arith)
