-- ===== src/Sockets/Distinct.antt =====
-- What connecting and disconnecting does to the sockets, and to their uuids.
use bitz_pool.Common.{
  ℕ, suc, ◌≤◌, ◌≡◌, refl, none, some, true, false, [], ◌∷◌, ◌==◌, ==_iff, subst, sym, ◌⊎◌,
  if◌then◌else◌, arith, Bool-cases, Option-cases, inl, inr,
}
use bitz_pool.Common.Map.{HashMap, get, insert, remove, get-insert, get-remove}
use bitz_pool.State.{AppClientConnection, Server}
use bitz_pool.Rewards.Paid.{sockets_of}
use bitz_pool.Sockets.{connect, disconnect}

-- No two connections share a uuid.
abbrev pub HaveOwnUuids : HashMap AppClientConnection → Type 0
HaveOwnUuids socks = (uuid : ℕ) → sockets_of uuid socks ≤ 1

sockets_of-insert :
    (who uuid : ℕ) (c : AppClientConnection) (socks : HashMap AppClientConnection)
    → get who socks ≡ none
    → sockets_of uuid (insert who c socks)
      ≡ (if c.uuid == uuid then suc (sockets_of uuid socks) else sockets_of uuid socks)
unfolding sockets_of
sockets_of-insert who uuid c [] h = refl
sockets_of-insert who uuid c ((j, x) ∷ socks) h = ground (arith, sockets_of-insert who uuid c socks)

sockets_of-remove :
    (who uuid : ℕ) (socks : HashMap AppClientConnection)
    → sockets_of uuid (remove who socks) ≤ sockets_of uuid socks
unfolding sockets_of
sockets_of-remove who uuid [] = omega arith
sockets_of-remove who uuid ((j, x) ∷ socks) = ground (arith, sockets_of-remove who uuid socks)

inserted-HaveOwnUuids :
    (who : ℕ) (c : AppClientConnection) (socks : HashMap AppClientConnection)
    → HaveOwnUuids socks
    → sockets_of c.uuid socks ≡ 0
    → get who socks ≡ none
    → HaveOwnUuids (insert who c socks)
inserted-HaveOwnUuids who c socks h fresh free uuid = elim (Bool-cases (c.uuid == uuid)) [
  | inl own ↦
      let same : c.uuid ≡ uuid = (==_iff c.uuid uuid).0 own in
      let none_yet : sockets_of uuid socks ≡ 0 = subst (λ u. sockets_of u socks ≡ 0) same fresh in
      ground (arith, sockets_of-insert who uuid c socks free)
  | inr other ↦ ground (arith, sockets_of-insert who uuid c socks free, h uuid)
]

connect-sockets :
    (who : ℕ) (c : AppClientConnection) (s : Server)
    → ((get who s.app_state.sockets ≡ none)
        × ((connect who c s).0.app_state.sockets ≡ insert who c s.app_state.sockets))
      ⊎ ((connect who c s).0.app_state.sockets ≡ s.app_state.sockets)
unfolding connect
connect-sockets who c s = elim (Option-cases (get who s.app_state.sockets)) [
  | inl free ↦ inl (free, ground arith)
  | inr (x, taken) ↦ inr (ground arith)
]

connect-HaveOwnUuids :
    (who : ℕ) (c : AppClientConnection) (s : Server)
    → HaveOwnUuids s.app_state.sockets
    → sockets_of c.uuid s.app_state.sockets ≡ 0
    → HaveOwnUuids (connect who c s).0.app_state.sockets
connect-HaveOwnUuids who c s h fresh = elim (connect-sockets who c s) [
  | inl (free, e) ↦
      subst HaveOwnUuids (sym e) (inserted-HaveOwnUuids who c s.app_state.sockets h fresh free)
  | inr e ↦ subst HaveOwnUuids (sym e) h
]

connect-get :
    (who : ℕ) (c : AppClientConnection) (s : Server)
    → get who s.app_state.sockets ≡ none
    → ((connect who c s).1 ≡ true)
      × ((k : ℕ)
          → get k (connect who c s).0.app_state.sockets
            ≡ (if k == who then some c else get k s.app_state.sockets))
unfolding connect
connect-get who c s free =
    (ground arith, λ k. ground (arith, get-insert k who c s.app_state.sockets))

connect_taken :
    (who : ℕ) (c x : AppClientConnection) (s : Server)
    → get who s.app_state.sockets ≡ some x
    → connect who c s ≡ (s, false)
unfolding connect
connect_taken who c x s taken = ground arith

-- A connection from a free address is accepted and has the address afterwards; from a taken one it
-- is refused, and nothing changes. The end of a connection frees its address. Both leave the socket
-- of every other address as it was. All this where no two sockets share a uuid and that of the new
-- connection is fresh, and no two share one afterwards.
pub connections-HaveOwnUuids :
    (who : ℕ) (c : AppClientConnection) (s : Server)
    → HaveOwnUuids s.app_state.sockets
    → sockets_of c.uuid s.app_state.sockets ≡ 0
    → HaveOwnUuids (connect who c s).0.app_state.sockets
      × HaveOwnUuids (disconnect who s).app_state.sockets
      × (get who s.app_state.sockets ≡ none
          → ((connect who c s).1 ≡ true)
            × ((k : ℕ)
                → get k (connect who c s).0.app_state.sockets
                  ≡ (if k == who then some c else get k s.app_state.sockets)))
      × ((x : AppClientConnection)
          → get who s.app_state.sockets ≡ some x
          → connect who c s ≡ (s, false))
      × ((k : ℕ)
          → get k (disconnect who s).app_state.sockets
            ≡ (if k == who then none else get k s.app_state.sockets))
unfolding disconnect
connections-HaveOwnUuids who c s h fresh = (
  connect-HaveOwnUuids who c s h fresh,
  (λ uuid. omega (arith, h uuid, sockets_of-remove who uuid s.app_state.sockets)),
  connect-get who c s,
  (λ x. connect_taken who c x s),
  λ k. ground (arith, get-remove k who s.app_state.sockets),
)
