-- ===== src/Epochs/Refines.antt =====
-- The submission system, stage by stage, beside the step relation of Schedule that lets any of its
-- writes happen at any time.
use bitz_pool.Common.{
  ℕ, zero, suc, ◌≡◌, refl, sym, subst, ◌⊎◌, inl, inr, Bool-cases, Option, Option-cases, [], ◌∷◌,
  arith,
}
use bitz_pool.State.{Drillx, Proof, Server}
use bitz_pool.Submission.{Write, set_proof, write}
use bitz_pool.Submission.Attempts.{Attempt}
use bitz_pool.Schedule.{World, Reached, started, then_step, submission}
use bitz_pool.Database.Tables.{Tables}
use bitz_pool.Epochs
use bitz_pool.Epochs.{IsOutside}
use bitz_pool.Epochs.{
  Waiting, Driver, Snapshot, Stage, Turn, System, waiting_stage, drive, try_sending, sending,
  writing, add_challenge, Sending, not_yet, next_attempt, break_off, sent, on_server, Move, outside,
  driven, load_panics, driver_added, waited, waiting_added, moved, idle, is_there, closing, reading,
  trying, polling, checking, panicked,
}

-- At most one write.
abbrev pub IsWriteOf : Server → Server → Type 0
IsWriteOf s s' = (s' ≡ s) ⊎ ((w : Write) × (s' ≡ write w s))

waiting_stage-IsWriteOf :
    (rpc : Option Proof) (w : Waiting) (s : Server) → IsWriteOf s (waiting_stage rpc w s).0
unfolding waiting_stage
waiting_stage-IsWriteOf rpc (Waiting.try_recv old stopped) s = inl refl
waiting_stage-IsWriteOf rpc (Waiting.comparing old stopped) s = inl refl
waiting_stage-IsWriteOf rpc (Waiting.get_proof old stopped) s = inl refl
waiting_stage-IsWriteOf rpc (Waiting.starting []) s = inl refl
waiting_stage-IsWriteOf rpc (Waiting.starting (writing w ∷ rest)) s = inr (w, refl)
waiting_stage-IsWriteOf rpc (Waiting.starting (add_challenge c ∷ rest)) s = inl refl
waiting_stage-IsWriteOf rpc Waiting.ended s = inl refl

pub try_sending-server :
    (handle : ℕ) (x : Snapshot) (n : ℕ) (a : Attempt) (s : Server)
    → (try_sending handle x n a s).server ≡ s
unfolding try_sending
try_sending-server handle x n a s = ground arith

drive-IsWriteOf :
    (drillx : Drillx) (now : ℕ) (a : Attempt) (rpc : Option Proof) (handle : ℕ) (d : Driver)
    (s : Server)
    → IsWriteOf s (drive drillx now a rpc handle d s).server
unfolding drive
drive-IsWriteOf drillx now a rpc handle idle s = inl refl
drive-IsWriteOf drillx now a rpc handle (is_there old) s = inl refl
drive-IsWriteOf drillx now a rpc handle (closing old) s = inr (_, refl)
drive-IsWriteOf drillx now a rpc handle (reading old) s = inl refl
drive-IsWriteOf drillx now a rpc handle (trying x zero) s = inl refl
drive-IsWriteOf drillx now a rpc handle (trying x (suc n)) s = elim (Option-cases a.loaded) [
  | inl e ↦ inl (rw e (try_sending-server handle x n a s))
  | inr (q, e) ↦ elim (Bool-cases (drillx.is_valid x.best_solution q.0.challenge)) [
    | inl v ↦ inl (rw (e, v) (try_sending-server handle x n a s))
    | inr v ↦ inr (set_proof q.0, rw (e, v) refl)
  ]
]
drive-IsWriteOf drillx now a rpc handle (polling x n sig k) s = inl (ground arith)
drive-IsWriteOf drillx now a rpc handle (Driver.comparing old) s = inl refl
drive-IsWriteOf drillx now a rpc handle (Driver.get_proof old latest) s = inl refl
drive-IsWriteOf drillx now a rpc handle (checking latest) s = inl refl
drive-IsWriteOf drillx now a rpc handle panicked s = inl refl
drive-IsWriteOf drillx now a rpc handle (Driver.starting []) s = inl refl
drive-IsWriteOf drillx now a rpc handle (Driver.starting (writing w ∷ rest)) s = inr (w, refl)
drive-IsWriteOf drillx now a rpc handle (Driver.starting (add_challenge c ∷ rest)) s = inl refl

written :
    (drillx : Drillx) (w : World) (s : Server)
    → Reached drillx w
    → IsWriteOf w.server s
    → Reached drillx (on_server s w)
written drillx w s r (inl e) = subst (λ x. Reached drillx (on_server x w)) (sym e) r
written drillx w s r (inr (x, e)) =
    subst (λ y. Reached drillx (on_server y w)) (sym e) (then_step w _ r (submission x w))

-- Whatever the submission system, its tasks and the other parts do, in any order, is a run of the
-- step relation of Schedule: what holds of every state that Schedule reaches holds of the server.
pub Reached-refines :
    (drillx : Drillx) (pool_id : ℕ) (x : System)
    → Epochs.Reached drillx pool_id x
    → Reached drillx x.world
Reached-refines drillx pool_id x (Epochs.started p t) = started p
Reached-refines drillx pool_id x (moved y _ r (outside _ w st o)) =
    then_step y.world w (Reached-refines drillx pool_id y r) st
Reached-refines drillx pool_id x (moved y _ r (driven now a rpc _)) =
    written drillx y.world _ (Reached-refines drillx pool_id y r)
      (drive-IsWriteOf drillx now a rpc _ y.driver y.world.server)
Reached-refines drillx pool_id x (moved y _ r (load_panics snapshot n _ at)) =
    Reached-refines drillx pool_id y r
Reached-refines drillx pool_id x (moved y _ r (driver_added c rest links left t _ at ok)) =
    Reached-refines drillx pool_id y r
Reached-refines drillx pool_id x (moved y _ r (waited rpc before after w _ at)) =
    written drillx y.world _ (Reached-refines drillx pool_id y r)
      (waiting_stage-IsWriteOf rpc w y.world.server)
Reached-refines drillx pool_id x
      (moved y _ r (waiting_added c rest links left t before after _ at ok)) =
    Reached-refines drillx pool_id y r

-- A run without the submission system.
abbrev pub AllOutside : {drillx : Drillx} {w : World} → Reached drillx w → Type 0
AllOutside (started p) = Unit
AllOutside (then_step v w r st) = AllOutside r × IsOutside st

-- Such a run is also one of the whole server, whose loop has not moved yet.
pub lifted :
    (drillx : Drillx) (pool_id : ℕ) (t : Tables) (w : World) (r : Reached drillx w)
    → AllOutside r
    → Epochs.Reached drillx pool_id
        (record { world = w; driver = idle; waiting = []; paid = []; tables = t })
lifted drillx pool_id t w (started p) o = Epochs.started p t
lifted drillx pool_id t w (then_step v _ r st) o =
    moved _ _ (lifted drillx pool_id t v r o.0) (outside _ w st o.1)
