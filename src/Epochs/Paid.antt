-- ===== src/Epochs/Paid.antt =====
-- What the rounds hold that the loop hands on to be paid out.
use bitz_pool.Common.{
  ℕ, zero, suc, ◌+◌, ◌≤◌, ◌<◌, ◌≡◌, sym, Bool-cases, inl, inr, none, some, Option, Option-cases,
  List, [], ◌∷◌, ◌++◌, All, All-append, sum_of, length, subst, arith, bytes_eq,
}
use bitz_pool.Common.Map.{HashMap}
use bitz_pool.Common.Word.{u64_mod}
use bitz_pool.State.{
  Drillx, Proof, Solution, InternalMessageSubmission, EpochHashes, Server, min_diff,
}
use bitz_pool.Hashpower.Growth.{real_hashpower_pos}
use bitz_pool.Client.Sound.{Bounded, BestIsSound, EpochIsSound}
use bitz_pool.Rewards.{MineSuccess}
use bitz_pool.Rewards.Shares.{earned}
use bitz_pool.Submission.{newer}
use bitz_pool.Submission.Attempts.{Attempt}
use bitz_pool.Submission.Success.{MineEvent, mine_success_of, mine_success_of-conserves}
use bitz_pool.Schedule.Sound.{Reached-WorldIsSound}
use bitz_pool.Epochs.{
  writing, add_challenge, Driver, idle, is_there, closing, reading, trying, polling, checking,
  panicked, load_panics, Snapshot, Turn, try_sending, drive, System, outside, driven, driver_added,
  waited, waiting_added, Reached, started, moved,
}
use bitz_pool.Epochs.Refines.{Reached-refines}

-- A round with a submission, each worth its hashpower and no better than the solution that is sent.
pub record SnapshotIsSound (drillx : Drillx) (x : Snapshot) : Type 0 where
  pub entries : All (Bounded (drillx.difficulty x.best_solution)) x.submissions
  pub full : 0 < length x.submissions
  pub reaches : min_diff ≤ drillx.difficulty x.best_solution

snapshot_sound :
    (drillx : Drillx) (old : Proof) (best : Solution) (e : EpochHashes)
    → e.best_hash.solution ≡ some best
    → EpochIsSound drillx e
    → SnapshotIsSound drillx
        (record { old_proof = old; best_solution = best; submissions = e.submissions })
snapshot_sound drillx old best e there h =
    let b : BestIsSound drillx (some best) e.best_hash.difficulty e.submissions =
      subst (λ o. BestIsSound drillx o e.best_hash.difficulty e.submissions) there h.best in
    record {
      entries = subst (λ d. All (Bounded d) e.submissions) (sym b.0) h.entries;
      full = b.2;
      reaches = omega (arith, b);
    }

abbrev DriverIsSound : Drillx → Driver → Type 0
DriverIsSound drillx (trying x n) = SnapshotIsSound drillx x
DriverIsSound drillx (polling x n sig k) = SnapshotIsSound drillx x
DriverIsSound drillx _ = Unit

abbrev TurnIsSound : Drillx → Turn → Type 0
TurnIsSound drillx t = DriverIsSound drillx t.driver × All (λ p. SnapshotIsSound drillx p.1) t.paid

try_sending_sound :
    (drillx : Drillx) (handle : ℕ) (x : Snapshot) (n : ℕ) (a : Attempt) (s : Server)
    → SnapshotIsSound drillx x
    → TurnIsSound drillx (try_sending handle x n a s)
unfolding try_sending
try_sending_sound drillx handle x n a s h = ground arith

drive_sound :
    (drillx : Drillx) (now : ℕ) (a : Attempt) (rpc : Option Proof) (handle : ℕ) (d : Driver)
    (s : Server)
    → EpochIsSound drillx s.epoch_hashes
    → DriverIsSound drillx d
    → TurnIsSound drillx (drive drillx now a rpc handle d s)
unfolding drive
drive_sound drillx now a rpc handle idle s e h = ground arith
drive_sound drillx now a rpc handle (is_there old) s e h = ground arith
drive_sound drillx now a rpc handle (closing old) s e h = (tt, tt)
drive_sound drillx now a rpc handle (reading old) s e h =
    elim (Option-cases s.epoch_hashes.best_hash.solution) [
      | inl no_best ↦ rw no_best (tt, tt)
      | inr (best, there) ↦ rw there (snapshot_sound drillx old best s.epoch_hashes there e, tt)
    ]
drive_sound drillx now a rpc handle (trying x zero) s e h = (tt, tt)
drive_sound drillx now a rpc handle (trying x (suc n)) s e h = elim (Option-cases a.loaded) [
  | inl none_loaded ↦ rw none_loaded (try_sending_sound drillx handle x n a s h)
  | inr (q, l) ↦ elim (Bool-cases (drillx.is_valid x.best_solution q.0.challenge)) [
    | inl v ↦ rw (l, v) (try_sending_sound drillx handle x n a s h)
    | inr v ↦ rw (l, v) (tt, tt)
  ]
]
drive_sound drillx now a rpc handle (polling x n sig k) s e h = ground arith
drive_sound drillx now a rpc handle (Driver.comparing old) s e h = ground arith
drive_sound drillx now a none handle (Driver.get_proof old latest) s e h = (tt, tt)
drive_sound drillx now a (some p) handle (Driver.get_proof old latest) s e h =
    elim (Bool-cases (bytes_eq old.challenge p.challenge)) [
      | inl same ↦ rw (same, drive, newer) (tt, tt)
      | inr other ↦ rw (other, drive, newer) (tt, tt)
    ]
drive_sound drillx now a rpc handle (checking latest) s e h = ground arith
drive_sound drillx now a rpc handle panicked s e h = (tt, tt)
drive_sound drillx now a rpc handle (Driver.starting []) s e h = (tt, tt)
drive_sound drillx now a rpc handle (Driver.starting (writing w ∷ rest)) s e h = (tt, tt)
drive_sound drillx now a rpc handle (Driver.starting (add_challenge c ∷ rest)) s e h = (tt, tt)

record PaysSoundly (drillx : Drillx) (x : System) : Type 0 where
  driver : DriverIsSound drillx x.driver
  paid : All (λ p. SnapshotIsSound drillx p.1) x.paid

Reached-PaysSoundly :
    (drillx : Drillx) (pool_id : ℕ) (x : System) → Reached drillx pool_id x → PaysSoundly drillx x
Reached-PaysSoundly drillx pool_id x (started p t) = record { driver = tt; paid = tt }
Reached-PaysSoundly drillx pool_id x (moved y _ r (outside _ w st o)) =
    let h = Reached-PaysSoundly drillx pool_id y r in record { driver = h.driver; paid = h.paid }
Reached-PaysSoundly drillx pool_id x (moved y _ r (driven now a rpc _)) =
    let h = Reached-PaysSoundly drillx pool_id y r in
    let epoch = (Reached-WorldIsSound drillx y.world (Reached-refines drillx pool_id y r)).epoch in
    let t = drive drillx now a rpc (length y.waiting) y.driver y.world.server in
    let k =
      drive_sound drillx now a rpc (length y.waiting) y.driver y.world.server epoch h.driver in
    record {
      driver = k.0;
      paid = All-append (λ p. SnapshotIsSound drillx p.1) y.paid t.paid h.paid k.1;
    }
Reached-PaysSoundly drillx pool_id x (moved y _ r (load_panics snapshot n _ at)) =
    let h = Reached-PaysSoundly drillx pool_id y r in record { driver = tt; paid = h.paid }
Reached-PaysSoundly drillx pool_id x (moved y _ r (driver_added c rest links left t _ at ok)) =
    let h = Reached-PaysSoundly drillx pool_id y r in record { driver = tt; paid = h.paid }
Reached-PaysSoundly drillx pool_id x (moved y _ r (waited rpc before after w _ at)) =
    let h = Reached-PaysSoundly drillx pool_id y r in record { driver = h.driver; paid = h.paid }
Reached-PaysSoundly drillx pool_id x
      (moved y _ r (waiting_added c rest links left t before after _ at ok)) =
    let h = Reached-PaysSoundly drillx pool_id y r in record { driver = h.driver; paid = h.paid }

-- Submissions of least difficulty 12, up to 69, have some hashpower together.
some_hashpower :
    (best : ℕ) (m : HashMap InternalMessageSubmission)
    → 0 < length m
    → best < 70
    → All (Bounded best) m
    → 0 < sum_of (λ e. e.1.real_hashpower) m
some_hashpower best [] full low h = absurd (omega arith)
some_hashpower best ((uuid, sub) ∷ m) full low h = omega (
  arith,
  real_hashpower_pos sub.supplied_diff h.0.0.reaches (omega (arith, h.0.1)),
  h.0.0.uncapped,
)

All-at :
    (drillx : Drillx) (before after : List (ℕ × Snapshot)) (e : ℕ × Snapshot)
    → All (λ p. SnapshotIsSound drillx p.1) (before ++ (e ∷ after))
    → SnapshotIsSound drillx e.1
All-at drillx [] after e h = h.0
All-at drillx (b ∷ before) after e h = All-at drillx before after e h.1

-- Whatever the server does and in whatever order, a round that the loop hands on to be paid out has
-- a message, and what its submissions earn and the commission add up to at most what was mined, if
-- the solution that was sent has a difficulty below 70, and the hashpowers and the rewards fit in 64
-- bits.
pub Reached-conserves :
    (drillx : Drillx) (pool_id : ℕ) (x : System) (before after : List (ℕ × Snapshot)) (sig : ℕ)
    (snapshot : Snapshot) (event : MineEvent) (challenge_id : ℕ)
    → Reached drillx pool_id x
    → x.paid ≡ before ++ ((sig, snapshot) ∷ after)
    → drillx.difficulty snapshot.best_solution < 70
    → event.net_base_reward + event.net_miner_boost_reward < u64_mod
    → sum_of (λ e. e.1.hashpower) snapshot.submissions < u64_mod
    → sum_of (λ e. e.1.real_hashpower) snapshot.submissions < u64_mod
    → (msg : MineSuccess) × (mine_success_of drillx event snapshot.old_proof challenge_id
          snapshot.best_solution snapshot.submissions
        ≡ some msg)
      × (sum_of (λ e. earned msg e.1) msg.submissions + msg.commissions
          ≤ event.net_base_reward + event.net_miner_boost_reward)
Reached-conserves drillx pool_id x before after sig snapshot event challenge_id r at low fits hash
      real =
    let paid = (Reached-PaysSoundly drillx pool_id x r).paid in
    let h =
      All-at drillx before after (sig, snapshot)
        (subst (All (λ p. SnapshotIsSound drillx p.1)) at paid) in
    mine_success_of-conserves drillx event snapshot.old_proof challenge_id snapshot.best_solution
      snapshot.submissions fits hash real
      (some_hashpower (drillx.difficulty snapshot.best_solution) snapshot.submissions h.full low
        h.entries)
