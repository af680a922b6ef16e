-- ===== src/Client/Sound.antt =====
-- What every stage of a solution's task keeps true of the epoch, whatever runs in between.
use bitz_pool.Common.{
  ℕ, ◌≤◌, ◌<◌, ◌≡◌, length, refl, Option, none, some, [], ◌∷◌, arith, All, ltb, inl, inr, sym,
  String, Bool-cases,
}
use bitz_pool.Common.Map.{HashMap, insert}
use bitz_pool.State.{min_diff, Solution, Drillx, InternalMessageSubmission, EpochHashes, Server}
use bitz_pool.Hashpower.{real_hashpower_of, hashpower_of}
use bitz_pool.Tasks.{
  Task, mark_ready, check_window, late, find_ranges, find_miner, check_proof, refuse, compare_old,
  record_new, announce, fetch_ranges, store_ranges, done,
}
use bitz_pool.Client.{
  submission_of, record_submission, send_text, late_text, invalid_text, solution_stage,
}

-- A submission reaches the least difficulty and has the hashpower of its difficulty.
pub record IsWorth (sub : InternalMessageSubmission) : Type 0 where
  pub reaches : min_diff ≤ sub.supplied_diff
  pub counted : sub.hashpower ≡ hashpower_of sub.supplied_diff
  pub uncapped : sub.real_hashpower ≡ real_hashpower_of sub.supplied_diff

-- The best hash of the epoch: none before the first submission, else a solution with the
-- difficulty that is recorded.
abbrev pub BestIsSound : Drillx → Option Solution → ℕ → HashMap InternalMessageSubmission → Type 0
BestIsSound drillx none difficulty submissions = (difficulty ≡ 0) × (submissions ≡ [])
BestIsSound drillx (some solution) difficulty submissions =
    (drillx.difficulty solution ≡ difficulty) × (min_diff ≤ difficulty) × (0 < length submissions)

abbrev pub Bounded : ℕ → ℕ × InternalMessageSubmission → Type 0
Bounded best e = IsWorth e.1 × (e.1.supplied_diff ≤ best)

pub record EpochIsSound (drillx : Drillx) (e : EpochHashes) : Type 0 where
  pub entries : All (Bounded e.best_hash.difficulty) e.submissions
  pub best : BestIsSound drillx e.best_hash.solution e.best_hash.difficulty e.submissions

-- The submission that a stage carries belongs to its solution.
abbrev pub TaskIsSound : Drillx → Task → Type 0
TaskIsSound drillx (compare_old uuid solution sub) =
    IsWorth sub × (sub.supplied_diff ≡ drillx.difficulty solution)
TaskIsSound drillx (record_new uuid solution sub) =
    IsWorth sub × (sub.supplied_diff ≡ drillx.difficulty solution)
TaskIsSound drillx _ = Unit

All-insert :
    (best k : ℕ) (v : InternalMessageSubmission) (m : HashMap InternalMessageSubmission)
    → IsWorth v
    → v.supplied_diff ≤ best
    → All (Bounded best) m
    → All (Bounded best) (insert k v m)
All-insert best k v [] w b h = ((w, b), tt)
All-insert best k v ((j, x) ∷ m) w b h = ground (arith, All-insert best k v m w b h.1)

All-raise :
    (a b : ℕ) (m : HashMap InternalMessageSubmission)
    → a ≤ b
    → All (Bounded a) m
    → All (Bounded b) m
All-raise a b [] le h = tt
All-raise a b (x ∷ m) le h = ((h.0.0, omega arith), All-raise a b m le h.1)

length-insert_pos :
    (k : ℕ) (v : InternalMessageSubmission) (m : HashMap InternalMessageSubmission)
    → 0 < length (insert k v m)
length-insert_pos k v [] = omega arith
length-insert_pos k v ((j, x) ∷ m) = ground arith

-- The best hash stays where the new submission is no better: there was one already.
BestIsSound-kept :
    (drillx : Drillx) (o : Option Solution) (d n : ℕ) (m m' : HashMap InternalMessageSubmission)
    → min_diff ≤ n
    → n ≤ d
    → 0 < length m'
    → BestIsSound drillx o d m
    → BestIsSound drillx o d m'
BestIsSound-kept drillx none d n m m' low le full h = absurd (omega (arith, h.0))
BestIsSound-kept drillx (some best) d n m m' low le full h = (h.0, h.1, full)

record_submission-EpochIsSound :
    (drillx : Drillx) (uuid : ℕ) (solution : Solution) (sub : InternalMessageSubmission)
    (e : EpochHashes)
    → IsWorth sub
    → sub.supplied_diff ≡ drillx.difficulty solution
    → EpochIsSound drillx e
    → EpochIsSound drillx (record_submission uuid solution sub e)
unfolding record_submission
record_submission-EpochIsSound drillx uuid solution sub e w same h =
    let old = e.best_hash.difficulty in
    let new = sub.supplied_diff in
    elim (Bool-cases (ltb old new)) [
      | inl better ↦ record {
        entries = rw better (
            All-insert new uuid sub e.submissions w (omega arith)
              (All-raise old new e.submissions (ground arith) h.entries));
        best = rw better (sym same, w.reaches, length-insert_pos uuid sub e.submissions);
      }
      | inr worse ↦ record {
        entries = rw worse (All-insert old uuid sub e.submissions w (ground arith) h.entries);
        best = rw worse (
            BestIsSound-kept drillx e.best_hash.solution old new e.submissions
              (insert uuid sub e.submissions) w.reaches (ground arith)
              (length-insert_pos uuid sub e.submissions) h.best);
      }
    ]

submission_of-IsWorth :
    (drillx : Drillx) (solution : Solution) (miner_id nonce : ℕ)
    → min_diff ≤ drillx.difficulty solution
    → IsWorth (submission_of drillx solution miner_id nonce)
      × ((submission_of drillx solution miner_id nonce).supplied_diff ≡ drillx.difficulty solution)
unfolding submission_of
submission_of-IsWorth drillx solution miner_id nonce h =
    (record { reaches = h; counted = refl; uncapped = refl }, refl)

send_text-epoch :
    (addr : ℕ) (msg : String) (s : Server) → (send_text addr msg s).epoch_hashes ≡ s.epoch_hashes
unfolding send_text
send_text-epoch addr msg s = ground arith

-- Each stage of the task that judges a solution leaves a sound epoch sound, and hands a sound
-- submission to the next stage, whatever the other tasks did to the state before it.
pub solution_stage-EpochIsSound :
    (drillx : Drillx) (t : Task) (s : Server)
    → TaskIsSound drillx t
    → EpochIsSound drillx s.epoch_hashes
    → let (s', t') = solution_stage drillx t s in
      EpochIsSound drillx s'.epoch_hashes × TaskIsSound drillx t'
unfolding solution_stage
solution_stage-EpochIsSound drillx (check_window addr solution uuid) s k h = (h, ground arith)
solution_stage-EpochIsSound drillx (late addr) s k h = (rw (send_text-epoch addr late_text s) h, tt)
solution_stage-EpochIsSound drillx (find_ranges addr solution uuid) s k h = (h, ground arith)
solution_stage-EpochIsSound drillx (find_miner addr solution uuid nonce) s k h = (h, ground arith)
solution_stage-EpochIsSound drillx (check_proof addr solution uuid nonce miner_id) s k h =
    (h, ground (arith, submission_of-IsWorth drillx solution miner_id nonce))
solution_stage-EpochIsSound drillx (refuse addr) s k h =
    (rw (send_text-epoch addr invalid_text s) h, tt)
solution_stage-EpochIsSound drillx (compare_old uuid solution sub) s k h = (h, ground arith)
solution_stage-EpochIsSound drillx (record_new uuid solution sub) s k h =
    (record_submission-EpochIsSound drillx uuid solution sub s.epoch_hashes k.0 k.1 h, tt)
solution_stage-EpochIsSound drillx (mark_ready addr) s k h = (h, tt)
solution_stage-EpochIsSound drillx (announce addr msg uuid r) s k h = (h, tt)
solution_stage-EpochIsSound drillx (fetch_ranges uuid r) s k h = (h, tt)
solution_stage-EpochIsSound drillx (store_ranges uuid rs) s k h = (h, tt)
solution_stage-EpochIsSound drillx done s k h = (h, tt)
