-- ===== src/Ready/Spawned.antt =====
-- The round of the ready clients leaves the epoch alone.
use bitz_pool.Common.{ℕ, ◌≡◌, refl, List, [], ◌∷◌, ◌++◌, All}
use bitz_pool.State.{Drillx, Server}
use bitz_pool.Tasks.{
  Task, mark_ready, check_window, late, find_ranges, find_miner, check_proof, refuse, compare_old,
  record_new, announce, fetch_ranges, store_ranges, done,
}
use bitz_pool.Client.Sound.{TaskIsSound}
use bitz_pool.Ready.{announce_stage}
use bitz_pool.Ready.Stages.{
  Round, resting, listing, reading_proof, reading_best, reading_window, reading_challenge, serving,
  taking_nonce, unlisting, round_stage,
}

pub All-append :
    (drillx : Drillx) (xs ys : List Task)
    → All (TaskIsSound drillx) xs
    → All (TaskIsSound drillx) ys
    → All (TaskIsSound drillx) (xs ++ ys)
All-append drillx [] ys h k = k
All-append drillx (x ∷ xs) ys h k = (h.0, All-append drillx xs ys h.1 k)

pub round_stage-IsQuiet :
    (drillx : Drillx) (now : ℕ) (r : Round) (s : Server)
    → ((round_stage now r s).server.epoch_hashes ≡ s.epoch_hashes)
      × All (TaskIsSound drillx) (round_stage now r s).spawned
unfolding round_stage
round_stage-IsQuiet drillx now resting s = (refl, tt)
round_stage-IsQuiet drillx now listing s = (refl, tt)
round_stage-IsQuiet drillx now (reading_proof clients) s = (refl, tt)
round_stage-IsQuiet drillx now (reading_best clients) s = (refl, tt)
round_stage-IsQuiet drillx now (reading_window should_mine cutoff clients) s = (refl, tt)
round_stage-IsQuiet drillx now (reading_challenge cutoff clients) s = (refl, tt)
round_stage-IsQuiet drillx now (serving challenge cutoff []) s = (refl, tt)
round_stage-IsQuiet drillx now (serving challenge cutoff (client ∷ clients)) s = (refl, tt)
round_stage-IsQuiet drillx now (taking_nonce challenge cutoff client uuid clients) s =
    (refl, (tt, tt))
round_stage-IsQuiet drillx now (unlisting challenge cutoff client clients) s = (refl, tt)

pub announce_stage_sound :
    (drillx : Drillx) (t : Task) (s : Server)
    → TaskIsSound drillx t
    → ((announce_stage t s).0.epoch_hashes ≡ s.epoch_hashes)
      × TaskIsSound drillx (announce_stage t s).1
unfolding announce_stage
announce_stage_sound drillx (mark_ready addr) s h = (refl, h)
announce_stage_sound drillx (check_window addr solution uuid) s h = (refl, h)
announce_stage_sound drillx (late addr) s h = (refl, h)
announce_stage_sound drillx (find_ranges addr solution uuid) s h = (refl, h)
announce_stage_sound drillx (find_miner addr solution uuid nonce) s h = (refl, h)
announce_stage_sound drillx (check_proof addr solution uuid nonce miner_id) s h = (refl, h)
announce_stage_sound drillx (refuse addr) s h = (refl, h)
announce_stage_sound drillx (compare_old uuid solution sub) s h = (refl, h)
announce_stage_sound drillx (record_new uuid solution sub) s h = (refl, h)
announce_stage_sound drillx (announce addr msg uuid r) s h = (refl, tt)
announce_stage_sound drillx (fetch_ranges uuid r) s h = (refl, tt)
announce_stage_sound drillx (store_ranges uuid rs) s h = (refl, tt)
announce_stage_sound drillx done s h = (refl, h)
