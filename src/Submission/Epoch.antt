-- ===== src/Submission/Epoch.antt =====
-- Every write of the submission system leaves a sound epoch sound.
use bitz_pool.Common.{refl}
use bitz_pool.State.{Drillx, Server}
use bitz_pool.Client.Sound.{EpochIsSound}
use bitz_pool.Submission.{
  Write, close_window, open_window, set_proof, set_last_challenge, reset_nonce, reset_nonce_ranges,
  reset_epoch_hashes, discard_epoch_hashes, write,
}

pub write-EpochIsSound :
    (drillx : Drillx) (w : Write) (s : Server)
    → EpochIsSound drillx s.epoch_hashes
    → EpochIsSound drillx (write w s).epoch_hashes
unfolding write
write-EpochIsSound drillx close_window s h = h
write-EpochIsSound drillx open_window s h = h
write-EpochIsSound drillx (set_proof p) s h = h
write-EpochIsSound drillx (set_last_challenge c) s h = h
write-EpochIsSound drillx reset_nonce s h = h
write-EpochIsSound drillx reset_nonce_ranges s h = h
write-EpochIsSound drillx (reset_epoch_hashes c) s h = record { entries = tt; best = (refl, refl) }
write-EpochIsSound drillx discard_epoch_hashes s h = record { entries = tt; best = (refl, refl) }
