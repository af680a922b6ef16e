-- ===== src/Submission.antt =====
-- src/systems/pool_submission_system.rs: the end of an epoch. The writes of the system to the shared
-- state are stages, one for each lock that it takes; the attempts and the new challenge are in the
-- child modules.
pub mod Attempts
pub mod Challenges
pub mod Success
pub mod Fresh
pub mod Epoch
pub mod Logs
mod Tests
use bitz_pool.Common.{
  ℕ, Bool, true, false, Option, none, some, List, [], ◌∷◌, bytes_eq, if◌then◌else◌,
}
use bitz_pool.Common.Int.{ℤ, pos, leb_ℤ}
use bitz_pool.State.{Solution, Proof, EpochHashes, BestHash, InternalMessageSubmission, Server}
use bitz_pool.Proofs.{get_cutoff}

-- One write under one lock.
pub data Write : Type 0 where
  close_window : Write
  open_window : Write
  set_proof : Proof → Write
  set_last_challenge : List ℕ → Write
  reset_nonce : Write
  reset_nonce_ranges : Write
  reset_epoch_hashes : List ℕ → Write
  -- The same after a failed submission, which leaves the challenge.
  discard_epoch_hashes : Write

-- No best hash and no submissions.
abbrev emptied : EpochHashes → EpochHashes
emptied e = record e { best_hash = record { solution = none; difficulty = 0 }; submissions = [] }

unfoldable pub write : Write → Server → Server
write close_window s = record s { window_closed = true }
write open_window s = record s { window_closed = false }
write (set_proof p) s = record s { proof = p }
write (set_last_challenge c) s = record s { last_challenge = c }
write reset_nonce s = record s { nonce = 0 }
write reset_nonce_ranges s = record s { client_nonce_ranges = [] }
write (reset_epoch_hashes c) s = record s {
  epoch_hashes = record (emptied s.epoch_hashes) { challenge = c };
}
write discard_epoch_hashes s = record s { epoch_hashes = emptied s.epoch_hashes }

-- Writes in a row, with nothing in between.
unfoldable pub writes : List Write → Server → Server
unfolding write
writes [] s = s
writes (w ∷ ws) s = writes ws (write w s)

-- The new epoch for a challenge.
abbrev pub new_epoch : List ℕ → List Write
new_epoch challenge =
    reset_nonce ∷ reset_nonce_ranges ∷ reset_epoch_hashes challenge ∷ open_window ∷ []

-- What a turn of a loop that waits for a new proof decides: the writes, and the challenge that it
-- puts into the database. `none` is another turn.
pub record NewEpoch : Type 0 where
  pub stages : List Write
  pub db_challenge : List ℕ

-- `if let Ok(p) = get_proof(..)` with another challenge than the old proof's.
abbrev pub newer : Proof → Option Proof → Option Proof
newer old none = none
newer old (some p) = if bytes_eq old.challenge p.challenge then none else some p

-- The task that waits while the transaction is not final: the proof of the websocket first, then
-- the one of the RPC.
pub waiting_turn : Proof → Proof → Option Proof → Option NewEpoch
waiting_turn old latest rpc =
    if bytes_eq old.challenge latest.challenge
    then (elim (newer old rpc) [
      | none ↦ none
      | some p ↦ some (record {
        stages = set_proof p ∷ set_last_challenge old.challenge ∷ new_epoch p.challenge;
        db_challenge = p.challenge;
      })
    ])
    else some (record {
      stages = set_last_challenge old.challenge ∷ new_epoch latest.challenge;
      db_challenge = latest.challenge;
    })

-- The loop after the transaction is final: nothing is left to do if the epoch is the proof's
-- already. A proof from the RPC starts its epoch, but it is the old challenge that goes into the
-- database.
pub final_turn : Proof → Proof → List ℕ → Option Proof → Option NewEpoch
final_turn old latest epoch_challenge rpc =
    if bytes_eq old.challenge latest.challenge
    then (elim (newer old rpc) [
      | none ↦ none
      | some p ↦
          some (record {
            stages = set_proof p ∷ new_epoch p.challenge;
            db_challenge = latest.challenge;
          })
    ])
    else if bytes_eq latest.challenge epoch_challenge
    then some (record { stages = []; db_challenge = latest.challenge })
    else some (record { stages = new_epoch latest.challenge; db_challenge = latest.challenge })

-- `if !success`
abbrev pub failed_stages : List Write
failed_stages = reset_nonce ∷ reset_nonce_ranges ∷ discard_epoch_hashes ∷ open_window ∷ []

-- Whether the epoch is over and has a solution to send.
pub is_due : ℕ → Server → Bool
is_due now s =
    if leb_ℤ (get_cutoff s.proof 1 now) (pos 0)
    then (elim s.epoch_hashes.best_hash.solution [ none ↦ false | some _ ↦ true ])
    else false
