-- ===== src/Proofs.antt =====
-- src/bitz_utils.rs and src/systems/proof_tracking_system.rs: the time that is left for a proof,
-- and the proof updates of the websocket.
pub mod Exact
use bitz_pool.Common.{ℕ, ◌-◌, ltb, List, bytes_eq, if◌then◌else◌, Option, none, some}
use bitz_pool.Common.Word.{u64_mod}
use bitz_pool.Common.Int.{ℤ, pos, negsuc, saturating_add, saturating_sub}
use bitz_pool.State.{Proof, Server}

-- `now` is the time of the call, in seconds.
unfoldable pub get_cutoff : Proof → ℕ → ℕ → ℤ
get_cutoff proof buffer_time now =
    saturating_sub (saturating_sub (saturating_add proof.last_hash_at (pos 60)) (pos buffer_time))
      (pos now)

-- A notification of the subscription: `none` where the account does not decode to a proof.
-- Under the lock of the last challenge it is decided whether there is a proof to store; `store_proof`
-- stores it, under the lock of the proof.
unfoldable pub track_proof : Option Proof → Server → Option Proof
track_proof none s = none
track_proof (some new_proof) s =
    if bytes_eq s.last_challenge new_proof.challenge then none else some new_proof

unfoldable pub store_proof : Proof → Server → Server
store_proof new_proof s = record s { proof = new_proof }
