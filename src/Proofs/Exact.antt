-- ===== src/Proofs/Exact.antt =====
-- The cutoff of src/bitz_utils.rs for times that are far from the ends of the 64-bit range.
use native.Mathlib.Nat.{zero-add}
use bitz_pool.Common.{ℕ, ◌+◌, ◌<◌, ◌≡◌, arith}
use bitz_pool.Common.Int.{pos, sub_ℕ, saturating_add_exact, saturating_sub_exact, sub_ℕ-zero}
use bitz_pool.State.{Proof}
use bitz_pool.Proofs.{get_cutoff}

-- With times below 2^62 nothing saturates: the cutoff is last + 60 - buffer - now.
pub get_cutoff_exact :
    (p : Proof) (last buffer now : ℕ)
    → p.last_hash_at ≡ pos last
    → last < 4611686018427387904
    → buffer < 4611686018427387904
    → now < 4611686018427387904
    → get_cutoff p buffer now ≡ sub_ℕ (last + 60) (buffer + now)
unfolding get_cutoff
get_cutoff_exact p last buffer now e a b c = rw (
  e,
  saturating_add_exact last 60 (omega arith),
  ← sub_ℕ-zero (last + 60),
  saturating_sub_exact (last + 60) 0 buffer (omega arith) (omega arith),
  zero-add buffer,
  saturating_sub_exact (last + 60) buffer now (omega arith) (omega arith),
)
