-- ===== src/Common/Int.antt =====
-- `i64`: integers, and the saturating operations.
use Prim.Native.Nat.{ℕ, suc, ◌+◌, ◌-◌, ◌<◌}
use mathlib.Core.Path.{◌≡◌}
use mathlib.Core.Bool.{Bool}
use native.Mathlib.Omega.{arith}
use bitz_pool.Common.Tests.{leb, if◌then◌else◌}

-- `negsuc n` is -(n + 1).
pub data ℤ : Type 0 where
  pos : ℕ → ℤ
  negsuc : ℕ → ℤ

abbrev pub pos_part : ℤ → ℕ
pos_part (pos n) = n
pos_part (negsuc n) = 0

abbrev pub neg_part : ℤ → ℕ
neg_part (pos n) = 0
neg_part (negsuc n) = suc n

abbrev pub sub_ℕ : ℕ → ℕ → ℤ
sub_ℕ a b = if leb b a then pos (a - b) else negsuc (b - a - 1)

abbrev pub leb_ℤ : ℤ → ℤ → Bool
leb_ℤ a b = leb (pos_part a + neg_part b) (pos_part b + neg_part a)

abbrev pub ltb_ℤ : ℤ → ℤ → Bool
ltb_ℤ a b = leb (suc (pos_part a + neg_part b)) (pos_part b + neg_part a)

abbrev pub i64_bound : ℕ
i64_bound = 9223372036854775808

-- the value that an `i64` holds where the exact result is p - n
abbrev pub clamp_i64 : ℕ → ℕ → ℤ
clamp_i64 p n =
    if leb (i64_bound + n) p
    then pos (i64_bound - 1)
    else if leb (i64_bound + p) n
    then negsuc (i64_bound - 1)
    else sub_ℕ p n

-- `i64::saturating_add`
unfoldable pub saturating_add : ℤ → ℤ → ℤ
saturating_add a b = clamp_i64 (pos_part a + pos_part b) (neg_part a + neg_part b)

-- `i64::saturating_sub`
unfoldable pub saturating_sub : ℤ → ℤ → ℤ
saturating_sub a b = clamp_i64 (pos_part a + neg_part b) (neg_part a + pos_part b)

-- Within the range the operations are exact.
pub saturating_add_exact :
    (a b : ℕ) → a + b < i64_bound → saturating_add (pos a) (pos b) ≡ pos (a + b)
unfolding saturating_add
saturating_add_exact a b h = ground arith

pub saturating_sub_exact :
    (a b c : ℕ)
    → a < i64_bound
    → b + c < i64_bound
    → saturating_sub (sub_ℕ a b) (pos c) ≡ sub_ℕ a (b + c)
unfolding saturating_sub
saturating_sub_exact a b c h k = ground arith

pub sub_ℕ-zero : (a : ℕ) → sub_ℕ a 0 ≡ pos a
sub_ℕ-zero a = ground arith
