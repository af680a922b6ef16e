-- ===== src/Common/Word.antt =====
-- Machine words: `u64` with the wrap of a release build, the saturating `u128` operations, and
-- `to_le_bytes` / `from_le_bytes`.
use Prim.Native.Nat.{ℕ, zero, suc, ◌+◌, ◌-◌, ◌*◌, ◌/◌, ◌%◌, ◌<◌, min}
use mathlib.Core.Path.{◌≡◌, refl}
use mathlib.Core.List.{List, [], ◌∷◌}
use native.Mathlib.Omega.{arith}
use bitz_pool.Common.Lists.{length, All}

abbrev pub u64_mod : ℕ
u64_mod = 18446744073709551616

abbrev pub u128_max : ℕ
u128_max = 340282366920938463463374607431768211455

-- `a + b`, `a * b`, `a - b` on `u64` without overflow checks.
abbrev pub add_u64 : ℕ → ℕ → ℕ
add_u64 a b = (a + b) % u64_mod

abbrev pub mul_u64 : ℕ → ℕ → ℕ
mul_u64 a b = (a * b) % u64_mod

abbrev pub sub_u64 : ℕ → ℕ → ℕ
sub_u64 a b = (a + u64_mod - b) % u64_mod

-- `u128::saturating_mul`
abbrev pub saturating_mul : ℕ → ℕ → ℕ
saturating_mul a b = min (a * b) u128_max

-- `to_le_bytes` of a number of w bytes
unfoldable pub to_le_bytes : ℕ → ℕ → List ℕ
to_le_bytes zero n = []
to_le_bytes (suc w) n = (n % 256) ∷ to_le_bytes w (n / 256)

unfoldable pub from_le_bytes : List ℕ → ℕ
from_le_bytes [] = 0
from_le_bytes (b ∷ bs) = b + 256 * from_le_bytes bs

pub length-to_le_bytes : (w n : ℕ) → length (to_le_bytes w n) ≡ w
unfolding to_le_bytes
length-to_le_bytes zero n = refl
length-to_le_bytes (suc w) n = omega (arith, length-to_le_bytes w (n / 256))

abbrev pub pow256 : ℕ → ℕ
pow256 zero = 1
pow256 (suc w) = 256 * pow256 w

pub from_le_bytes-to_le_bytes : (w n : ℕ) → n < pow256 w → from_le_bytes (to_le_bytes w n) ≡ n
unfolding to_le_bytes from_le_bytes
from_le_bytes-to_le_bytes zero n h = omega arith
from_le_bytes-to_le_bytes (suc w) n h =
    omega (arith, from_le_bytes-to_le_bytes w (n / 256) (omega arith))

-- A byte string as long as the word gives a value of that word.
pub from_le_bytes-lt : (bs : List ℕ) → All (λ b. b < 256) bs → from_le_bytes bs < pow256 (length bs)
unfolding from_le_bytes
from_le_bytes-lt [] h = omega arith
from_le_bytes-lt (b ∷ bs) h = omega (arith, from_le_bytes-lt bs h.1)
