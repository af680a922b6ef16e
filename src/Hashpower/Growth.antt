-- ===== src/Hashpower/Growth.antt =====
-- How the weight grows with the difficulty, and where 64 bits end.
use Prim.Native.Nat.{min}
use native.Mathlib.Nat.{pow-le-pow_right}
use bitz_pool.Common.{
  ℕ, zero, suc, ◌+◌, ◌-◌, ◌*◌, ◌^◌, ◌≤◌, ◌<◌, ◌≡◌, refl, Bool, true, false, if◌then◌else◌, subst,
  arith, ltb, ltb→lt, ◌==◌, ==_iff, Bool-cases, inl, inr, ◌↔◌,
}
use bitz_pool.Common.Word.{u64_mod}
use bitz_pool.Hashpower.{real_hashpower_of, hashpower_of}

-- Whether a test succeeds on a run of numbers.
passes_from : (ℕ → Bool) → ℕ → ℕ → Bool
passes_from test start zero = true
passes_from test start (suc len) = if test start then passes_from test (suc start) len else false

passes_at :
    (test : ℕ → Bool) (len start k : ℕ)
    → passes_from test start len ≡ true
    → k < len
    → test (start + k) ≡ true
unfolding passes_from
passes_at test zero start k h less = absurd (omega arith)
passes_at test (suc len) start zero h less =
    let same : start + 0 ≡ start = omega arith in rw same (ground arith)
passes_at test (suc len) start (suc k) h less =
    let same : start + suc k ≡ suc start + k = omega arith in
    rw same (passes_at test len (suc start) k (ground arith) (omega arith))

read_table : (test : ℕ → Bool) (len k : ℕ) → passes_from test 0 len ≡ true → k < len → test k ≡ true
read_table test len k h less =
    let same : 0 + k ≡ k = omega arith in
    subst (λ n. test n ≡ true) same (passes_at test len 0 k h less)

fits_table : passes_from (λ k. ltb (80 * 2 ^ k) u64_mod) 0 58 ≡ true
unfolding passes_from
fits_table = refl

fits : (k : ℕ) → k < 58 → 80 * 2 ^ k < u64_mod
fits k h = ltb→lt _ _ (read_table (λ j. ltb (80 * 2 ^ j) u64_mod) 58 k fits_table h)

real_hashpower_plus : (k : ℕ) → k < 58 → real_hashpower_of (12 + k) ≡ 80 * 2 ^ k
unfolding real_hashpower_of
real_hashpower_plus k h = let e : 12 + k - 12 ≡ k = omega arith in rw e (omega (arith, fits k h))

capped_table : passes_from (λ k. hashpower_of (12 + k) == 80 * 2 ^ min k 12) 0 58 ≡ true
unfolding passes_from hashpower_of
capped_table = refl

-- From difficulty 12 to 69 the real hashpower is 80, doubled for each step above 12, and the
-- hashpower that is counted is the same up to difficulty 24 and stays there.
hashpower_exact :
    (k : ℕ)
    → k < 58
    → (real_hashpower_of (12 + k) ≡ 80 * 2 ^ k) × (hashpower_of (12 + k) ≡ 80 * 2 ^ min k 12)
hashpower_exact k h = (
  real_hashpower_plus k h,
  (==_iff _ _).0 (read_table (λ j. hashpower_of (12 + j) == 80 * 2 ^ min j 12) 58 k capped_table h),
)

real_hashpower_at : (d : ℕ) → 12 ≤ d → d < 70 → real_hashpower_of d ≡ 80 * 2 ^ (d - 12)
real_hashpower_at d low high =
    let e : 12 + (d - 12) ≡ d = omega arith in rw e at (real_hashpower_plus (d - 12) (omega arith))

-- Every submission that is worth recording has some hashpower, up to difficulty 69.
pub real_hashpower_pos : (d : ℕ) → 12 ≤ d → d < 70 → 80 ≤ real_hashpower_of d
real_hashpower_pos d low high = omega (
  arith,
  real_hashpower_at d low high,
  pow-le-pow_right {n = 2} (omega arith) {i = 0} {j = d - 12} (omega arith),
)

capped_at : (d : ℕ) → 12 ≤ d → d < 70 → hashpower_of d ≡ 80 * 2 ^ min (d - 12) 12
capped_at d low high =
    let e : 12 + (d - 12) ≡ d = omega arith in rw e at ((hashpower_exact (d - 12) (omega arith)).1)

wrapped_table : passes_from (λ j. real_hashpower_of (72 + j) == 0) 0 185 ≡ true
unfolding passes_from real_hashpower_of
wrapped_table = refl

wrapped_at : (d : ℕ) → 72 ≤ d → d ≤ 256 → real_hashpower_of d ≡ 0
wrapped_at d low high =
    let e : 72 + (d - 72) ≡ d = omega arith in
    rw (← e) (
      (==_iff _ 0).0 (
        read_table (λ j. real_hashpower_of (72 + j) == 0) 185 (d - 72) wrapped_table (omega arith)))

above_zero_table : passes_from (λ j. ltb 0 (real_hashpower_of (70 + j))) 0 2 ≡ true
unfolding passes_from real_hashpower_of
above_zero_table = refl

above_zero : (d : ℕ) → 12 ≤ d → d < 72 → 0 < real_hashpower_of d
above_zero d low high = elim (Bool-cases (ltb d 70)) [
  | inl exact ↦ omega (arith, real_hashpower_pos d low (ltb→lt d 70 exact))
  | inr wraps ↦
      let least : 70 ≤ d = ground arith in
      let e : 70 + (d - 70) ≡ d = omega arith in
      rw e at (
        ltb→lt 0 (real_hashpower_of (70 + (d - 70))) (
          read_table (λ j. ltb 0 (real_hashpower_of (70 + j))) 2 (d - 70) above_zero_table
            (omega arith)))
]

-- From difficulty 12 to 69 the real hashpower is 80, doubled for each step above 12, and the
-- hashpower that is counted is the same with at most twelve steps; from there to the greatest
-- difficulty, 256, where the doubling no longer fits in 64 bits, the real hashpower has wrapped to
-- zero exactly from 72 on.
pub real_hashpower_wraps :
    (d : ℕ)
    → 12 ≤ d
    → d ≤ 256
    → (d < 70
        → (real_hashpower_of d ≡ 80 * 2 ^ (d - 12)) × (hashpower_of d ≡ 80 * 2 ^ min (d - 12) 12))
      × (real_hashpower_of d ≡ 0 ↔ 72 ≤ d)
real_hashpower_wraps d low high = (
  λ fits_yet. (real_hashpower_at d low fits_yet, capped_at d low fits_yet),
  (
    λ zero_yet. elim (Bool-cases (ltb d 72)) [
      | inl below ↦ absurd (omega (arith, zero_yet, above_zero d low (ltb→lt d 72 below)))
      | inr above ↦ ground arith
    ],
    λ least. wrapped_at d least high,
  ),
)
