-- ===== src/Rewards/Shares.antt =====
-- The shares of a round: their sum beside the rewards, and the share of one submission.
use native.Mathlib.Nat.{div-add-mod', mul-le-mul_right}
use bitz_pool.Common.{
  ℕ, ◌+◌, ◌*◌, ◌/◌, ◌%◌, ◌≤◌, ◌<◌, ◌≡◌, refl, none, some, [], ◌∷◌, arith, sum_of,
}
use bitz_pool.Common.Map.{HashMap}
use bitz_pool.Common.Word.{u64_mod, add_u64, saturating_mul}
use bitz_pool.State.{InternalMessageSubmission}
use bitz_pool.Rewards.{
  commissions_of, total_hashpowers, MineSuccess, total_rewards_of, earned_rewards_of,
}

div-mul-le : (a b : ℕ) → a / b * b ≤ a
div-mul-le a b = omega (arith, div-add-mod' a b)

le_of_mul : (a b c : ℕ) → 0 < c → a * c ≤ b * c → a ≤ b
le_of_mul a b c h k = grind arith

-- The commission and the rest make up the rewards, and the commission is a twentieth, rounded
-- down, wherever five times the rewards fit in 64 bits; where they do not, it is less.
pub commissions_split :
    (full : ℕ)
    → (commissions_of full * 20 ≤ full) × (full * 5 < u64_mod → commissions_of full ≡ full / 20)
unfolding commissions_of
commissions_split full = (omega arith, λ h. omega arith)

-- What a submission gets: nothing where the code panics.
abbrev pub earned : MineSuccess → InternalMessageSubmission → ℕ
earned msg sub = elim (earned_rewards_of msg sub) [ none ↦ 0 | some e ↦ e ]

abbrev percent : MineSuccess → InternalMessageSubmission → ℕ
percent msg sub = saturating_mul sub.real_hashpower 1000000 / msg.total_real_hashpower

abbrev share : MineSuccess → InternalMessageSubmission → ℕ
share msg sub = saturating_mul (percent msg sub) (total_rewards_of msg) / 1000000 % u64_mod

earned-le-share :
    (msg : MineSuccess) (sub : InternalMessageSubmission) → earned msg sub ≤ share msg sub
unfolding earned_rewards_of
earned-le-share msg sub = ground arith

share-le :
    (msg : MineSuccess) (sub : InternalMessageSubmission)
    → share msg sub * 1000000 ≤ percent msg sub * total_rewards_of msg
share-le msg sub = omega arith

percent-le :
    (msg : MineSuccess) (sub : InternalMessageSubmission)
    → percent msg sub * msg.total_real_hashpower ≤ sub.real_hashpower * 1000000
percent-le msg sub =
    omega (arith, div-mul-le (saturating_mul sub.real_hashpower 1000000) msg.total_real_hashpower)

module _ (msg : MineSuccess) where
  abbrev of_all : (InternalMessageSubmission → ℕ) → HashMap InternalMessageSubmission → ℕ
  of_all f = sum_of (λ e. f e.1)

  percents-le :
      (m : HashMap InternalMessageSubmission)
      → of_all (percent msg) m * msg.total_real_hashpower
        ≤ of_all (λ sub. sub.real_hashpower) m * 1000000
  percents-le [] = omega arith
  percents-le ((uuid, sub) ∷ m) = omega (arith, percent-le msg sub, percents-le m)

  earned_all-le :
      (m : HashMap InternalMessageSubmission)
      → of_all (earned msg) m * 1000000 ≤ of_all (percent msg) m * total_rewards_of msg
  earned_all-le [] = omega arith
  earned_all-le ((uuid, sub) ∷ m) =
      omega (arith, earned-le-share msg sub, share-le msg sub, earned_all-le m)

-- However the real hashpower of a round is spread over its submissions, they earn together at
-- most the rewards that are left after the commission.
pub earned-le-rewards :
    (msg : MineSuccess)
    → 0 < msg.total_real_hashpower
    → sum_of (λ e. e.1.real_hashpower) msg.submissions ≡ msg.total_real_hashpower
    → sum_of (λ e. earned msg e.1) msg.submissions ≤ total_rewards_of msg
earned-le-rewards msg pos_total total =
    let all = msg.submissions in
    let t = msg.total_real_hashpower in
    let bounded : of_all msg (percent msg) all * t ≤ 1000000 * t =
      omega (arith, percents-le msg all, total) in
    let whole : of_all msg (percent msg) all ≤ 1000000 =
      le_of_mul (of_all msg (percent msg) all) 1000000 t pos_total bounded in
    le_of_mul (of_all msg (earned msg) all) (total_rewards_of msg) 1000000 (omega arith) (
      omega (
        arith,
        earned_all-le msg all,
        mul-le-mul_right {m = of_all msg (percent msg) all} {n = 1000000} (total_rewards_of msg)
            whole,
      ))

-- The message of a round: what the commission leaves is what is split.
pub rewards_conserved :
    (msg : MineSuccess)
    → msg.rewards < u64_mod
    → msg.commissions ≡ commissions_of msg.rewards
    → 0 < msg.total_real_hashpower
    → sum_of (λ e. e.1.real_hashpower) msg.submissions ≡ msg.total_real_hashpower
    → sum_of (λ e. earned msg e.1) msg.submissions + msg.commissions ≤ msg.rewards
unfolding total_rewards_of
rewards_conserved msg small c pos_total total =
    omega (arith, earned-le-rewards msg pos_total total, (commissions_split msg.rewards).0)

-- Without overflow the loop over the submissions computes the two sums.
total_hashpowers_from :
    (m : HashMap InternalMessageSubmission) (a b : ℕ)
    → a + sum_of (λ e. e.1.hashpower) m < u64_mod
    → b + sum_of (λ e. e.1.real_hashpower) m < u64_mod
    → total_hashpowers m (a, b)
      ≡ (a + sum_of (λ e. e.1.hashpower) m, b + sum_of (λ e. e.1.real_hashpower) m)
unfolding total_hashpowers
total_hashpowers_from [] a b h k = grind arith
total_hashpowers_from ((uuid, sub) ∷ m) a b h k =
    let rest =
      total_hashpowers_from m (add_u64 a sub.hashpower) (add_u64 b sub.real_hashpower) (omega arith)
        (omega arith) in
    grind (arith, rest)

total_rewards-lt : (msg : MineSuccess) → total_rewards_of msg < u64_mod
unfolding total_rewards_of
total_rewards-lt msg = omega arith

small_product :
    (p r : ℕ) → p ≤ 1000000 → r < u64_mod → saturating_mul p r / 1000000 % u64_mod ≡ p * r / 1000000
small_product p r hp hr = omega (arith, mul-le-mul_right {m = p} {n = 1000000} r hp)

-- Where nothing overflows and the real hashpowers are those of the round, no division is by zero
-- and nothing saturates: a submission gets the floor of its millionths, of the rewards.
pub earned_exact :
    (msg : MineSuccess) (sub : InternalMessageSubmission)
    → 0 < msg.total_hashpower
    → 0 < sub.real_hashpower
    → sub.hashpower < u64_mod
    → sub.real_hashpower ≤ msg.total_real_hashpower
    → msg.total_real_hashpower < u64_mod
    → earned_rewards_of msg sub
      ≡ some
          (sub.real_hashpower * 1000000 / msg.total_real_hashpower * total_rewards_of msg / 1000000)
unfolding earned_rewards_of
earned_exact msg sub hash real fits part whole =
    let t = msg.total_real_hashpower in
    let le : sub.real_hashpower * 1000000 / t ≤ 1000000 =
      le_of_mul (sub.real_hashpower * 1000000 / t) 1000000 t (omega arith)
        (omega (arith, div-mul-le (sub.real_hashpower * 1000000) t)) in
    let some_quotient : earned_rewards_of msg sub ≡ some (share msg sub) = ground arith in
    let no_cap : percent msg sub ≡ sub.real_hashpower * 1000000 / t = ground arith in
    let exact : share msg sub ≡ sub.real_hashpower * 1000000 / t * total_rewards_of msg / 1000000 =
      rw no_cap (
        small_product (sub.real_hashpower * 1000000 / t) (total_rewards_of msg) le
          (total_rewards-lt msg)) in
    rw (some_quotient, exact) refl

-- The totals of a round are the sums of its hashpowers, where these stay below 2^64.
pub total_hashpowers_exact :
    (m : HashMap InternalMessageSubmission)
    → sum_of (λ e. e.1.hashpower) m < u64_mod
    → sum_of (λ e. e.1.real_hashpower) m < u64_mod
    → total_hashpowers m (0, 0)
      ≡ (sum_of (λ e. e.1.hashpower) m, sum_of (λ e. e.1.real_hashpower) m)
total_hashpowers_exact m h k =
    let e = total_hashpowers_from m 0 0 (omega arith) (omega arith) in grind (arith, e)
