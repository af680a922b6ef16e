-- ===== src/Rewards/Paid.antt =====
-- What the rows of a round pay out in all.
use native.Mathlib.Nat.{mul-le-mul_right}
use bitz_pool.Common.{
  ℕ, suc, ◌+◌, ◌*◌, ◌≤◌, ◌<◌, ◌≡◌, ◌≢◌, refl, ap, Option-cases, Bool, true, none, some, [], ◌∷◌,
  ◌==◌, arith, sum_of, sum_of-append, if◌then◌else◌, All, Bool-cases, inl, inr,
}
use bitz_pool.Common.Map.{HashMap}
use bitz_pool.State.{InternalMessageSubmission, AppClientConnection}
use bitz_pool.Rewards.{
  MineSuccess, total_rewards_of, earned_rewards_of, Rows, push_row, push_rows, submission_rows,
  no_rows,
}
use bitz_pool.Rewards.Shares.{earned, earned-le-rewards}

-- How many sockets a connection uuid has.
unfoldable pub sockets_of : ℕ → HashMap AppClientConnection → ℕ
sockets_of uuid [] = 0
sockets_of uuid ((addr, client) ∷ socks) =
    if client.uuid == uuid then suc (sockets_of uuid socks) else sockets_of uuid socks

abbrev pub paid : Rows → ℕ
paid rows = sum_of (λ u. u.balance) rows.i_rewards

-- With both totals positive no division is by zero.
earns :
    (msg : MineSuccess) (sub : InternalMessageSubmission)
    → 0 < msg.total_hashpower
    → 0 < msg.total_real_hashpower
    → earned_rewards_of msg sub ≢ none
unfolding earned_rewards_of
earns msg sub h k e = ground arith

module _ (pool_id : ℕ) (msg : MineSuccess) where
  push_rows-paid :
      (uuid : ℕ) (sub : InternalMessageSubmission) (amount : ℕ)
      (socks : HashMap AppClientConnection) (rows : Rows)
      → paid (push_rows pool_id msg uuid sub amount socks rows)
        ≡ paid rows + sockets_of uuid socks * amount
  unfolding push_rows sockets_of
  push_rows-paid uuid sub amount [] rows = omega arith
  push_rows-paid uuid sub amount ((addr, client) ∷ socks) rows =
      elim (Bool-cases (client.uuid == uuid)) [
        | inl own ↦
            rw (own, push_rows, sockets_of)
              (omega (
                arith,
                push_rows-paid uuid sub amount socks (push_row pool_id msg client sub amount rows),
                sum_of-append (λ u. u.balance) rows.i_rewards
                    (record { miner_id = sub.miner_id; balance = amount } ∷ []),
              ))
        | inr other ↦ rw (other, push_rows, sockets_of) (push_rows-paid uuid sub amount socks rows)
      ]

  -- Every submission pays what it earned once for each socket of its connection.
  pub submission_rows-paid :
      (known : ℕ → Bool) (socks : HashMap AppClientConnection)
      → 0 < msg.total_hashpower
      → 0 < msg.total_real_hashpower
      → (m : HashMap InternalMessageSubmission) → All (λ e. known e.1.miner_id ≡ true) m
      → (rows : Rows)
      → (out : Rows) × (submission_rows pool_id msg known socks m rows ≡ some out)
        × (paid out ≡ paid rows + sum_of (λ e. sockets_of e.0 socks * earned msg e.1) m)
  unfolding submission_rows
  submission_rows-paid known socks hash real [] here rows = (rows, refl, omega arith)
  submission_rows-paid known socks hash real ((uuid, sub) ∷ m) here rows =
      elim (Option-cases (earned_rewards_of msg sub)) [
        | inl e ↦ absurd (earns msg sub hash real e)
        | inr (amount, e) ↦
            let next = push_rows pool_id msg uuid sub amount socks rows in
            let (out, o, p) = submission_rows-paid known socks hash real m here.1 next in
            let got : earned msg sub ≡ amount = rw (e, earned) refl in
            (
              out,
              rw (here.0, e, submission_rows) o,
              omega (
                arith,
                p,
                push_rows-paid uuid sub amount socks rows,
                ap (λ a. sockets_of uuid socks * a) got,
              ),
            )
      ]

once-le :
    (msg : MineSuccess) (socks : HashMap AppClientConnection)
    (m : HashMap InternalMessageSubmission)
    → All (λ e. sockets_of e.0 socks ≤ 1) m
    → sum_of (λ e. sockets_of e.0 socks * earned msg e.1) m ≤ sum_of (λ e. earned msg e.1) m
once-le msg socks [] h = omega arith
once-le msg socks ((uuid, sub) ∷ m) h = omega (
  arith,
  mul-le-mul_right {m = sockets_of uuid socks} {n = 1} (earned msg sub) h.0,
  once-le msg socks m h.1,
)

-- If both totals of hashpower of a round are positive, the real hashpowers of its submissions add up
-- to the total of its message, every submission is by a miner that is found, and no uuid of a
-- submission has two sockets, then the rows of the round are made without a panic, and pay out at
-- most the rewards left after the commission.
pub rows-paid-le :
    (pool_id : ℕ) (msg : MineSuccess) (known : ℕ → Bool) (socks : HashMap AppClientConnection)
    → 0 < msg.total_hashpower
    → 0 < msg.total_real_hashpower
    → All (λ e. known e.1.miner_id ≡ true) msg.submissions
    → All (λ e. sockets_of e.0 socks ≤ 1) msg.submissions
    → sum_of (λ e. e.1.real_hashpower) msg.submissions ≡ msg.total_real_hashpower
    → (rows : Rows) × (submission_rows pool_id msg known socks msg.submissions no_rows ≡ some rows)
      × (paid rows ≤ total_rewards_of msg)
unfolding no_rows
rows-paid-le pool_id msg known socks hash real here single total =
    let (rows, e, p) =
      submission_rows-paid pool_id msg known socks hash real msg.submissions here no_rows in
    (
      rows,
      e,
      omega (arith, p, once-le msg socks msg.submissions single, earned-le-rewards msg real total),
    )
