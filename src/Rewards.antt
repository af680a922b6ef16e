-- ===== src/Rewards.antt =====
-- The split of a mined reward: the commission in src/systems/pool_submission_system.rs, and the
-- shares and the rows for the database in src/systems/pool_mine_success_system.rs.
pub mod Shares
pub mod Paid
pub mod Batches
mod Tests
use bitz_pool.Common.{
  ◌>>=◌, ℕ, zero, suc, ◌+◌, ◌-◌, ◌*◌, ◌/◌, ◌%◌, Bool, true, false, Option, none, some, List, [],
  ◌∷◌, ◌++◌, ◌==◌, length, if◌then◌else◌, map, take, drop, ltb, any,
}
use bitz_pool.Common.Map.{HashMap}
use bitz_pool.Common.Word.{u64_mod, add_u64, mul_u64, sub_u64, saturating_mul}
use bitz_pool.State.{InternalMessageSubmission, AppClientConnection}
use bitz_pool.Database.Tables.{UpdateReward, InsertEarning, InsertSubmission}

-- `net_base_reward.checked_add(net_miner_boost_reward).unwrap()`: `none` is the panic.
unfoldable pub full_rewards_of : ℕ → ℕ → Option ℕ
full_rewards_of net_base_reward net_miner_boost_reward =
    if ltb (net_base_reward + net_miner_boost_reward) u64_mod
    then some (net_base_reward + net_miner_boost_reward)
    else none

-- `full_rewards.mul(5).saturating_div(100)`
unfoldable pub commissions_of : ℕ → ℕ
commissions_of full_rewards = mul_u64 full_rewards 5 / 100

-- The totals over the submissions of the epoch: hashpower and real hashpower.
unfoldable pub total_hashpowers : HashMap InternalMessageSubmission → ℕ × ℕ → ℕ × ℕ
total_hashpowers [] totals = totals
total_hashpowers ((uuid, sub) ∷ m) (total, total_real) =
    total_hashpowers m (add_u64 total sub.hashpower, add_u64 total_real sub.real_hashpower)

-- `u128::saturating_div`: `none` is the panic of a division by zero.
abbrev pub saturating_div : ℕ → ℕ → Option ℕ
saturating_div a b = if b == 0 then none else some (a / b)

-- `MessageInternalMineSuccess`, without the floats and the fields that nothing reads.
pub record MineSuccess : Type 0 where
  pub difficulty : ℕ
  pub rewards : ℕ
  pub commissions : ℕ
  pub challenge_id : ℕ
  pub challenge : List ℕ
  pub best_nonce : ℕ
  pub total_hashpower : ℕ
  pub total_real_hashpower : ℕ
  pub submissions : HashMap InternalMessageSubmission

-- `msg.rewards - msg.commissions`
pub total_rewards_of : MineSuccess → ℕ
total_rewards_of msg = sub_u64 msg.rewards msg.commissions

-- What a submission earns: its millionths of the real hashpower, of the rewards left after the
-- commission. The share of the capped hashpower is computed too, and not used.
pub earned_rewards_of : MineSuccess → InternalMessageSubmission → Option ℕ
unfolding total_rewards_of
earned_rewards_of msg sub = do
  _ ← saturating_div (saturating_mul sub.hashpower 1000000) msg.total_hashpower
  real_hashpower_percent ←
      saturating_div (saturating_mul sub.real_hashpower 1000000) msg.total_real_hashpower
  some (saturating_mul real_hashpower_percent (total_rewards_of msg) / 1000000 % u64_mod)

-- The rows that a message makes.
pub record Rows : Type 0 where
  pub i_earnings : List InsertEarning
  pub i_rewards : List UpdateReward
  pub i_submissions : List InsertSubmission

-- `i8` from `u32`, by its bits
abbrev pub as_i8 : ℕ → ℕ
as_i8 n = n % 256

module _ (pool_id : ℕ) (msg : MineSuccess) where
  -- One row of each kind.
  abbrev pub push_row : AppClientConnection → InternalMessageSubmission → ℕ → Rows → Rows
  push_row client sub earned_rewards rows = record {
    i_earnings =
        rows.i_earnings
        ++ (record {
          miner_id = sub.miner_id;
          pool_id = pool_id;
          challenge_id = msg.challenge_id;
          amount = earned_rewards;
          difficulty = as_i8 sub.supplied_diff;
          worker_name = client.worker_name;
        }
            ∷ []);
    i_rewards =
        rows.i_rewards ++ (record { miner_id = sub.miner_id; balance = earned_rewards } ∷ []);
    i_submissions =
        rows.i_submissions
        ++ (record {
          miner_id = sub.miner_id;
          challenge_id = msg.challenge_id;
          nonce = sub.supplied_nonce;
          difficulty = as_i8 sub.supplied_diff;
        }
            ∷ []);
  }

  -- The inner loop: one row of each kind for every socket of the connection.
  unfoldable pub push_rows :
      ℕ → InternalMessageSubmission → ℕ → HashMap AppClientConnection → Rows → Rows
  push_rows miner_uuid sub earned_rewards [] rows = rows
  push_rows miner_uuid sub earned_rewards ((addr, client) ∷ socks) rows =
      push_rows miner_uuid sub earned_rewards socks
        (if client.uuid == miner_uuid then push_row client sub earned_rewards rows else rows)

  -- The outer loop, over the submissions. A miner whose row or rewards the database does not have, or
  -- a public key in it that does not parse, is a panic: `known` says of which ids none happens.
  pub submission_rows :
      (ℕ → Bool)
      → HashMap AppClientConnection
      → HashMap InternalMessageSubmission
      → Rows
      → Option Rows
  submission_rows known socks [] rows = some rows
  submission_rows known socks ((miner_uuid, sub) ∷ m) rows = elim (known sub.miner_id) [
    | false ↦ none
    | true ↦ elim (earned_rewards_of msg sub) [
      | none ↦ none
      | some earned ↦ submission_rows known socks m (push_rows miner_uuid sub earned socks rows)
    ]
  ]

pub no_rows : Rows
no_rows = record { i_earnings = []; i_rewards = []; i_submissions = [] }
