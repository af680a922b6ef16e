-- ===== src/Message.antt =====
-- src/message.rs: the binary messages of the server. A float is given by the
-- eight bytes of its `to_le_bytes`.
mod Layout
mod Tests
use bitz_pool.Common.{ℕ, List, ◌∷◌, ◌++◌}
use bitz_pool.Common.Word.{to_le_bytes}

-- The cutoff is an `i64`, given by its bit pattern.
pub record ServerMessageStartMining : Type 0 where
  pub challenge : List ℕ
  pub cutoff : ℕ
  pub nonce_range_start : ℕ
  pub nonce_range_end : ℕ

-- A float, by the bytes of its bit pattern, least first.
abbrev pub F64 : Type 0
F64 = List ℕ

pub record ServerMessagePoolSubmissionResult : Type 0 where
  pub difficulty : ℕ
  pub total_balance : F64
  pub total_rewards : F64
  pub top_stake : F64
  pub multiplier : F64
  pub active_miners : ℕ
  pub challenge : List ℕ
  pub best_nonce : ℕ
  pub miner_supplied_difficulty : ℕ
  pub miner_earned_rewards : F64
  pub miner_percentage : F64

unfoldable pub start_mining_binary : ServerMessageStartMining → List ℕ
start_mining_binary m =
    0
    ∷ (m.challenge
        ++ (to_le_bytes 8 m.cutoff
            ++ (to_le_bytes 8 m.nonce_range_start ++ to_le_bytes 8 m.nonce_range_end)))

pub submission_result_binary : ServerMessagePoolSubmissionResult → List ℕ
submission_result_binary m =
    1
    ∷ (to_le_bytes 4 m.difficulty
        ++ (m.total_balance
            ++ (m.total_rewards
                ++ (m.top_stake
                    ++ (m.multiplier
                        ++ (to_le_bytes 4 m.active_miners
                            ++ (m.challenge
                                ++ (to_le_bytes 8 m.best_nonce
                                    ++ (to_le_bytes 4 m.miner_supplied_difficulty
                                        ++ (m.miner_earned_rewards ++ m.miner_percentage))))))))))
