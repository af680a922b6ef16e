-- ===== src/Database/Tables.antt =====
-- The rows of src/models.rs and the tables of migrations/. A table lists its rows with the newest
-- first, so that `ORDER BY id DESC` reads from the head. One counter stands for the
-- AUTO_INCREMENT of every table: an id is new in its table.
use bitz_pool.Common.{ℕ, String, Bool, Option, List}

pub record Miner : Type 0 where
  pub id : ℕ
  pub pubkey : ℕ
  pub enabled : Bool

-- `rewards`: the balance of a miner.
pub record Reward : Type 0 where
  pub miner_id : ℕ
  pub balance : ℕ

pub record Pool : Type 0 where
  pub id : ℕ
  pub proof_pubkey : ℕ
  pub authority_pubkey : ℕ
  pub total_rewards : ℕ
  pub claimed_rewards : ℕ

pub record Challenge : Type 0 where
  pub id : ℕ
  pub pool_id : ℕ
  pub submission_id : Option ℕ
  pub challenge : List ℕ
  pub rewards_earned : Option ℕ

pub record InsertChallenge : Type 0 where
  pub pool_id : ℕ
  pub challenge : List ℕ
  pub rewards_earned : Option ℕ

pub record UpdateReward : Type 0 where
  pub miner_id : ℕ
  pub balance : ℕ

pub record InsertEarning : Type 0 where
  pub miner_id : ℕ
  pub pool_id : ℕ
  pub challenge_id : ℕ
  pub amount : ℕ
  pub difficulty : ℕ
  pub worker_name : String

pub record InsertSubmission : Type 0 where
  pub miner_id : ℕ
  pub challenge_id : ℕ
  pub nonce : ℕ
  pub difficulty : ℕ

-- A row of `submissions` with the id that `SubmissionWithId` selects.
pub record Submission : Type 0 where
  pub id : ℕ
  pub row : InsertSubmission

pub record InsertTxn : Type 0 where
  pub txn_type : String
  pub signature : ℕ
  pub priority_fee : ℕ

pub record Txn : Type 0 where
  pub id : ℕ
  pub row : InsertTxn

pub record InsertClaim : Type 0 where
  pub miner_id : ℕ
  pub pool_id : ℕ
  pub txn_id : ℕ
  pub amount : ℕ

-- A row of `claims`, with the time that `LastClaim` selects.
pub record Claim : Type 0 where
  pub row : InsertClaim
  pub created_at : ℕ

pub record Tables : Type 0 where
  pub next_id : ℕ
  pub miners : List Miner
  pub rewards : List Reward
  pub pools : List Pool
  pub challenges : List Challenge
  pub earnings : List InsertEarning
  pub submissions : List Submission
  pub txns : List Txn
  pub claims : List Claim
