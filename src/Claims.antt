-- ===== src/Claims.antt =====
-- Claims of rewards: the handlers `post_claim_v2` and `claim_direct` of src/utils.rs, which queue
-- them. The worker that pays them is in the child module Worker.
pub mod Worker
pub mod Accepted
pub mod Direct
mod Tests
use bitz_pool.Common.{
  ℕ, ◌+◌, ◌-◌, Bool, true, false, not, Option, none, some, ◌⊎◌, inl, inr, List, [], ◌∷◌, ◌++◌,
  if◌then◌else◌, ltb, leb,
}
use bitz_pool.Common.Map.{HashMap, insert, contains_key}
use bitz_pool.Common.Word.{sub_u64, to_le_bytes}
use bitz_pool.State.{ClaimsQueueItem}
use bitz_pool.Database.Tables.{Tables, Reward}
use bitz_pool.Database.Link.{Link, ok, err}
use bitz_pool.Database.Ledger.{get_miner_rewards, get_last_claim}

abbrev pub Queue : Type 0
Queue = HashMap ClaimsQueueItem

-- The smallest claim, and what a new token account costs: 0.02 BITZ
abbrev pub minimum_claim : ℕ
minimum_claim = 2000000000

abbrev pub ata_fee : ℕ
ata_fee = 2000000000

-- The answer of `get_token_account_balance`: an error, or an account with or without an amount.
pub data TokenBalance : Type 0 where
  rpc_error : TokenBalance
  no_ui_amount : TokenBalance
  ui_amount : TokenBalance

-- What the handlers use of `solana_sdk`.
pub record Crypto : Type 0 where
  pub to_bytes : ℕ → List ℕ
  pub verify : ℕ → ℕ → List ℕ → Bool

-- The query and the authorization header: a string that is parsed is the result of parsing it.
pub record ClaimParamsV2 : Type 0 where
  pub timestamp : ℕ
  pub receiver_pubkey : Option ℕ
  pub amount : ℕ
  pub miner_pubkey : Option ℕ
  pub signature : Option ℕ

pub data ClaimError : Type 0 where
  timestamp_too_old : ClaimError
  invalid_receiver_pubkey : ClaimError
  invalid_pubkey : ClaimError
  invalid_signature : ClaimError
  sig_verification_failed : ClaimError
  queued : ClaimError
  below_minimum : ClaimError
  no_miner_account : ClaimError
  exceeds_balance : ClaimError
  cooldown : ClaimError
  not_enough_for_ata : ClaimError

pub data Reply : Type 0 where
  success : Reply
  rejected : ClaimError → Reply

-- `timestamp || receiver || amount`, as it is signed
unfoldable pub signed_msg : Crypto → ℕ → ℕ → ℕ → List ℕ
signed_msg crypto timestamp receiver amount =
    to_le_bytes 8 timestamp ++ (crypto.to_bytes receiver ++ to_le_bytes 8 amount)

-- `post_claim_v2` needs a new token account unless the balance has an amount.
abbrev pub needs_ata : TokenBalance → Bool
needs_ata ui_amount = false
needs_ata _ = true

-- `claim_direct` needs one only if the balance cannot be read.
abbrev pub lacks_ata : TokenBalance → Bool
lacks_ata rpc_error = true
lacks_ata _ = false

-- `now - last_claim_ts <= 1800`, on `i64`: a lookup that fails ends no claim.
unfoldable pub is_cooling_down : ℕ → Link → ℕ → Tables → Bool
is_cooling_down now link miner_id t = elim (get_last_claim link miner_id t).0 [
  | ok last_claim ↦ leb now (last_claim.created_at + 1800)
  | err _ ↦ false
]

-- The database and the chain, as a request finds them: how far its two reads get, and the token
-- account of its receiver.
pub record Around : Type 0 where
  pub now : ℕ
  pub rewards_link : Link
  pub claims_link : Link
  pub token : TokenBalance
  pub tables : Tables

-- The checks of `post_claim_v2` after the signature is verified, up to the token account.
unfoldable pub check_rewards : Around → ℕ → ℕ → Reply
unfolding is_cooling_down
check_rewards w miner_pubkey amount =
    elim (get_miner_rewards w.rewards_link miner_pubkey w.tables).0 [
      | err _ ↦ rejected no_miner_account
      | ok miner_rewards ↦
          if ltb miner_rewards.balance amount
          then rejected exceeds_balance
          else if is_cooling_down w.now w.claims_link miner_rewards.miner_id w.tables
          then rejected cooldown
          else if needs_ata w.token
          then (if leb ata_fee amount then success else rejected not_enough_for_ata)
          else success
    ]

unfoldable pub check_queue : Around → Queue → ℕ → ℕ → Reply
unfolding check_rewards
check_queue w queue miner_pubkey amount =
    if contains_key miner_pubkey queue
    then rejected queued
    else if ltb amount minimum_claim
    then rejected below_minimum
    else check_rewards w miner_pubkey amount

-- The amount that is queued is the whole amount: `claim_amount`, without the fee, is not used.
unfoldable pub enqueue : Reply → ℕ → ClaimsQueueItem → Queue → Reply × Queue
enqueue success miner_pubkey item queue = (success, insert miner_pubkey item queue)
enqueue (rejected e) miner_pubkey item queue = (rejected e, queue)

-- Once the keys are parsed: the signature, then the checks.
unfoldable pub submit_claim : Crypto → Around → ClaimParamsV2 → ℕ → ℕ → Queue → Reply × Queue
unfolding check_queue enqueue signed_msg
submit_claim crypto w params receiver miner queue = elim params.signature [
  | none ↦ (rejected invalid_signature, queue)
  | some signature ↦
      if crypto.verify signature miner (signed_msg crypto params.timestamp receiver params.amount)
      then enqueue (check_queue w queue miner params.amount) miner
          (record { receiver_pubkey = receiver; amount = params.amount }) queue
      else (rejected sig_verification_failed, queue)
]

-- `now - msg_timestamp` is a subtraction on `u64`.
unfoldable pub post_claim_v2 : Crypto → Around → ClaimParamsV2 → Queue → Reply × Queue
unfolding submit_claim
post_claim_v2 crypto w params queue =
    if leb 30 (sub_u64 w.now params.timestamp)
    then (rejected timestamp_too_old, queue)
    else elim params.receiver_pubkey [
      | none ↦ (rejected invalid_receiver_pubkey, queue)
      | some receiver ↦ elim params.miner_pubkey [
        | none ↦ (rejected invalid_pubkey, queue)
        | some miner ↦ submit_claim crypto w params receiver miner queue
      ]
    ]

-- What `claim_direct` queues of a balance, or why it does not.
unfoldable pub direct_amount : Around → Reward → ClaimError ⊎ ℕ
unfolding is_cooling_down
direct_amount w rewards =
    if ltb rewards.balance minimum_claim
    then inl below_minimum
    else if is_cooling_down w.now w.claims_link rewards.miner_id w.tables
    then inl cooldown
    else if lacks_ata w.token
    then (if leb ata_fee rewards.balance
        then inr (rewards.balance - ata_fee)
        else inl not_enough_for_ata)
    else inr rewards.balance

-- `claim_direct` queues the whole balance, without the fee, for the miner itself; it does not look
-- whether a claim is queued.
unfoldable pub claim_direct : Around → Option ℕ → Queue → Reply × Queue
unfolding direct_amount
claim_direct w none queue = (rejected invalid_pubkey, queue)
claim_direct w (some pubkey) queue = elim (get_miner_rewards w.rewards_link pubkey w.tables).0 [
  | err _ ↦ (rejected no_miner_account, queue)
  | ok miner_rewards ↦ elim (direct_amount w miner_rewards) [
    | inl e ↦ (rejected e, queue)
    | inr amount ↦
        (success, insert pubkey (record { receiver_pubkey = pubkey; amount = amount }) queue)
  ]
]
