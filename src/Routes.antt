-- ===== src/Routes.antt =====
-- The reading routes of src/utils.rs: what they answer for a query, on the sockets and on the read
-- replica. A public key of a query is parsed by `Pubkey::from_str`: `none` is a text that does not
-- parse. Times are seconds from 1970 on.
pub mod Answers
mod Tests
use bitz_pool.Common.{
  ℕ, ◌+◌, Bool, true, false, Option, none, some, List, String, ltb, length, if◌then◌else◌,
}
use bitz_pool.Common.Map.{HashMap}
use bitz_pool.State.{AppClientConnection}
use bitz_pool.Auth.{count_of}
use bitz_pool.Claims.{TokenBalance, lacks_ata}
use bitz_pool.Database.Link.{Result, ok, err, Link}
use bitz_pool.Replica
use bitz_pool.Replica.{EarningRow, EarningView, get_last_claim_by_pubkey}

-- `Result<Json<..>, String>`
pub data Answer (A : Type 0) : Type 0 where
  json : A → Answer A
  failure : String → Answer A

-- `match res { Ok(a) => Ok(Json(a)), Err(_) => Err(message) }`
abbrev pub answer_of : {A : Type 0} → String → Result A → Answer A
answer_of message (ok a) = json a
answer_of message (err e) = failure message

-- `if let Ok(user_pubkey) = Pubkey::from_str(..) { .. } else { Err("Invalid public key") }`
abbrev pub for_pubkey : {A : Type 0} → Option ℕ → (ℕ → Answer A) → Answer A
for_pubkey none f = failure "Invalid public key"
for_pubkey (some user_pubkey) f = f user_pubkey

-- A `Response` with a status and a body.
pub record Response : Type 0 where
  pub status : ℕ
  pub body : Option ℕ

-- The body of a bad request is "Invalid Pubkey", here `none`.
unfoldable pub get_connected_miners : Option (Option ℕ) → HashMap AppClientConnection → Response
get_connected_miners (some (some user_pubkey)) socks = record {
  status = 200;
  body = some (count_of user_pubkey socks);
}
get_connected_miners (some none) socks = record { status = 400; body = none }
get_connected_miners none socks = record { status = 200; body = some (length socks) }

-- `query_params.pubkey.clone().unwrap_or_default()`; the inner `none` is the empty text. The text is
-- not parsed.
abbrev pub unwrap_or_default : Option (Option ℕ) → Option ℕ
unwrap_or_default none = none
unwrap_or_default (some pubkey) = pubkey

unfoldable pub get_high_difficulty : Link → ℕ → Option (Option ℕ) → Replica.Tables → Answer ℕ
get_high_difficulty link now pubkey t =
    answer_of "Failed to get difficulty for miner"
      (Replica.get_high_difficulty link now (unwrap_or_default pubkey) t)

unfoldable pub get_hashpower : Link → Option (Option ℕ) → Replica.Tables → Answer ℕ
get_hashpower link pubkey t =
    answer_of "Failed to get hashpower for miner"
      (Replica.get_hashpower link (unwrap_or_default pubkey) t)

-- `FullMinerRewards` holds the balance, and the same as a float.
unfoldable pub get_miner_rewards : Link → Option ℕ → Replica.Tables → Answer ℕ
get_miner_rewards link pubkey t = for_pubkey pubkey (λ user_pubkey.
    elim (Replica.get_miner_rewards link user_pubkey t) [
      | ok rewards ↦ json rewards.balance
      | err e ↦ failure "Failed to get balance"
    ])

-- `LastClaim` is the time of the claim.
unfoldable pub get_miner_last_claim : Bool → Link → Option ℕ → Replica.Tables → Answer ℕ
get_miner_last_claim stats_enabled link pubkey t =
    if stats_enabled
    then for_pubkey pubkey (λ user_pubkey. elim (get_last_claim_by_pubkey link user_pubkey t) [
      | ok last_claim ↦ json last_claim.created_at
      | err e ↦ failure "Failed to get last claim for miner"
    ])
    else failure "Stats not enabled for this server."

unfoldable pub get_earnings_with_challenge_and_submission_day :
    Link → ℕ → Option ℕ → Replica.Tables → Answer (List EarningView)
get_earnings_with_challenge_and_submission_day link now pubkey t = for_pubkey pubkey (λ user_pubkey.
    answer_of "Failed to get earnings for miner"
      (Replica.get_earnings_with_challenge_and_submission_day link now user_pubkey t))

unfoldable pub get_earnings_with_challenge_and_submission_hours :
    Link → ℕ → Option ℕ → Replica.Tables → Answer (List EarningView)
get_earnings_with_challenge_and_submission_hours link now pubkey t =
    for_pubkey pubkey (λ user_pubkey.
      answer_of "Failed to get earnings for miner"
        (Replica.get_earnings_with_challenge_and_submission_hours link now user_pubkey t))

-- `confirmation_claim`, which reads the replica: the balance, and whether a token account is missing.
-- `none` is a key that does not parse.
unfoldable pub confirmation_claim :
    Link → TokenBalance → Option ℕ → Replica.Tables → Option (Answer (ℕ × Bool))
confirmation_claim link token none t = none
confirmation_claim link token (some pubkey) t =
    some (elim (Replica.get_miner_rewards link pubkey t) [
      | err _ ↦ failure "Failed to get rewards"
      | ok miner_rewards ↦ json (miner_rewards.balance, lacks_ata token)
    ])
