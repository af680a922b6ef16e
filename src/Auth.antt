-- ===== src/Auth.antt =====
-- Who may connect and sign up: the websocket handlers `ws_handler_v2`, `ws_handler_pubkey` and
-- `ws_handler_v3`, `post_signup_v2` and `get_connected_miners` of src/utils.rs.
pub mod Admitted
pub mod Joining
mod Tests
use bitz_pool.Common.{
  ℕ, suc, Bool, true, false, Option, none, some, List, [], ◌∷◌, String, ◌==◌, length, leb, ltb,
  if◌then◌else◌,
}
use bitz_pool.Common.Map.{HashMap}
use bitz_pool.Common.Word.{sub_u64, to_le_bytes}
use bitz_pool.State.{AppClientConnection}
use bitz_pool.Claims.{Crypto}
use bitz_pool.Claims.Worker.{until_ok}
use bitz_pool.Rewards.Batches.{Session}
use bitz_pool.Database.Tables.{Tables, Miner}
use bitz_pool.Database.Link.{
  Link, Result, ok, err, AppDatabaseError, failed_to_get_connection_from_pool, interaction_failed,
  query_failed,
}
use bitz_pool.Database.Miners.{get_miner_by_pubkey_str, signup_user_transaction}

pub data Denial : Type 0 where
  timestamp_too_old : Denial
  please_sign_up : Denial
  internal_server_error : Denial
  not_authorized : Denial
  sig_verification_failed : Denial
  invalid_signature : Denial
  invalid_pubkey : Denial

-- The connection is upgraded for a miner, or refused.
pub data Answer : Type 0 where
  upgraded : ℕ → ℕ → String → Answer
  denied : Denial → Answer

-- The answer to an error of the database.
abbrev pub denial_of : AppDatabaseError → Denial
denial_of query_failed = please_sign_up
denial_of interaction_failed = please_sign_up
denial_of _ = internal_server_error

-- Once the miner is known: it must be enabled, and the signature that of the timestamp.
unfoldable pub check_signature : Crypto → ℕ → ℕ → Option ℕ → Miner → Answer
check_signature crypto timestamp user_pubkey signature miner =
    if miner.enabled
    then (elim signature [
      | none ↦ denied invalid_signature
      | some sig ↦
          if crypto.verify sig user_pubkey (to_le_bytes 8 timestamp)
          then upgraded user_pubkey miner.id "-"
          else denied sig_verification_failed
    ])
    else denied not_authorized

-- `now - timestamp` is a subtraction on `u64`. The key and the signature are the results of parsing.
unfoldable pub ws_handler_v2 : Crypto → ℕ → ℕ → Option ℕ → Option ℕ → Link → Tables → Answer
unfolding check_signature
ws_handler_v2 crypto now timestamp pubkey signature link t =
    if leb 30 (sub_u64 now timestamp) then denied timestamp_too_old else elim pubkey [
      | none ↦ denied invalid_pubkey
      | some user_pubkey ↦ elim (get_miner_by_pubkey_str link user_pubkey t).0 [
        | err e ↦ denied (denial_of e)
        | ok miner ↦ check_signature crypto timestamp user_pubkey signature miner
      ]
    ]

-- One call: its result, and what is left of the session. `none` is the end of the links.
abbrev pub one_call :
    {A : Type 0} → (Link → Tables → Result A × Tables) → Session → Option (Result A × Session)
one_call op ([], t) = none
one_call op (link ∷ links, t) = some ((op link t).0, (links, (op link t).1))

-- The second lookup of the miner.
unfoldable pub admit : ℕ → String → Session → Option (Answer × Session)
admit user_pubkey worker_name s =
    elim (one_call (λ link. get_miner_by_pubkey_str link user_pubkey) s) [
      | none ↦ none
      | some (err e, s') ↦ some (denied internal_server_error, s')
      | some (ok miner, s') ↦ some (
        (if miner.enabled
            then upgraded user_pubkey miner.id worker_name
            else denied not_authorized),
        s',
      )
    ]

-- `ws_handler_pubkey` and `ws_handler_v3`, which differ in the name of the worker: after any error of
-- the first lookup the key is signed up, again until that succeeds. `none` is a loop that is still
-- running when the links end.
unfoldable pub ws_handler_pubkey :
    ℕ → ℕ → ℕ → Option ℕ → String → Session → Option (Answer × Session)
unfolding until_ok admit
ws_handler_pubkey authority now timestamp pubkey worker_name s =
    if leb 30 (sub_u64 now timestamp) then some (denied timestamp_too_old, s) else elim pubkey [
      | none ↦ some (denied invalid_pubkey, s)
      | some user_pubkey ↦ elim (one_call (λ link. get_miner_by_pubkey_str link user_pubkey) s) [
        | none ↦ none
        | some (ok miner, s') ↦ admit user_pubkey worker_name s'
        | some (err e, s') ↦
            elim (until_ok (λ link. signup_user_transaction link user_pubkey authority) s') [
              | none ↦ none
              | some (_, s'') ↦ admit user_pubkey worker_name s''
            ]
      ]
    ]

pub data SignupAnswer : Type 0 where
  exists_already : SignupAnswer
  signed : SignupAnswer
  no_db_connection : SignupAnswer
  not_added : SignupAnswer
  bad_pubkey : SignupAnswer

-- The signup of a key that has no enabled miner.
unfoldable pub sign_up : ℕ → ℕ → Link → Tables → SignupAnswer × Tables
sign_up authority miner_pubkey link t =
    let (r, t') = signup_user_transaction link miner_pubkey authority t in
    (elim r [ ok _ ↦ signed | err _ ↦ not_added ], t')

unfoldable pub post_signup_v2 : ℕ → Option ℕ → Link → Link → Tables → SignupAnswer × Tables
unfolding sign_up
post_signup_v2 authority none lookup link t = (bad_pubkey, t)
post_signup_v2 authority (some miner_pubkey) lookup link t =
    elim (get_miner_by_pubkey_str lookup miner_pubkey t).0 [
      | ok miner ↦
          if miner.enabled then (exists_already, t) else sign_up authority miner_pubkey link t
      | err failed_to_get_connection_from_pool ↦ (no_db_connection, t)
      | err _ ↦ sign_up authority miner_pubkey link t
    ]

-- The connections of a key, and the oldest start among them.
unfoldable pub count_of : ℕ → HashMap AppClientConnection → ℕ
count_of user_pubkey [] = 0
count_of user_pubkey ((addr, client) ∷ socks) =
    if client.pubkey == user_pubkey
    then suc (count_of user_pubkey socks)
    else count_of user_pubkey socks

abbrev pub older : Option ℕ → ℕ → Option ℕ
older none at = some at
older (some oldest) at = if ltb at oldest then some at else some oldest

unfoldable pub oldest_from : Option ℕ → ℕ → HashMap AppClientConnection → Option ℕ
oldest_from oldest user_pubkey [] = oldest
oldest_from oldest user_pubkey ((addr, client) ∷ socks) =
    oldest_from
      (if client.pubkey == user_pubkey then older oldest client.start_mining_at else oldest)
      user_pubkey socks

-- `get_connected_miners_v2`: without a key the number of all sockets; `none` is a key that does not
-- parse.
unfoldable pub get_connected_miners_v2 :
    Option (Option ℕ) → HashMap AppClientConnection → Option (ℕ × Option ℕ)
unfolding count_of oldest_from
get_connected_miners_v2 none socks = some (length socks, none)
get_connected_miners_v2 (some none) socks = none
get_connected_miners_v2 (some (some user_pubkey)) socks =
    some (count_of user_pubkey socks, oldest_from none user_pubkey socks)
