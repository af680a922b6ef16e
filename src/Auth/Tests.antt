-- ===== src/Auth/Tests.antt =====
-- The theorems on connections and signups at concrete requests.
use bitz_pool.Common.{ℕ, ◌≡◌, refl, ◌⊎◌, none, some, [], ◌∷◌, arith}
use bitz_pool.Database.Tables.{Miner}
use bitz_pool.Database.Link.{no_connection, server_error, linked}
use bitz_pool.Database.Miners.{get_miner_by_pubkey_str}
use bitz_pool.Database.Miners.Signup.{signed_up}
use bitz_pool.Database.Valid.{IsValid}
use bitz_pool.Auth.{Denial, upgraded, denied, check_signature, ws_handler_v2, ws_handler_pubkey}
use bitz_pool.Auth.Admitted.{IsAuthorized, ws_handler_v2-IsAuthorized}
use bitz_pool.Auth.Joining.{ws_handler_pubkey-signs_up, ws_handler_pubkey_stuck}
use bitz_pool.Samples.{crypto, miner, pool, tables}

ws_handler_v2-IsAuthorized_example :
    ((user_pubkey : ℕ) × (m : Miner) × IsAuthorized crypto 2000 1980
        (some 501)
        (some 1)
        linked
        tables
        user_pubkey
        m
      × (ws_handler_v2 crypto 2000 1980 (some 501) (some 1) linked tables
          ≡ upgraded user_pubkey m.id "-"))
    ⊎ (((user_pubkey : ℕ) (m : Miner)
          → ¬ IsAuthorized crypto 2000 1980 (some 501) (some 1) linked tables user_pubkey m)
        × (d : Denial) × (ws_handler_v2 crypto 2000 1980 (some 501) (some 1) linked tables
            ≡ denied d))
ws_handler_v2-IsAuthorized_example =
    ws_handler_v2-IsAuthorized crypto 2000 1980 (some 501) (some 1) linked tables (omega arith)
      (omega arith) (omega arith)

miner_is_upgraded :
    ws_handler_v2 crypto 2000 1980 (some 501) (some 1) linked tables ≡ upgraded 501 11 "-"
unfolding ws_handler_v2 check_signature get_miner_by_pubkey_str
miner_is_upgraded = refl

tables-IsValid : IsValid tables
tables-IsValid = record {
  pubkeys = (refl, (refl, tt));
  ids = (refl, (refl, tt));
  ids_below = (omega arith, (omega arith, tt));
  owners = (refl, (refl, tt));
  owners_below = (omega arith, (omega arith, tt));
}

ws_handler_pubkey-signs_up_example :
    ws_handler_pubkey 9 2000 1980 (some 777) "rig" (linked ∷ linked ∷ linked ∷ [], tables)
    ≡ some (upgraded 777 20 "rig", ([], signed_up 777 tables))
ws_handler_pubkey-signs_up_example =
    ws_handler_pubkey-signs_up 9 2000 1980 777 "rig" pool tables [] (omega arith) (omega arith)
      (omega arith) tables-IsValid refl refl

ws_handler_pubkey_stuck_example :
    ws_handler_pubkey 9 2000 1980
      (some 501)
      "rig"
      (no_connection ∷ linked ∷ server_error ∷ linked ∷ [], tables)
    ≡ none
ws_handler_pubkey_stuck_example =
    ws_handler_pubkey_stuck 9 2000 1980 501 "rig" miner tables (linked ∷ server_error ∷ linked ∷ [])
      (omega arith) (omega arith) (omega arith) refl
