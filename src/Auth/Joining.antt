-- ===== src/Auth/Joining.antt =====
-- A key that joins without a signature: signed up at its first connection, or stuck.
use bitz_pool.Common.{
  ℕ, ◌+◌, ◌≤◌, ◌<◌, ◌≡◌, refl, ◌∙◌, false, none, some, List, [], ◌∷◌, String, ◌==◌, leb, arith,
}
use bitz_pool.Common.Word.{u64_mod, sub_u64}
use bitz_pool.Database.Tables.{Tables, Miner, Pool}
use bitz_pool.Database.Link.{
  Link, no_connection, no_interaction, server_error, linked, find,
  failed_to_get_connection_from_pool, query_failed, interaction_failed,
}
use bitz_pool.Database.Miners.{get_miner_by_pubkey_str, signup_user_transaction}
use bitz_pool.Database.Miners.Signup.{signed_up}
use bitz_pool.Database.Valid.{IsValid}
use bitz_pool.Database.Account.{signup_new, signup_known, find_new}
use bitz_pool.Claims.Worker.{until_ok}
use bitz_pool.Claims.Worker.Steps.{until_ok-err}
use bitz_pool.Auth.{upgraded, admit, ws_handler_pubkey}

-- A key that no miner has, at a pool that exists, is signed up and admitted with its new id, with a
-- timestamp of the last 30 seconds and the database in reach.
pub ws_handler_pubkey-signs_up :
    (authority now timestamp user_pubkey : ℕ) (worker_name : String) (p : Pool) (t : Tables)
    (links : List Link)
    → timestamp ≤ now
    → now < timestamp + 30
    → now < u64_mod
    → IsValid t
    → find (λ m. m.pubkey == user_pubkey) t.miners ≡ none
    → find (λ q. q.authority_pubkey == authority) t.pools ≡ some p
    → ws_handler_pubkey authority now timestamp
        (some user_pubkey)
        worker_name
        (linked ∷ linked ∷ linked ∷ links, t)
      ≡ some (upgraded user_pubkey t.next_id worker_name, (links, signed_up user_pubkey t))
unfolding ws_handler_pubkey until_ok admit get_miner_by_pubkey_str
ws_handler_pubkey-signs_up authority now timestamp user_pubkey worker_name p t links past recent
      fits v new known =
    let up = signup_new user_pubkey authority p t v new known in
    let again = find_new user_pubkey t in
    let fresh : leb 30 (sub_u64 now timestamp) ≡ false = ground arith in ground (arith, up, again)

-- The signup of a key that a miner has never succeeds.
signup_known-until_ok :
    (authority user_pubkey : ℕ) (m : Miner) (t : Tables)
    → find (λ x. x.pubkey == user_pubkey) t.miners ≡ some m
    → (links : List Link)
    → until_ok (λ link. signup_user_transaction link user_pubkey authority) (links, t) ≡ none
unfolding until_ok signup_user_transaction
signup_known-until_ok authority user_pubkey m t known [] = refl
signup_known-until_ok authority user_pubkey m t known (linked ∷ links) =
    until_ok-err (λ link. signup_user_transaction link user_pubkey authority) query_failed linked
      links t (signup_known user_pubkey authority m t known)
    ∙ signup_known-until_ok authority user_pubkey m t known links
signup_known-until_ok authority user_pubkey m t known (no_connection ∷ links) =
    until_ok-err (λ link. signup_user_transaction link user_pubkey authority)
      failed_to_get_connection_from_pool no_connection links t refl
    ∙ signup_known-until_ok authority user_pubkey m t known links
signup_known-until_ok authority user_pubkey m t known (no_interaction ∷ links) =
    until_ok-err (λ link. signup_user_transaction link user_pubkey authority) interaction_failed
      no_interaction links t refl
    ∙ signup_known-until_ok authority user_pubkey m t known links
signup_known-until_ok authority user_pubkey m t known (server_error ∷ links) =
    until_ok-err (λ link. signup_user_transaction link user_pubkey authority) query_failed
      server_error links t refl
    ∙ signup_known-until_ok authority user_pubkey m t known links

-- A key that has a miner never gets an answer once its first lookup finds no connection: the handler
-- takes any error for a missing miner, and tries to sign the key up for as long as calls are made.
pub ws_handler_pubkey_stuck :
    (authority now timestamp user_pubkey : ℕ) (worker_name : String) (m : Miner) (t : Tables)
    (links : List Link)
    → timestamp ≤ now
    → now < timestamp + 30
    → now < u64_mod
    → find (λ x. x.pubkey == user_pubkey) t.miners ≡ some m
    → ws_handler_pubkey authority now timestamp
        (some user_pubkey)
        worker_name
        (no_connection ∷ links, t)
      ≡ none
unfolding ws_handler_pubkey get_miner_by_pubkey_str
ws_handler_pubkey_stuck authority now timestamp user_pubkey worker_name m t links past recent fits
      known =
    let fresh : leb 30 (sub_u64 now timestamp) ≡ false = ground arith in
    let stuck = signup_known-until_ok authority user_pubkey m t known links in ground arith
