-- ===== src/Database/Account.antt =====
-- What a signup gives a new miner, and that it is done once.
use bitz_pool.Common.{ℕ, ◌≡◌, refl, true, none, some, ◌==◌, ==_refl, arith}
use bitz_pool.Database.Tables.{Miner, Pool, Tables}
use bitz_pool.Database.Link.{ok, err, query_failed, linked, find}
use bitz_pool.Database.Miners.{signup_user_transaction, get_miner_by_pubkey_str}
use bitz_pool.Database.Miners.Signup.{signed_up}
use bitz_pool.Database.Ledger.{get_miner_rewards}
use bitz_pool.Database.Valid.{IsValid, Below-find}

pub signup_new :
    (user authority : ℕ) (p : Pool) (t : Tables)
    → IsValid t
    → find (λ m. m.pubkey == user) t.miners ≡ none
    → find (λ q. q.authority_pubkey == authority) t.pools ≡ some p
    → signup_user_transaction linked user authority t ≡ (ok tt, signed_up user t)
unfolding signup_user_transaction
signup_new user authority p t v new known =
    ground (arith, ==_refl user, Below-find t.next_id t.rewards v.owners_below)

pub signup_known :
    (user authority : ℕ) (m : Miner) (t : Tables)
    → find (λ x. x.pubkey == user) t.miners ≡ some m
    → signup_user_transaction linked user authority t ≡ (err query_failed, t)
unfolding signup_user_transaction
signup_known user authority m t known = ground arith

pub find_new :
    (user : ℕ) (t : Tables)
    → find (λ x. x.pubkey == user) (signed_up user t).miners
      ≡ some (record { id = t.next_id; pubkey = user; enabled = true })
find_new user t = ground (arith, ==_refl user)

rewards_new :
    (user : ℕ) (t : Tables)
    → get_miner_rewards linked user (signed_up user t)
      ≡ (ok (record { miner_id = t.next_id; balance = 0 }), signed_up user t)
unfolding get_miner_rewards
rewards_new user t = ground (arith, ==_refl user, ==_refl t.next_id)

-- In tables with valid keys, the signup of a public key that no miner has, at a pool that exists,
-- succeeds: the key then has an enabled miner and a balance of zero, and a second signup of it is
-- an error that changes nothing.
pub signup_once :
    (user authority : ℕ) (p : Pool) (t : Tables)
    → IsValid t
    → find (λ m. m.pubkey == user) t.miners ≡ none
    → find (λ q. q.authority_pubkey == authority) t.pools ≡ some p
    → let (r, t') = signup_user_transaction linked user authority t in
      (r ≡ ok tt)
      × (get_miner_by_pubkey_str linked user t'
          ≡ (ok (record { id = t.next_id; pubkey = user; enabled = true }), t'))
      × (get_miner_rewards linked user t' ≡ (ok (record { miner_id = t.next_id; balance = 0 }), t'))
      × (signup_user_transaction linked user authority t' ≡ (err query_failed, t'))
unfolding get_miner_by_pubkey_str
signup_once user authority p t v new known = rw (signup_new user authority p t v new known) (
  refl,
  ground (arith, ==_refl user),
  rewards_new user t,
  signup_known user authority (record { id = t.next_id; pubkey = user; enabled = true })
      (signed_up user t) (find_new user t),
)
