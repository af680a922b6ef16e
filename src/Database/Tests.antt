-- ===== src/Database/Tests.antt =====
-- Tests of the database, and the theorems at a pool with two miners.
use bitz_pool.Common.{◌≡◌, ◌↔◌, refl, true, arith}
use bitz_pool.Database.Link.{ok, err, query_failed, server_error, linked}
use bitz_pool.Database.Miners.{signup_user_transaction, get_miner_by_pubkey_str}
use bitz_pool.Database.Ledger.{get_miner_rewards}
use bitz_pool.Database.Calls.{rewards, signup, run_call, Hides, run_call_unlinked}
use bitz_pool.Database.Valid.{IsValid}
use bitz_pool.Database.Valid.Kept.{run_call-IsValid}
use bitz_pool.Database.Account.{signup_once}
use bitz_pool.Samples.{tables, pool, batch}

run_call_unlinked_example :
    ((run_call server_error (rewards batch) tables).1 ≡ tables)
    × (((run_call server_error (rewards batch) tables).0 ≡ ok tt)
        ↔ Hides server_error (rewards batch))
run_call_unlinked_example = run_call_unlinked server_error (rewards batch) tables (λ p. cc)

tables-IsValid : IsValid tables
tables-IsValid = record {
  pubkeys = (refl, (refl, tt));
  ids = (refl, (refl, tt));
  ids_below = (omega arith, (omega arith, tt));
  owners = (refl, (refl, tt));
  owners_below = (omega arith, (omega arith, tt));
}

run_call-IsValid_example : IsValid (run_call linked (signup 777 9) tables).1
run_call-IsValid_example = run_call-IsValid linked (signup 777 9) tables tables-IsValid

signup_once_example :
    let (r, t') = signup_user_transaction linked 777 9 tables in
    (r ≡ ok tt)
    × (get_miner_by_pubkey_str linked 777 t'
        ≡ (ok (record { id = 20; pubkey = 777; enabled = true }), t'))
    × (get_miner_rewards linked 777 t' ≡ (ok (record { miner_id = 20; balance = 0 }), t'))
    × (signup_user_transaction linked 777 9 t' ≡ (err query_failed, t'))
signup_once_example = signup_once 777 9 pool tables tables-IsValid refl refl
