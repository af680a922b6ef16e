-- ===== src/Routes/Tests.antt =====
-- The routes on the sample replica.
use bitz_pool.Common.{◌≡◌, refl, true, false, some, arith}
use bitz_pool.Database.Link.{linked}
use bitz_pool.Database.Valid.{IsValid}
use bitz_pool.Claims.{check_rewards}
use bitz_pool.Replica
use bitz_pool.Auth.{count_of}
use bitz_pool.Routes.{json, failure, get_connected_miners, get_miner_rewards, get_miner_last_claim}
use bitz_pool.Routes.Answers.{forecast, check_rewards-forecast}
use bitz_pool.Samples.{around, tables, replica, sockets}

tables-IsValid : IsValid tables
tables-IsValid = record {
  pubkeys = (refl, (refl, tt));
  ids = (refl, (refl, tt));
  ids_below = (omega arith, (omega arith, tt));
  owners = (refl, (refl, tt));
  owners_below = (omega arith, (omega arith, tt));
}

check_rewards-forecast_example :
    check_rewards around 501 3000000000
    ≡ forecast 2000 around.token 3000000000
        (get_miner_rewards linked (some 501) replica)
        (get_miner_last_claim true linked (some 501) replica)
check_rewards-forecast_example =
    check_rewards-forecast around replica 501 3000000000 tables-IsValid refl refl refl refl refl

balance_shown : get_miner_rewards linked (some 501) replica ≡ json 7000000000
unfolding get_miner_rewards Replica.get_miner_rewards
balance_shown = refl

stats_disabled :
    get_miner_last_claim false linked (some 501) replica
    ≡ failure "Stats not enabled for this server."
unfolding get_miner_last_claim
stats_disabled = refl

miners_connected :
    get_connected_miners (some (some 501)) sockets ≡ record { status = 200; body = some 1 }
unfolding get_connected_miners count_of
miners_connected = refl
