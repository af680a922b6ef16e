-- ===== src/Start/Tests.antt =====
-- A start on a database that has neither the pool nor the receiver of the commission.
use bitz_pool.Common.{ℕ, ◌≡◌, some, [], arith}
use bitz_pool.State.{init}
use bitz_pool.Database.Tables.{Tables}
use bitz_pool.Database.Valid.{IsValid}
use bitz_pool.Start.{Config, value, start}
use bitz_pool.Start.Parts.{linked_for}
use bitz_pool.Start.Prepared.{IsPrepared, start-prepares}
use bitz_pool.Samples.{proof}

abbrev empty_tables : Tables
empty_tables = record {
  next_id = 1;
  miners = [];
  rewards = [];
  pools = [];
  challenges = [];
  earnings = [];
  submissions = [];
  txns = [];
  claims = [];
}

start-prepares_example :
    (config : Config) × (m : ℕ) × (t' : Tables) × (start
        (some 500000)
        (some proof)
        900
        901
        600
        (linked_for 8, empty_tables)
      ≡ some (value (config, init proof) (linked_for m, t')))
    × IsValid t'
    × IsPrepared 900 600 proof.challenge config t'
    × (start (some 500000) (some proof) 900 901 600 (linked_for 4, t')
        ≡ some (value (config, init proof) ([], t')))
start-prepares_example =
    start-prepares 500000 900 901 600 proof empty_tables (omega arith)
      (record { pubkeys = tt; ids = tt; ids_below = tt; owners = tt; owners_below = tt })
