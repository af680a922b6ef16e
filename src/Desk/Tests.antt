-- ===== src/Desk/Tests.antt =====
-- A claim from its request to the debit, and the theorems at it.
use bitz_pool.Common.{◌-◌, ◌≤◌, ◌≡◌, refl, true, some, [], ◌∷◌, arith, false}
use bitz_pool.Common.Map.{get}
use bitz_pool.State.{ClaimsQueueItem}
use bitz_pool.Database.Tables.{Reward, Tables}
use bitz_pool.Database.Link.{linked, ok}
use bitz_pool.Database.Miners.{get_miner_by_pubkey_str, get_pool_by_authority_pubkey}
use bitz_pool.Database.Ledger.{get_miner_rewards, get_last_claim, decrease_miner_reward}
use bitz_pool.Database.Valid.{IsValid}
use bitz_pool.Claims.{ui_amount, is_cooling_down, check_queue}
use bitz_pool.Claims.Worker.{Outside, instructions, send, confirmed}
use bitz_pool.Desk.{
  Desk, Reached, opened, then_step, arrives, asked, picked, worked, Request, Paid, checking_queue,
  answered, decreasing, inserting, reading_rewards, reading_claim, asking_balance, request_stage,
  worker_stage, paying_stage, reward_of, WithoutDirect,
}
use bitz_pool.Desk.Alone.{run_request}
use bitz_pool.Desk.Covered.{Reached-covers}
use bitz_pool.Desk.Overlap.{overlapping-sticks}
use bitz_pool.Claims.{success, check_rewards}
use bitz_pool.Claims.Worker.{until_ok}
use bitz_pool.Database.Link.{Link}
use bitz_pool.Common.{List, none}
use bitz_pool.Samples.{around, tables, miner, pool, reward}

abbrev DeskRun : Type 0
DeskRun = (x : Desk) × Reached 9 x

tables-IsValid : IsValid tables
tables-IsValid = record {
  pubkeys = (refl, (refl, tt));
  ids = (refl, (refl, tt));
  ids_below = (omega arith, (omega arith, tt));
  owners = (refl, (refl, tt));
  owners_below = (omega arith, (omega arith, tt));
}

abbrev item : ClaimsQueueItem
item = record { receiver_pubkey = 600; amount = 3000000000 }

-- The stage of the request of miner 501 that stands there.
abbrev asked_at : (v : DeskRun) (r : Request) → get 501 v.0.requests ≡ some r → DeskRun
asked_at (x, v) r at = (_, then_step x _ v (asked 2000 linked ui_amount 501 r x at))

abbrev outside : Outside
outside = record {
  now = 2000;
  token = ui_amount;
  has_blockhash = true;
  answers = some 77 ∷ [];
  polls = record { elapsed = 20; status = some (record { finalized = true; failed = false }) } ∷ [];
}

abbrev worked_at : DeskRun → DeskRun
worked_at (x, v) = (_, then_step x _ v (worked linked outside x))

arrived : DeskRun
arrived = (_, then_step _ _ (opened tables tables-IsValid) (arrives 501 item _ refl))

queued_run : DeskRun
unfolding arrived request_stage get_miner_rewards is_cooling_down get_last_claim
queued_run =
    asked_at
      (asked_at
        (asked_at
          (asked_at (asked_at arrived (checking_queue item) refl) (reading_rewards item) refl)
          (reading_claim item reward) refl)
        (asking_balance item) refl)
      (inserting item) refl

paid_run : DeskRun
unfolding queued_run arrived request_stage get_miner_rewards is_cooling_down get_last_claim
paid_run =
    let (x, v) = queued_run in
    worked_at (worked_at (worked_at (_, then_step x _ v (picked 501 item x refl refl))))

abbrev paid : Paid
paid = record { miner_pubkey = 501; item = item; signature = 77 }

decreases : paid_run.0.worker ≡ decreasing paid miner pool
unfolding paid_run queued_run arrived request_stage worker_stage paying_stage instructions send
    confirmed get_miner_rewards is_cooling_down get_last_claim get_miner_by_pubkey_str
    get_pool_by_authority_pubkey
decreases = refl

paid_run_queued : WithoutDirect paid_run.1
unfolding paid_run queued_run arrived
paid_run_queued = ground arith

Reached-covers_example :
    (row : Reward) × (t : Tables) × (reward_of 501 paid_run.0.tables ≡ some row)
    × (3000000000 ≤ row.balance)
    × (decrease_miner_reward linked
          (record { miner_id = 11; balance = 3000000000 })
          paid_run.0.tables
        ≡ (ok tt, t))
    × (reward_of 501 t ≡ some (record row { balance = row.balance - 3000000000 }))
Reached-covers_example =
    Reached-covers 9 paid_run.0 paid miner pool paid_run.1 paid_run_queued decreases

abbrev large : ClaimsQueueItem
large = record { receiver_pubkey = 600; amount = 4000000000 }

large_is_accepted : check_queue around [] 501 4000000000 ≡ success
unfolding check_queue check_rewards is_cooling_down get_miner_rewards get_last_claim
large_is_accepted = refl

overlapping-sticks_example :
    (t : Tables) × (run_request
        (linked ∷ linked ∷ linked ∷ linked ∷ [])
        around
        501
        (checking_queue large)
        []
      ≡ (inserting large, []))
    × (run_request
          (linked ∷ linked ∷ linked ∷ linked ∷ linked ∷ [])
          around
          501
          (checking_queue large)
          []
        ≡ (answered success, (501, large) ∷ []))
    × (decrease_miner_reward linked (record { miner_id = 11; balance = 4000000000 }) tables
        ≡ (ok tt, t))
    × (request_stage 2000 linked ui_amount 501 (inserting large) [] t
        ≡ (answered success, (501, large) ∷ []))
    × ((links : List Link)
        → until_ok
            (λ link. decrease_miner_reward link (record { miner_id = 11; balance = 4000000000 }))
            (links, t)
          ≡ none)
overlapping-sticks_example =
    overlapping-sticks around 501 large large miner reward linked linked linked tables-IsValid refl
      refl large_is_accepted large_is_accepted (omega arith)
