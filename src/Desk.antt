-- ===== src/Desk.antt =====
-- Claims as they run beside each other: the requests of `post_claim_v2` and of `claim_direct`
-- (src/utils.rs), stage by stage, the worker of src/systems/claim_system.rs, stage by stage, and what else writes to the
-- database. A stage is what happens under one lock of the queue, or is one call of the database or
-- of the RPC.
pub mod Alone
pub mod Rows
pub mod Sound
pub mod Asked
pub mod Debited
pub mod Worked
pub mod Covered
pub mod Overlap
pub mod Payout
mod Tests
use bitz_pool.Common.{
  ℕ, ◌-◌, ◌≤◌, ◌≡◌, Option, none, some, List, [], ◌∷◌, Bool, true, false, ltb, leb, if◌then◌else◌,
  ◌==◌,
}
use bitz_pool.Common.Map.{HashMap, get, insert, remove, contains_key}
use bitz_pool.State.{ClaimsQueueItem}
use bitz_pool.Database.Tables.{Miner, Pool, Reward, Tables}
use bitz_pool.Database.Link.{Link, Result, ok, err, find}
use bitz_pool.Database.Miners.{get_miner_by_pubkey_str, get_pool_by_authority_pubkey}
use bitz_pool.Database.Ledger.{
  get_miner_rewards, decrease_miner_reward, update_pool_claimed, add_new_txn, get_txn_by_sig,
  add_new_claim,
}
use bitz_pool.Database.Valid.{IsValid}
use bitz_pool.Claims.{
  Queue, TokenBalance, Reply, success, rejected, queued, below_minimum, no_miner_account,
  exceeds_balance, cooldown, not_enough_for_ata, minimum_claim, ata_fee, needs_ata, lacks_ata,
  is_cooling_down,
}
use bitz_pool.Claims.Worker.{Outside, instructions, send, confirmed}
use bitz_pool.Replica.{is_of}

-- A request of `post_claim_v2` whose signature is verified, or of `claim_direct` for a valid key;
-- both end by inserting the claim.
pub data Request : Type 0 where
  checking_queue : ClaimsQueueItem → Request
  reading_rewards : ClaimsQueueItem → Request
  reading_claim : ClaimsQueueItem → Reward → Request
  asking_balance : ClaimsQueueItem → Request
  inserting : ClaimsQueueItem → Request
  -- `claim_direct`, with the row of the rewards that it has read
  direct_rewards : Request
  direct_claim : Reward → Request
  direct_balance : Reward → Request
  answered : Reply → Request

-- A stage of the request of a miner. The RPC answers `token`.
unfoldable pub request_stage :
    ℕ → Link → TokenBalance → ℕ → Request → Queue → Tables → Request × Queue
unfolding get_miner_rewards is_cooling_down
request_stage now link token miner (checking_queue item) queue t = (
  (if contains_key miner queue
      then answered (rejected queued)
      else if ltb item.amount minimum_claim
      then answered (rejected below_minimum)
      else reading_rewards item),
  queue,
)
request_stage now link token miner (reading_rewards item) queue t = (
  elim (get_miner_rewards link miner t).0 [
    | err _ ↦ answered (rejected no_miner_account)
    | ok miner_rewards ↦
        if ltb miner_rewards.balance item.amount
        then answered (rejected exceeds_balance)
        else reading_claim item miner_rewards
  ],
  queue,
)
request_stage now link token miner (reading_claim item miner_rewards) queue t = (
  (if is_cooling_down now link miner_rewards.miner_id t
      then answered (rejected cooldown)
      else asking_balance item),
  queue,
)
request_stage now link token miner (asking_balance item) queue t = (
  (if needs_ata token
      then (if leb ata_fee item.amount
          then inserting item
          else answered (rejected not_enough_for_ata))
      else inserting item),
  queue,
)
request_stage now link token miner direct_rewards queue t = (
  elim (get_miner_rewards link miner t).0 [
    | err _ ↦ answered (rejected no_miner_account)
    | ok miner_rewards ↦
        if ltb miner_rewards.balance minimum_claim
        then answered (rejected below_minimum)
        else direct_claim miner_rewards
  ],
  queue,
)
request_stage now link token miner (direct_claim miner_rewards) queue t = (
  (if is_cooling_down now link miner_rewards.miner_id t
      then answered (rejected cooldown)
      else direct_balance miner_rewards),
  queue,
)
request_stage now link token miner (direct_balance miner_rewards) queue t =
    let claim_amount = miner_rewards.balance in
    (
      (if lacks_ata token
          then (if leb ata_fee claim_amount
              then inserting (record { receiver_pubkey = miner; amount = claim_amount - ata_fee })
              else answered (rejected not_enough_for_ata))
          else inserting (record { receiver_pubkey = miner; amount = claim_amount })),
      queue,
    )
request_stage now link token miner (inserting item) queue t =
    (answered success, insert miner item queue)
request_stage now link token miner (answered reply) queue t = (answered reply, queue)

-- A claim whose transaction is final.
pub record Paid : Type 0 where
  pub miner_pubkey : ℕ
  pub item : ClaimsQueueItem
  pub signature : ℕ

pub data Worker : Type 0 where
  looking : Worker
  paying : ℕ → ClaimsQueueItem → Worker
  getting_miner : Paid → Worker
  getting_pool : Paid → Miner → Worker
  decreasing : Paid → Miner → Pool → Worker
  adding_claimed : Paid → Miner → Pool → Worker
  adding_txn : Paid → Miner → Pool → Worker
  getting_txn : Paid → Miner → Pool → Worker
  adding_claim : Paid → Miner → Pool → ℕ → Worker
  removing : ℕ → Worker
  panicked : Worker

-- From the instructions to the final transaction; answers that end too early move nothing.
unfoldable pub paying_stage : Outside → ℕ → ClaimsQueueItem → Worker
unfolding instructions send confirmed
paying_stage o miner item = elim (instructions o.token item) [
  | none ↦ removing miner
  | some ixs ↦
      if o.has_blockhash
      then (elim (send 0 o.answers) [
        | none ↦ paying miner item
        | some none ↦ looking
        | some (some sig) ↦ elim (confirmed o.polls) [
          | none ↦ paying miner item
          | some false ↦ looking
          | some true ↦
              getting_miner (record { miner_pubkey = miner; item = item; signature = sig })
        ]
      ])
      else removing miner
]

-- What a `while let Err(_)` does with the result of its call: go on, or stay.
abbrev pub on_ok : {A : Type 0} → Result A × Tables → Worker → (A → Worker) → Worker × Tables
on_ok (ok a, t) stay next = (next a, t)
on_ok (err e, t) stay next = (stay, t)

-- A stage of the worker on the database; the two stages on the queue are steps of their own.
unfoldable pub worker_stage : ℕ → Link → Outside → Worker → Tables → Worker × Tables
unfolding paying_stage
worker_stage authority link o (paying miner item) t = (paying_stage o miner item, t)
worker_stage authority link o (getting_miner p) t =
    on_ok (get_miner_by_pubkey_str link p.miner_pubkey t) panicked (λ m. getting_pool p m)
worker_stage authority link o (getting_pool p m) t =
    on_ok (get_pool_by_authority_pubkey link authority t) panicked (λ pool. decreasing p m pool)
worker_stage authority link o (decreasing p m pool) t =
    on_ok (decrease_miner_reward link (record { miner_id = m.id; balance = p.item.amount }) t)
      (decreasing p m pool) (λ _. adding_claimed p m pool)
worker_stage authority link o (adding_claimed p m pool) t =
    on_ok (update_pool_claimed link authority p.item.amount t) (adding_claimed p m pool)
      (λ _. adding_txn p m pool)
worker_stage authority link o (adding_txn p m pool) t =
    on_ok
      (add_new_txn link (record { txn_type = "claim"; signature = p.signature; priority_fee = 0 })
        t)
      (adding_txn p m pool) (λ _. getting_txn p m pool)
worker_stage authority link o (getting_txn p m pool) t =
    on_ok (get_txn_by_sig link p.signature t) (getting_txn p m pool)
      (λ txn. adding_claim p m pool txn.id)
worker_stage authority link o (adding_claim p m pool txn_id) t =
    on_ok
      (add_new_claim link o.now
        (record { miner_id = m.id; pool_id = pool.id; txn_id = txn_id; amount = p.item.amount }) t)
      (adding_claim p m pool txn_id) (λ _. removing p.miner_pubkey)
worker_stage authority link o w t = (w, t)

-- The requests that are in progress, at most one of a miner.
pub record Desk : Type 0 where
  pub queue : Queue
  pub tables : Tables
  pub requests : HashMap Request
  pub worker : Worker

-- The row that `get_miner_rewards` selects.
abbrev pub reward_of : ℕ → Tables → Option Reward
reward_of miner t = find (λ r. is_of miner t.miners r.miner_id) t.rewards

-- What the rest of the server may do to the database: it keeps the keys distinct, a miner keeps its
-- row, and no balance gets less.
pub record Keeps (t t' : Tables) : Type 0 where
  pub valid : IsValid t → IsValid t'
  pub miners :
      (k : ℕ) (m : Miner)
      → find (λ x. x.pubkey == k) t.miners ≡ some m
      → find (λ x. x.pubkey == k) t'.miners ≡ some m
  pub balances :
      (k : ℕ) (r : Reward)
      → reward_of k t ≡ some r
      → (r' : Reward) × (reward_of k t' ≡ some r') × (r.balance ≤ r'.balance)

pub data Step (authority : ℕ) : Desk → Desk → Type 0 where
  -- the next request of a miner that has none in progress
  arrives :
      (miner : ℕ) (item : ClaimsQueueItem) (x : Desk)
      → get miner x.requests ≡ none
      → Step authority x (record x { requests = insert miner (checking_queue item) x.requests })
  -- a request of `claim_direct`
  arrives_direct :
      (miner : ℕ) (x : Desk)
      → get miner x.requests ≡ none
      → Step authority x (record x { requests = insert miner direct_rewards x.requests })
  asked :
      (now : ℕ) (link : Link) (token : TokenBalance) (miner : ℕ) (r : Request) (x : Desk)
      → get miner x.requests ≡ some r
      → Step authority x (record x {
        requests =
            insert miner (request_stage now link token miner r x.queue x.tables).0 x.requests;
        queue = (request_stage now link token miner r x.queue x.tables).1;
      })
  leaves :
      (miner : ℕ) (reply : Reply) (x : Desk)
      → get miner x.requests ≡ some (answered reply)
      → Step authority x (record x { requests = remove miner x.requests })
  -- the worker takes any entry of the map
  picked :
      (miner : ℕ) (item : ClaimsQueueItem) (x : Desk)
      → x.worker ≡ looking
      → get miner x.queue ≡ some item
      → Step authority x (record x { worker = paying miner item })
  worked :
      (link : Link) (o : Outside) (x : Desk)
      → Step authority x (record x {
        worker = (worker_stage authority link o x.worker x.tables).0;
        tables = (worker_stage authority link o x.worker x.tables).1;
      })
  removed :
      (miner : ℕ) (x : Desk)
      → x.worker ≡ removing miner
      → Step authority x (record x { queue = remove miner x.queue; worker = looking })
  others : (t : Tables) (x : Desk) → Keeps x.tables t → Step authority x (record x { tables = t })

-- No request of `claim_direct` arrives.
abbrev pub IsNotDirect : {authority : ℕ} {x y : Desk} → Step authority x y → Type 0
IsNotDirect (arrives_direct miner x free) = ⊥
IsNotDirect _ = Unit

pub data Reached (authority : ℕ) : Desk → Type 0 where
  opened :
      (t : Tables)
      → IsValid t
      → Reached authority (record { queue = []; tables = t; requests = []; worker = looking })
  then_step : (x y : Desk) → Reached authority x → Step authority x y → Reached authority y

abbrev pub WithoutDirect : {authority : ℕ} {x : Desk} → Reached authority x → Type 0
WithoutDirect (opened t valid) = Unit
WithoutDirect (then_step x y r st) = WithoutDirect r × IsNotDirect st
