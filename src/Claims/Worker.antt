-- ===== src/Claims/Worker.antt =====
-- The worker that pays the queued claims: src/systems/claim_system.rs.
pub mod Steps
pub mod Settled
pub mod Turn
use bitz_pool.Common.{
  ◌>>=◌, ℕ, suc, ◌-◌, Bool, true, false, Option, none, some, List, [], ◌∷◌, ◌++◌, if◌then◌else◌,
  ltb, leb,
}
use bitz_pool.Common.Map.{remove}
use bitz_pool.State.{ClaimsQueueItem}
use bitz_pool.Database.Tables.{Tables, UpdateReward, InsertTxn, InsertClaim}
use bitz_pool.Database.Link.{Link, Result, ok, err}
use bitz_pool.Database.Miners.{get_miner_by_pubkey_str, get_pool_by_authority_pubkey}
use bitz_pool.Database.Ledger.{
  decrease_miner_reward, update_pool_claimed, add_new_txn, get_txn_by_sig, add_new_claim,
}
use bitz_pool.Rpc.{Status, Poll}
use bitz_pool.Rewards.Batches.{Session, once}
use bitz_pool.Claims.{Queue, TokenBalance, needs_ata, ata_fee}

-- The instructions of a claim's transaction.
pub data Ix : Type 0 where
  set_compute_unit_price : ℕ → Ix
  create_associated_token_account : ℕ → Ix
  claim_ix : ℕ → ℕ → Ix

-- `if claim_amount > 0`
abbrev pub claim_ixs : ℕ → ℕ → List Ix
claim_ixs receiver claim_amount =
    if ltb 0 claim_amount then claim_ix receiver claim_amount ∷ [] else []

-- The amount that is paid: without the cost of a new token account. `none` is too little for it.
unfoldable pub claim_amount_of : Bool → ℕ → Option ℕ
claim_amount_of true amount = if leb ata_fee amount then some (amount - ata_fee) else none
claim_amount_of false amount = some amount

unfoldable pub instructions : TokenBalance → ClaimsQueueItem → Option (List Ix)
unfolding claim_amount_of
instructions token item =
    let create = needs_ata token in
    elim (claim_amount_of create item.amount) [
      | none ↦ none
      | some claim_amount ↦ some (
          set_compute_unit_price 0
          ∷ ((if create then create_associated_token_account item.receiver_pubkey ∷ [] else [])
              ++ claim_ixs item.receiver_pubkey claim_amount))
    ]

-- The loop that sends: five attempts at most. `some none` is giving up, and `none` is a loop that
-- is still running at the end of the answers.
unfoldable pub send : ℕ → List (Option ℕ) → Option (Option ℕ)
send attempts [] = none
send attempts (some sig ∷ answers) = some (some sig)
send attempts (none ∷ answers) =
    let rest = send (suc attempts) answers in if leb 5 (suc attempts) then some none else rest

-- Whether the transaction is confirmed: it failed or expired, or is final.
unfoldable pub confirmed : List Poll → Option Bool
confirmed [] = none
confirmed (p ∷ polls) =
    let rest = confirmed polls in
    if leb 120 p.elapsed then some false else elim p.status [
      | none ↦ rest
      | some s ↦ if s.finalized then (if s.failed then some false else some true) else rest
    ]

-- `while let Err(_) = op.await { .. }`, with the value of the call that succeeds. `none` is a loop
-- that is still running when the links end.
unfoldable pub until_ok :
    {A : Type 0} → (Link → Tables → Result A × Tables) → Session → Option (A × Session)
until_ok op ([], t) = none
until_ok op (link ∷ links, t) = elim (op link t).0 [
  | ok a ↦ some (a, (links, (op link t).1))
  | err _ ↦ until_ok op (links, (op link t).1)
]

-- `op.await.unwrap()`: `none` is the panic.
unfoldable pub unwrapped :
    {A : Type 0} → (Link → Tables → Result A × Tables) → Session → Option (A × Session)
unwrapped op ([], t) = none
unwrapped op (link ∷ links, t) = elim (op link t).0 [
  | ok a ↦ some (a, (links, (op link t).1))
  | err _ ↦ none
]

-- The database's part of a confirmed claim, call by call.
unfoldable pub settle : ℕ → ℕ → ℕ → ClaimsQueueItem → ℕ → Session → Option Session
unfolding until_ok unwrapped
settle authority now miner_pubkey item sig s = do
  a ← unwrapped (λ link. get_miner_by_pubkey_str link miner_pubkey) s
  b ← unwrapped (λ link. get_pool_by_authority_pubkey link authority) a.1
  c ←
      until_ok
        (λ link. decrease_miner_reward link (record { miner_id = a.0.id; balance = item.amount }))
        b.1
  d ← until_ok (λ link. update_pool_claimed link authority item.amount) c.1
  e ←
      until_ok
        (λ link.
          add_new_txn link (record { txn_type = "claim"; signature = sig; priority_fee = 0 }))
        d.1
  f ← until_ok (λ link. get_txn_by_sig link sig) e.1
  g ←
      until_ok
        (λ link.
          add_new_claim link now
            (record { miner_id = a.0.id; pool_id = b.0.id; txn_id = f.0.id; amount = item.amount }))
        f.1
  some g.1

-- What one turn of the loop meets outside.
pub record Outside : Type 0 where
  pub now : ℕ
  pub token : TokenBalance
  pub has_blockhash : Bool
  pub answers : List (Option ℕ)
  pub polls : List Poll

pub data Outcome : Type 0 where
  idle : Outcome
  not_enough : Outcome
  no_blockhash : Outcome
  unsent : Outcome
  unconfirmed : Outcome
  paid : List Ix → Outcome

-- A transaction that is sent: wait for it, then settle the claim and take it out of the queue. One
-- that fails or expires stays in the queue.
unfoldable pub finish_claim :
    ℕ
    → Outside
    → ℕ
    → ClaimsQueueItem
    → List Ix
    → ℕ
    → Queue
    → Session
    → Option (Outcome × (Queue × Session))
unfolding confirmed settle
finish_claim authority o miner_pubkey item ixs sig queue s = do
  good ← confirmed o.polls
  elim good [
    | false ↦ some (unconfirmed, (queue, s))
    | true ↦ elim (settle authority o.now miner_pubkey item sig s) [
      | none ↦ none
      | some s' ↦ some (paid ixs, (remove miner_pubkey queue, s'))
    ]
  ]

-- One turn of the worker. The first item of the iteration is the claim; one that has too little
-- for its account, or finds no blockhash, is taken out of the queue unpaid.
unfoldable pub claim_turn : ℕ → Outside → Queue → Session → Option (Outcome × (Queue × Session))
unfolding instructions send finish_claim
claim_turn authority o [] s = some (idle, ([], s))
claim_turn authority o ((miner_pubkey, item) ∷ rest) s =
    let queue = (miner_pubkey, item) ∷ rest in
    elim (instructions o.token item) [
      | none ↦ some (not_enough, (remove miner_pubkey queue, s))
      | some ixs ↦ elim o.has_blockhash [
        | false ↦ some (no_blockhash, (remove miner_pubkey queue, s))
        | true ↦ elim (send 0 o.answers) [
          | none ↦ none
          | some none ↦ some (unsent, (queue, s))
          | some (some sig) ↦ finish_claim authority o miner_pubkey item ixs sig queue s
        ]
      ]
    ]
