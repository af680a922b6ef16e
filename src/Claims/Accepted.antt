-- ===== src/Claims/Accepted.antt =====
-- Which claims `post_claim_v2` accepts.
use bitz_pool.Common.{
  ℕ, ◌+◌, ◌≤◌, ◌<◌, ◌≡◌, ◌≢◌, ◌⊎◌, inl, inr, refl, ap, ap₂, sym, ◌∙◌, true, false, some, arith,
  Option-cases,
}
use bitz_pool.Common.Map.{insert, contains_key}
use bitz_pool.Common.Word.{u64_mod, sub_u64}
use bitz_pool.State.{ClaimsQueueItem}
use bitz_pool.Database.Tables.{Reward, Claim}
use bitz_pool.Database.Link.{Result, ok, err, AppDatabaseError}
use bitz_pool.Database.Ledger.{get_miner_rewards, get_last_claim}
use bitz_pool.Claims.{
  Queue, Crypto, ClaimParamsV2, Reply, success, rejected, ClaimError, signed_msg, is_cooling_down,
  Around, check_rewards, check_queue, enqueue, submit_claim, post_claim_v2,
}

-- The miner's last claim, if it can be read, is more than half an hour ago.
abbrev pub HasWaited : Around → ℕ → Type 0
HasWaited w miner_id =
    (c : Claim)
    → (get_last_claim w.claims_link miner_id w.tables).0 ≡ ok c
    → c.created_at + 1800 < w.now

-- The miner has rewards that cover the amount, and has waited.
abbrev pub IsCovered : Around → ℕ → ℕ → Type 0
IsCovered w miner amount =
    (r : Reward) × ((get_miner_rewards w.rewards_link miner w.tables).0 ≡ ok r)
    × (amount ≤ r.balance)
    × HasWaited w r.miner_id

pub Result-cases :
    {A : Type 0} (r : Result A) → ((a : A) × (r ≡ ok a)) ⊎ ((e : AppDatabaseError) × (r ≡ err e))
Result-cases (ok a) = inl (a, refl)
Result-cases (err e) = inr (e, refl)

ok-injective : {A : Type 0} (d a b : A) → ok a ≡ ok b → a ≡ b
ok-injective d a b = ap (λ r. elim r [ ok x ↦ x | err _ ↦ d ])

waited :
    (w : Around) (miner_id : ℕ)
    → is_cooling_down w.now w.claims_link miner_id w.tables ≡ false
    → HasWaited w miner_id
unfolding is_cooling_down
waited w miner_id h c e = ground arith

not_cooling :
    (w : Around) (miner_id : ℕ)
    → HasWaited w miner_id
    → is_cooling_down w.now w.claims_link miner_id w.tables ≡ false
unfolding is_cooling_down
not_cooling w miner_id h = elim (Result-cases (get_last_claim w.claims_link miner_id w.tables).0) [
  | inl (c, e) ↦ ground (arith, h c e)
  | inr (x, e) ↦ ground arith
]

covered :
    (w : Around) (miner amount : ℕ)
    → check_rewards w miner amount ≡ success
    → IsCovered w miner amount
unfolding check_rewards
covered w miner amount h = elim (Result-cases (get_miner_rewards w.rewards_link miner w.tables).0) [
  | inl (r, e) ↦ (r, e, ground arith, waited w r.miner_id (ground arith))
  | inr (x, e) ↦ absurd (ground arith)
]

check_success :
    (w : Around) (miner amount : ℕ)
    → 2000000000 ≤ amount
    → IsCovered w miner amount
    → check_rewards w miner amount ≡ success
unfolding check_rewards
check_success w miner amount enough (r, e, le, wait) =
    let cool = not_cooling w r.miner_id wait in ground arith

-- What a claim needs: its keys and its signature parse, the signature is that of the miner on the
-- claim, it is not from the future and less than 30 seconds old, the miner has no claim in the
-- queue, and the amount is the minimum at least and covered.
pub record IsAcceptable (crypto : Crypto) (w : Around) (params : ClaimParamsV2) (queue : Queue)
    : Type 0 where
  pub receiver : ℕ
  pub miner : ℕ
  pub signature : ℕ
  pub receiver_parses : params.receiver_pubkey ≡ some receiver
  pub miner_parses : params.miner_pubkey ≡ some miner
  pub signature_parses : params.signature ≡ some signature
  pub verifies :
      crypto.verify signature miner (signed_msg crypto params.timestamp receiver params.amount)
      ≡ true
  pub past : params.timestamp ≤ w.now
  pub recent : w.now < params.timestamp + 30
  pub not_queued : contains_key miner queue ≡ false
  pub minimum : 2000000000 ≤ params.amount
  pub is_covered : IsCovered w miner params.amount

-- The item that a claim puts into the queue.
abbrev pub item_of : ClaimParamsV2 → ℕ → ClaimsQueueItem
item_of params receiver = record { receiver_pubkey = receiver; amount = params.amount }

Reply-cases : (r : Reply) → (r ≡ success) ⊎ ((e : ClaimError) × (r ≡ rejected e))
Reply-cases success = inl refl
Reply-cases (rejected e) = inr (e, refl)

success≢rejected : (e : ClaimError) → success ≢ rejected e
success≢rejected e h = cc

module _ (crypto : Crypto) (w : Around) (params : ClaimParamsV2) (queue : Queue) where
  accepts :
      (a : IsAcceptable crypto w params queue)
      → post_claim_v2 crypto w params queue
        ≡ (success, insert a.miner (item_of params a.receiver) queue)
  unfolding post_claim_v2 submit_claim check_queue enqueue
  accepts a =
      let good : check_rewards w a.miner params.amount ≡ success =
        check_success w a.miner params.amount a.minimum a.is_covered in
      ground arith

  enqueue-success :
      (r : Reply) (miner : ℕ) (item : ClaimsQueueItem)
      → (enqueue r miner item queue).0 ≡ success
      → r ≡ success
  unfolding enqueue
  enqueue-success success miner item h = refl
  enqueue-success (rejected e) miner item h = h

  acceptable :
      (receiver miner signature : ℕ)
      → w.now < u64_mod
      → 30 ≤ w.now
      → params.timestamp < u64_mod
      → sub_u64 w.now params.timestamp < 30
      → params.receiver_pubkey ≡ some receiver
      → params.miner_pubkey ≡ some miner
      → params.signature ≡ some signature
      → (submit_claim crypto w params receiver miner queue).0 ≡ success
      → IsAcceptable crypto w params queue
  unfolding submit_claim check_queue
  acceptable receiver miner signature now_fits late ts_fits fresh p q r h =
      let verifies : crypto.verify signature miner
            (signed_msg crypto params.timestamp receiver params.amount)
          ≡ true =
        ground arith in
      let good : check_queue w queue miner params.amount ≡ success =
        enqueue-success (check_queue w queue miner params.amount) miner (item_of params receiver)
          (ground arith) in
      record {
        receiver = receiver;
        miner = miner;
        signature = signature;
        receiver_parses = p;
        miner_parses = q;
        signature_parses = r;
        verifies = verifies;
        past = omega arith;
        recent = omega arith;
        not_queued = ground arith;
        minimum = ground arith;
        is_covered = covered w miner params.amount (ground arith);
      }

  accepted :
      w.now < u64_mod
      → 30 ≤ w.now
      → params.timestamp < u64_mod
      → (post_claim_v2 crypto w params queue).0 ≡ success
      → IsAcceptable crypto w params queue
  unfolding post_claim_v2 submit_claim
  accepted now_fits late ts_fits h = elim (Option-cases params.receiver_pubkey) [
    | inl p ↦ absurd (ground arith)
    | inr (receiver, p) ↦ elim (Option-cases params.miner_pubkey) [
      | inl q ↦ absurd (ground arith)
      | inr (miner, q) ↦ elim (Option-cases params.signature) [
        | inl r ↦ absurd (ground arith)
        | inr (signature, r) ↦
            acceptable receiver miner signature now_fits late ts_fits (ground arith) p q r
              (ground arith)
      ]
    ]
  ]

  refused :
      (e : ClaimError)
      → (post_claim_v2 crypto w params queue).0 ≡ rejected e
      → (post_claim_v2 crypto w params queue).1 ≡ queue
  unfolding post_claim_v2 submit_claim check_queue enqueue
  refused e h = ground arith

-- Away from the ends of the 64-bit range, a claim is queued, with its whole amount and for the
-- receiver that was signed, exactly if it is acceptable; any other leaves the queue as it was and
-- gets a reason.
pub post_claim_v2-decides :
    (crypto : Crypto) (w : Around) (params : ClaimParamsV2) (queue : Queue)
    → w.now < u64_mod
    → 30 ≤ w.now
    → params.timestamp < u64_mod
    → ((a : IsAcceptable crypto w params queue) × (post_claim_v2 crypto w params queue
          ≡ (success, insert a.miner (item_of params a.receiver) queue)))
      ⊎ ((¬ IsAcceptable crypto w params queue)
          × (e : ClaimError) × (post_claim_v2 crypto w params queue ≡ (rejected e, queue)))
post_claim_v2-decides crypto w params queue now_fits late ts_fits =
    elim (Reply-cases (post_claim_v2 crypto w params queue).0) [
      | inl e ↦
          let a = accepted crypto w params queue now_fits late ts_fits e in
          inl (a, accepts crypto w params queue a)
      | inr (x, e) ↦ inr (
        (λ a. success≢rejected x (ap (λ p. p.0) (sym (accepts crypto w params queue a)) ∙ e)),
        x,
        ap₂ (λ r q. (r, q)) e (refused crypto w params queue x e),
      )
    ]
