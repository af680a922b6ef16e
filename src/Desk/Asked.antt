-- ===== src/Desk/Asked.antt =====
-- The stages of a request keep the invariant.
use bitz_pool.Common.{
  ℕ, ◌≡◌, refl, sym, subst, inl, inr, Bool, Bool-cases, true, false, Option-cases, none, some, ◌==◌,
  ==_iff, ltb, leb, arith, if◌then◌else◌,
}
use bitz_pool.Common.Map.{get, insert, contains_key, get-insert}
use bitz_pool.State.{ClaimsQueueItem}
use bitz_pool.Database.Tables.{Reward, Tables}
use bitz_pool.Database.Link.{
  Result, Link, ok, err, no_connection, no_interaction, server_error, linked,
}
use bitz_pool.Database.Ledger.{get_miner_rewards}
use bitz_pool.Claims.{
  Reply, success, rejected, exceeds_balance, Queue, TokenBalance, needs_ata, ata_fee,
  is_cooling_down, minimum_claim,
}
use bitz_pool.Desk.{
  Request, checking_queue, reading_rewards, reading_claim, asking_balance, inserting, answered,
  direct_rewards, direct_claim, direct_balance, request_stage, Worker, looking, paying,
  getting_miner, getting_pool, decreasing, adding_claimed, adding_txn, getting_txn, adding_claim,
  removing, panicked, Desk,
}
use bitz_pool.Desk.Sound.{
  IsCovered, Busy, Asking, Sound, inserted, answering-Sound, Asking-elsewhere,
}

still :
    (j k : ℕ) (v u : ClaimsQueueItem) (q : Queue)
    → get k q ≡ none
    → get j q ≡ some u
    → get j (insert k v q) ≡ some u
still j k v u q n e = elim (Bool-cases (j == k)) [
  | inl same ↦
      let at = (==_iff j k).0 same in
      let gone : get j q ≡ none = subst (λ i. get i q ≡ none) (sym at) n in absurd cc
  | inr other ↦ ground (arith, get-insert j k v q)
]

-- The entry of the worker stays when a miner that has none gets one.
inserted-Busy :
    (k : ℕ) (v : ClaimsQueueItem) (q : Queue) (t : Tables) (w : Worker)
    → get k q ≡ none
    → Busy w q t
    → Busy w (insert k v q) t
inserted-Busy k v q t looking n b = tt
inserted-Busy k v q t (paying j item) n b = still j k v item q n b
inserted-Busy k v q t (getting_miner p) n b = still p.miner_pubkey k v p.item q n b
inserted-Busy k v q t (getting_pool p m) n b = (still p.miner_pubkey k v p.item q n b.0, b.1)
inserted-Busy k v q t (decreasing p m pool) n b = (still p.miner_pubkey k v p.item q n b.0, b.1)
inserted-Busy k v q t (adding_claimed p m pool) n b = tt
inserted-Busy k v q t (adding_txn p m pool) n b = tt
inserted-Busy k v q t (getting_txn p m pool) n b = tt
inserted-Busy k v q t (adding_claim p m pool txn_id) n b = tt
inserted-Busy k v q t (removing j) n b = tt
inserted-Busy k v q t panicked n b = tt

-- The last stage of a request queues the claim.
queueing-Sound :
    (x : Desk) (k : ℕ) (item : ClaimsQueueItem) (reply : Reply)
    → Sound x
    → get k x.requests ≡ some (answered reply)
    → get k x.queue ≡ none
    → IsCovered k item.amount x.tables
    → Sound (record x { queue = insert k item x.queue })
queueing-Sound x k item reply s own n c = record {
  valid = s.valid;
  queued = λ j v e. elim (inserted j k item v x.queue e) [
    | inl (at, is) ↦ inl (
        subst (λ i. IsCovered i v.amount x.tables) (sym at)
          (subst (λ u. IsCovered k u.amount x.tables) is c))
    | inr (other, at) ↦ s.queued j v at
  ];
  asked = λ j r e. elim (Bool-cases (j == k)) [
    | inl same ↦
        let at = (==_iff j k).0 same in
        let mine = subst (λ i. get i x.requests ≡ some (answered reply)) (sym at) own in
        let is : answered reply ≡ r = cc in
        subst (λ u. Asking j u (insert k item x.queue) x.tables) is tt
    | inr other ↦
        Asking-elsewhere j r x.queue (insert k item x.queue) x.tables
          (λ none_there. ground (arith, get-insert j k item x.queue)) (s.asked j r e)
  ];
  busy = inserted-Busy k item x.queue x.tables x.worker n s.busy;
}

pub covering :
    (link : Link) (k amount : ℕ) (row : Reward) (t : Tables)
    → (get_miner_rewards link k t).0 ≡ ok row
    → ltb row.balance amount ≡ false
    → IsCovered k amount t
unfolding get_miner_rewards
covering no_connection k amount row t h le = absurd cc
covering no_interaction k amount row t h le = absurd cc
covering server_error k amount row t h le = absurd cc
covering linked k amount row t h le = (row, ground arith, ground arith)

module _ (k : ℕ) (q : Queue) (t : Tables) where
  if-Asking :
      (b : Bool) (r r' : Request)
      → (b ≡ true → Asking k r q t)
      → (b ≡ false → Asking k r' q t)
      → Asking k (if b then r else r') q t
  if-Asking true r r' h h' = h refl
  if-Asking false r r' h h' = h' refl

  result-Asking :
      (x : Result Reward) (f : Reward → Request) (r : Request)
      → ((row : Reward) → x ≡ ok row → Asking k (f row) q t)
      → Asking k r q t
      → Asking k (elim x [ err _ ↦ r | ok row ↦ f row ]) q t
  result-Asking (ok row) f r h h' = h row refl
  result-Asking (err e) f r h h' = h'

  not_contained : contains_key k q ≡ false → get k q ≡ none
  not_contained h = elim (Option-cases (get k q)) [ inl e ↦ e | inr (v, e) ↦ absurd (ground arith) ]

  -- A stage of a request that leaves the queue, from what it has made sure of.
  request_stage-Asking :
      (now : ℕ) (link : Link) (token : TokenBalance) (r : Request)
      → ((item : ClaimsQueueItem) → r ≡ inserting item → ⊥)
      → Asking k r q t
      → ((request_stage now link token k r q t).1 ≡ q)
        × Asking k (request_stage now link token k r q t).0 q t
  unfolding request_stage
  request_stage-Asking now link token (checking_queue item) h a = (
    refl,
    if-Asking (contains_key k q) _ _ (λ e. tt)
        (λ e.
          if-Asking (ltb item.amount minimum_claim) _ (reading_rewards item) (λ l. tt)
            (λ l. not_contained e)),
  )
  request_stage-Asking now link token (reading_rewards item) h a = (
    refl,
    result-Asking (get_miner_rewards link k t).0
        (λ row.
          if ltb row.balance item.amount
          then answered (rejected exceeds_balance)
          else reading_claim item row)
        _
        (λ row l.
          if-Asking (ltb row.balance item.amount) _ (reading_claim item row) (λ b. tt)
            (λ b. (a, covering link k item.amount row t l b)))
        tt,
  )
  request_stage-Asking now link token (reading_claim item row) h a = (
    refl,
    if-Asking (is_cooling_down now link row.miner_id t) _ (asking_balance item) (λ b. tt) (λ b. a),
  )
  request_stage-Asking now link token (asking_balance item) h a = (
    refl,
    if-Asking (needs_ata token) _ (inserting item)
        (λ b. if-Asking (leb ata_fee item.amount) (inserting item) _ (λ c. a) (λ c. tt)) (λ b. a),
  )
  request_stage-Asking now link token (inserting item) h a = absurd (h item refl)
  request_stage-Asking now link token (answered reply) h a = (refl, tt)
  request_stage-Asking now link token direct_rewards h a = absurd a
  request_stage-Asking now link token (direct_claim row) h a = absurd a
  request_stage-Asking now link token (direct_balance row) h a = absurd a

-- Every stage of a request keeps the invariant.
pub asked-Sound :
    (now : ℕ) (link : Link) (token : TokenBalance) (k : ℕ) (r : Request) (x : Desk)
    → get k x.requests ≡ some r
    → Sound x
    → Sound (record x {
      requests = insert k (request_stage now link token k r x.queue x.tables).0 x.requests;
      queue = (request_stage now link token k r x.queue x.tables).1;
    })
unfolding request_stage
asked-Sound now link token k (checking_queue item) x at s =
    answering-Sound x k _ s
      (request_stage-Asking k x.queue x.tables now link token (checking_queue item) (λ i e. cc)
        (s.asked k (checking_queue item) at)).1
asked-Sound now link token k (reading_rewards item) x at s =
    answering-Sound x k _ s
      (request_stage-Asking k x.queue x.tables now link token (reading_rewards item) (λ i e. cc)
        (s.asked k (reading_rewards item) at)).1
asked-Sound now link token k (reading_claim item row) x at s =
    answering-Sound x k _ s
      (request_stage-Asking k x.queue x.tables now link token (reading_claim item row) (λ i e. cc)
        (s.asked k (reading_claim item row) at)).1
asked-Sound now link token k (asking_balance item) x at s =
    answering-Sound x k _ s
      (request_stage-Asking k x.queue x.tables now link token (asking_balance item) (λ i e. cc)
        (s.asked k (asking_balance item) at)).1
asked-Sound now link token k (inserting item) x at s =
    let (n, c) = s.asked k (inserting item) at in
    queueing-Sound (record x { requests = insert k (answered success) x.requests }) k item success
      (answering-Sound x k (answered success) s tt)
      (ground (arith, get-insert k k (answered success) x.requests)) n c
asked-Sound now link token k (answered reply) x at s = answering-Sound x k (answered reply) s tt
asked-Sound now link token k direct_rewards x at s = absurd (s.asked k direct_rewards at)
asked-Sound now link token k (direct_claim row) x at s = absurd (s.asked k (direct_claim row) at)
asked-Sound now link token k (direct_balance row) x at s =
    absurd (s.asked k (direct_balance row) at)
