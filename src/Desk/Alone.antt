-- ===== src/Desk/Alone.antt =====
-- A request that nothing interrupts is the handler of Claims.
use bitz_pool.Common.{
  ℕ, ◌≡◌, refl, ap, ◌∙◌, Bool-cases, inl, inr, List, [], ◌∷◌, ltb, leb, if◌then◌else◌, arith,
}
use bitz_pool.Common.Map.{contains_key}
use bitz_pool.State.{ClaimsQueueItem}
use bitz_pool.Database.Tables.{Reward}
use bitz_pool.Database.Link.{Link, Result-cases}
use bitz_pool.Database.Ledger.{get_miner_rewards}
use bitz_pool.Claims.{
  Queue, Around, Reply, ClaimError, success, rejected, queued, below_minimum, no_miner_account,
  exceeds_balance, cooldown, not_enough_for_ata, minimum_claim, ata_fee, needs_ata, is_cooling_down,
  check_rewards, check_queue, enqueue,
}
use bitz_pool.Desk.{
  Request, checking_queue, reading_rewards, reading_claim, asking_balance, answered, request_stage,
}

-- The stages of a request, one after the other, each with the link that it has.
unfoldable pub run_request : List Link → Around → ℕ → Request → Queue → Request × Queue
unfolding request_stage
run_request [] w miner r queue = (r, queue)
run_request (link ∷ links) w miner r queue =
    let (r', queue') = request_stage w.now link w.token miner r queue w.tables in
    run_request links w miner r' queue'

module _ (w : Around) (miner : ℕ) where
  pub stage :
      (link : Link) (links : List Link) (r r' : Request) (queue queue' : Queue)
      → request_stage w.now link w.token miner r queue w.tables ≡ (r', queue')
      → run_request (link ∷ links) w miner r queue ≡ run_request links w miner r' queue'
  unfolding run_request
  stage link links r r' queue queue' = ap (λ p. run_request links w miner p.0 p.1)

  stays :
      (links : List Link) (reply : Reply) (queue : Queue)
      → run_request links w miner (answered reply) queue ≡ (answered reply, queue)
  unfolding run_request request_stage
  stays [] reply queue = refl
  stays (link ∷ links) reply queue = stays links reply queue

  module _ (item : ClaimsQueueItem) (queue : Queue) where
    -- What the handler makes of its checks.
    abbrev answer : Reply → Request × Queue
    answer reply =
        let (reply', queue') = enqueue reply miner item queue in (answered reply', queue')

    refused :
        (link : Link) (links : List Link) (r : Request) (e : ClaimError)
        → request_stage w.now link w.token miner r queue w.tables ≡ (answered (rejected e), queue)
        → run_request (link ∷ links) w miner r queue ≡ answer (rejected e)
    unfolding enqueue
    refused link links r e h =
        stage link links r (answered (rejected e)) queue queue h ∙ stays links (rejected e) queue

    asked :
        (a b : Link)
        → run_request (a ∷ b ∷ []) w miner (asking_balance item) queue
          ≡ answer (
              if needs_ata w.token
              then (if leb ata_fee item.amount then success else rejected not_enough_for_ata)
              else success)
    unfolding request_stage enqueue run_request
    asked a b = elim (Bool-cases (needs_ata w.token)) [
      | inr n ↦ rw n refl
      | inl n ↦ elim (Bool-cases (leb ata_fee item.amount)) [
        | inl f ↦ rw (n, f) refl
        | inr f ↦ rw (n, f) refl
      ]
    ]

    read_claim :
        (a b : Link) (row : Reward)
        → run_request (w.claims_link ∷ a ∷ b ∷ []) w miner (reading_claim item row) queue
          ≡ answer (
              if is_cooling_down w.now w.claims_link row.miner_id w.tables
              then rejected cooldown
              else if needs_ata w.token
              then (if leb ata_fee item.amount then success else rejected not_enough_for_ata)
              else success)
    unfolding request_stage
    read_claim a b row =
        elim (Bool-cases (is_cooling_down w.now w.claims_link row.miner_id w.tables)) [
          | inl c ↦
              rw c
                (refused w.claims_link (a ∷ b ∷ []) (reading_claim item row) cooldown (rw c refl))
          | inr c ↦ rw c (
              stage w.claims_link (a ∷ b ∷ []) (reading_claim item row) (asking_balance item) queue
                queue (rw c refl)
              ∙ asked a b)
        ]

    read_rewards :
        (a b : Link)
        → run_request
            (w.rewards_link ∷ w.claims_link ∷ a ∷ b ∷ [])
            w
            miner
            (reading_rewards item)
            queue
          ≡ answer (check_rewards w miner item.amount)
    unfolding request_stage check_rewards
    read_rewards a b =
        let links = w.claims_link ∷ a ∷ b ∷ [] in
        elim (Result-cases (get_miner_rewards w.rewards_link miner w.tables).0) [
          | inr (x, g) ↦
              refused w.rewards_link links (reading_rewards item) no_miner_account
                (ground (arith, g))
              ∙ ap answer (ground (arith, g))
          | inl (row, g) ↦ elim (Bool-cases (ltb row.balance item.amount)) [
            | inl b ↦
                refused w.rewards_link links (reading_rewards item) exceeds_balance
                  (ground (arith, g, b))
                ∙ ap answer (ground (arith, g, b))
            | inr c ↦
                stage w.rewards_link links (reading_rewards item) (reading_claim item row) queue
                  queue (ground (arith, g, c))
                ∙ read_claim a b row
                ∙ ap answer (ground (arith, g, c))
          ]
        ]

    -- The five stages of a request, when nothing comes between them, give the answer and the queue
    -- that the checks of `post_claim_v2` give as one function.
    pub run_request-check_queue :
        (l a b : Link)
        → run_request
            (l ∷ w.rewards_link ∷ w.claims_link ∷ a ∷ b ∷ [])
            w
            miner
            (checking_queue item)
            queue
          ≡ answer (check_queue w queue miner item.amount)
    unfolding request_stage check_queue
    run_request-check_queue l a b =
        let links = w.rewards_link ∷ w.claims_link ∷ a ∷ b ∷ [] in
        elim (Bool-cases (contains_key miner queue)) [
          | inl e ↦ rw e (refused l links (checking_queue item) queued (rw e refl))
          | inr e ↦ elim (Bool-cases (ltb item.amount minimum_claim)) [
            | inl m ↦
                rw (e, m) (refused l links (checking_queue item) below_minimum (rw (e, m) refl))
            | inr m ↦
                rw (e, m)
                  (stage l links (checking_queue item) (reading_rewards item) queue queue
                      (rw (e, m) refl)
                    ∙ read_rewards a b)
          ]
        ]
