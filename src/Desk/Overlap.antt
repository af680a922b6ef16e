-- ===== src/Desk/Overlap.antt =====
-- Two requests of one miner at once, which both pass the checks before one is queued.
use bitz_pool.Common.{
  ℕ, ◌+◌, ◌≤◌, ◌<◌, ◌≡◌, refl, ap, ◌∙◌, not, ◌&&◌, Bool, Bool-cases, true, false, none, some,
  Option-cases, inl, inr, List, [], ◌∷◌, ltb, leb, ◌==◌, ==_iff, map, arith,
}
use bitz_pool.Common.Map.{contains_key}
use bitz_pool.State.{ClaimsQueueItem}
use bitz_pool.Database.Tables.{Miner, Reward, Tables}
use bitz_pool.Database.Link.{
  Link, linked, no_connection, no_interaction, server_error, ok, find, Result-cases, query_failed,
}
use bitz_pool.Database.Ledger.{
  update_where, set_balance, sub_bigint, debit, decrease_miner_reward, get_miner_rewards,
}
use bitz_pool.Database.Valid.{IsValid}
use bitz_pool.Claims.{
  Queue, Around, success, minimum_claim, ata_fee, needs_ata, is_cooling_down, check_rewards,
  check_queue, enqueue,
}
use bitz_pool.Claims.Worker.{until_ok}
use bitz_pool.Claims.Worker.Steps.{debited, decrease_works, until_ok-err}
use bitz_pool.Desk.{
  checking_queue, reading_rewards, reading_claim, asking_balance, inserting, answered,
  request_stage, reward_of,
}
use bitz_pool.Replica.{is_of}
use bitz_pool.Desk.Asked.{covering}
use bitz_pool.Desk.Covered.{only_row, find-debited, less, row_owner}
use bitz_pool.Desk.Alone.{run_request, stage, run_request-check_queue}

-- What the checks have found when they succeed.
record Passed (w : Around) (miner amount : ℕ) (queue : Queue) : Type 0 where
  free : contains_key miner queue ≡ false
  enough : ltb amount minimum_claim ≡ false
  row : Reward
  read : (get_miner_rewards w.rewards_link miner w.tables).0 ≡ ok row
  covered : ltb row.balance amount ≡ false
  rested : is_cooling_down w.now w.claims_link row.miner_id w.tables ≡ false
  paid : (needs_ata w.token && not (leb ata_fee amount)) ≡ false

check_queue-Passed :
    (w : Around) (miner amount : ℕ) (queue : Queue)
    → check_queue w queue miner amount ≡ success
    → Passed w miner amount queue
unfolding check_queue check_rewards
check_queue-Passed w miner amount queue h = elim (Bool-cases (contains_key miner queue)) [
  | inl e ↦ absurd (ground (arith, e))
  | inr e ↦ elim (Bool-cases (ltb amount minimum_claim)) [
    | inl m ↦ absurd (ground (arith, e, m))
    | inr m ↦ elim (Result-cases (get_miner_rewards w.rewards_link miner w.tables).0) [
      | inr (x, g) ↦ absurd (ground (arith, e, m, g))
      | inl (row, g) ↦ elim (Bool-cases (ltb row.balance amount)) [
        | inl b ↦ absurd (ground (arith, e, m, g, b))
        | inr b ↦ elim (Bool-cases (is_cooling_down w.now w.claims_link row.miner_id w.tables)) [
          | inl c ↦ absurd (ground (arith, e, m, g, b, c))
          | inr c ↦ record {
            free = e;
            enough = m;
            row = row;
            read = g;
            covered = b;
            rested = c;
            paid = ground (arith, e, m, g, b, c);
          }
        ]
      ]
    ]
  ]
]

-- A request whose checks succeed is about to queue its claim.
passes :
    (w : Around) (miner : ℕ) (item : ClaimsQueueItem) (queue : Queue) (l a : Link)
    → check_queue w queue miner item.amount ≡ success
    → run_request (l ∷ w.rewards_link ∷ w.claims_link ∷ a ∷ []) w miner (checking_queue item) queue
      ≡ (inserting item, queue)
unfolding run_request request_stage
passes w miner item queue l a h =
    let p = check_queue-Passed w miner item.amount queue h in
    let links = a ∷ [] in
    stage w miner l (w.rewards_link ∷ w.claims_link ∷ links) (checking_queue item)
      (reading_rewards item) queue queue (rw (p.free, p.enough) refl)
    ∙ stage w miner w.rewards_link (w.claims_link ∷ links) (reading_rewards item)
        (reading_claim item p.row) queue queue (ground (arith, p.read, p.covered))
    ∙ stage w miner w.claims_link links (reading_claim item p.row) (asking_balance item) queue queue
        (rw p.rested refl)
    ∙ stage w miner a [] (asking_balance item) (inserting item) queue queue (ground (arith, p.paid))

-- A row that the amount exceeds makes the statement fail.
uncovered_rows :
    (q : ℕ → Bool) (id amount : ℕ) (row : Reward) (rows : List Reward)
    → find (λ r. q r.miner_id) rows ≡ some row
    → row.miner_id ≡ id
    → row.balance < amount
    → update_where (λ r. r.miner_id == id) (λ r. set_balance r (sub_bigint r.balance amount)) rows
      ≡ none
unfolding update_where
uncovered_rows q id amount row [] h own less = absurd cc
uncovered_rows q id amount row (r ∷ rows) h own less = elim (Bool-cases (q r.miner_id)) [
  | inl chosen ↦
      let same : r ≡ row = ground arith in
      let mine : (r.miner_id == id) ≡ true =
        (==_iff r.miner_id id).1 (ap (λ x. x.miner_id) same ∙ own) in
      let short : ltb r.balance amount ≡ true = ground (arith, ap (λ x. x.balance) same) in
      elim (Option-cases (
        update_where (λ x. x.miner_id == id) (λ x. set_balance x (sub_bigint x.balance amount))
          rows)) [ inl e ↦ rw e refl | inr ((n, ys), e) ↦ rw (e, mine, short) refl ]
  | inr other ↦
      let rest = uncovered_rows q id amount row rows (ground arith) own less in rw rest refl
]

-- The worker never gets past such a debit.
stuck :
    (id amount : ℕ) (t : Tables)
    → update_where
        (λ r. r.miner_id == id)
        (λ r. set_balance r (sub_bigint r.balance amount))
        t.rewards
      ≡ none
    → (links : List Link)
    → until_ok
        (λ link. decrease_miner_reward link (record { miner_id = id; balance = amount }))
        (links, t)
      ≡ none
unfolding until_ok decrease_miner_reward debit
stuck id amount t h [] = refl
stuck id amount t h (no_connection ∷ links) = stuck id amount t h links
stuck id amount t h (no_interaction ∷ links) = stuck id amount t h links
stuck id amount t h (server_error ∷ links) = stuck id amount t h links
stuck id amount t h (linked ∷ links) =
    until_ok-err (λ link. decrease_miner_reward link (record { miner_id = id; balance = amount }))
      query_failed linked links t (ground (arith, h))
    ∙ stuck id amount t h links

covered_by :
    (w : Around) (miner amount : ℕ) (row : Reward)
    → reward_of miner w.tables ≡ some row
    → check_queue w [] miner amount ≡ success
    → amount ≤ row.balance
covered_by w miner amount row at h =
    let p = check_queue-Passed w miner amount [] h in
    let (r, there, le) = covering w.rewards_link miner amount p.row w.tables p.read p.covered in
    let same : r ≡ row = ground arith in omega (arith, ap (λ x. x.balance) same, le)

-- Two requests of one miner, each of which the checks accept, together more than the balance: the
-- first has passed all of its checks when the second is queued and its amount taken off the balance.
-- The first is then queued all the same, and answered with success. Once it is paid, its amount
-- cannot be taken off: the worker stays in that loop, however its calls are answered, unless
-- something else raises the balance.
pub overlapping-sticks :
    (w : Around) (miner : ℕ) (first second : ClaimsQueueItem) (m : Miner) (row : Reward)
    (l a b : Link)
    → IsValid w.tables
    → find (λ x. x.pubkey == miner) w.tables.miners ≡ some m
    → reward_of miner w.tables ≡ some row
    → check_queue w [] miner first.amount ≡ success
    → check_queue w [] miner second.amount ≡ success
    → row.balance < first.amount + second.amount
    → (t : Tables) × (run_request
          (l ∷ w.rewards_link ∷ w.claims_link ∷ a ∷ [])
          w
          miner
          (checking_queue first)
          []
        ≡ (inserting first, []))
      × (run_request
            (l ∷ w.rewards_link ∷ w.claims_link ∷ a ∷ b ∷ [])
            w
            miner
            (checking_queue second)
            []
          ≡ (answered success, (miner, second) ∷ []))
      × (decrease_miner_reward linked (record { miner_id = m.id; balance = second.amount }) w.tables
          ≡ (ok tt, t))
      × (request_stage w.now b w.token miner (inserting first) [] t
          ≡ (answered success, (miner, first) ∷ []))
      × ((links : List Link)
          → until_ok
              (λ link.
                decrease_miner_reward link (record { miner_id = m.id; balance = first.amount }))
              (links, t)
            ≡ none)
unfolding request_stage enqueue
overlapping-sticks w miner first second m row l a b v found at ok_first ok_second over =
    let q = λ (id : ℕ). is_of miner w.tables.miners id in
    let owner = row_owner miner m row w.tables v found at in
    let le = covered_by w miner second.amount row at ok_second in
    let enough = only_row (λ y. q y.miner_id) row second.amount w.tables.rewards v.owners at le in
    let rows = map (debited m.id second.amount) w.tables.rewards in
    let after = find-debited q m.id second.amount row w.tables.rewards at owner in
    (
      record w.tables { rewards = rows },
      passes w miner first [] l a ok_first,
      run_request-check_queue w miner second [] l a b ∙ rw ok_second refl,
      decrease_works m.id second.amount w.tables (rw owner at enough),
      refl,
      stuck m.id first.amount (record w.tables { rewards = rows })
          (uncovered_rows q m.id first.amount (less second.amount row) rows after owner
            (omega (arith, over, le))),
    )
