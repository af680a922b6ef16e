-- ===== src/Desk/Covered.antt =====
-- The balance covers what the worker takes off.
use bitz_pool.Common.{
  ℕ, ◌-◌, ◌≤◌, ◌≡◌, refl, sym, subst, ap, ◌∙◌, inl, inr, Bool, Bool-cases, true, false, some, List,
  [], ◌∷◌, ◌==◌, ==_iff, any, map, All, arith,
}
use bitz_pool.Common.Map.{remove, get-remove}
use bitz_pool.Database.Tables.{Miner, Pool, Reward, Tables}
use bitz_pool.Database.Link.{linked, ok, find}
use bitz_pool.Database.Ledger.{decrease_miner_reward}
use bitz_pool.Database.Valid.{IsValid, Distinct}
use bitz_pool.Claims.Worker.Steps.{debited, decrease_works}
use bitz_pool.Replica.{is_of}
use bitz_pool.Replica.CaughtUp.{is_of-find, find-holds}
use bitz_pool.Desk.{
  checking_queue, Paid, looking, decreasing, removing, Desk, reward_of, Step, IsNotDirect, arrives,
  arrives_direct, asked, leaves, picked, worked, removed, others, Reached, opened, then_step,
  WithoutDirect,
}
use bitz_pool.Desk.Sound.{
  IsPast, Busy, Sound, kept, answering-Sound, others-Sound, Asking-elsewhere,
}
use bitz_pool.Desk.Asked.{asked-Sound}
use bitz_pool.Desk.Worked.{worked-Sound}

-- The worker looks for a claim, or drops the one that it has.
idle-Sound :
    (x : Desk) (miner : ℕ)
    → x.worker ≡ removing miner
    → Sound x
    → Sound (record x { queue = remove miner x.queue; worker = looking })
idle-Sound x miner at s = record {
  valid = s.valid;
  queued = λ j item e.
      let (other, there) = kept j miner item x.queue e in
      elim (s.queued j item there) [
        | inl c ↦ inl c
        | inr past ↦
            let same : miner ≡ j = subst (IsPast j) at past in
            absurd (ground (arith, (==_iff j miner).1 (sym same)))
      ];
  asked = λ j r e.
      Asking-elsewhere j r x.queue (remove miner x.queue) x.tables
        (λ n. ground (arith, get-remove j miner x.queue)) (s.asked j r e);
  busy = tt;
}

Step-Sound :
    (authority : ℕ) (x y : Desk) → Sound x → (st : Step authority x y) → IsNotDirect st → Sound y
Step-Sound authority x y s (arrives miner item _ free) o =
    answering-Sound x miner (checking_queue item) s tt
Step-Sound authority x y s (arrives_direct miner _ free) o = absurd o
Step-Sound authority x y s (asked now link token miner r _ at) o =
    asked-Sound now link token miner r x at s
Step-Sound authority x y s (leaves miner reply _ at) o = record {
  valid = s.valid;
  queued = s.queued;
  asked = λ j r e. s.asked j r (kept j miner r x.requests e).1;
  busy = s.busy;
}
Step-Sound authority x y s (picked miner item _ free at) o = record {
  valid = s.valid;
  queued = λ j other e. elim (s.queued j other e) [
    | inl c ↦ inl c
    | inr past ↦ absurd (subst (IsPast j) free past)
  ];
  asked = s.asked;
  busy = at;
}
Step-Sound authority x y s (worked link outside _) o =
    worked-Sound authority link outside x.queue x.tables x.requests x.worker s
Step-Sound authority x y s (removed miner _ at) o = idle-Sound x miner at s
Step-Sound authority x y s (others t _ h) o = others-Sound x t h s

Reached-Sound : (authority : ℕ) (x : Desk) (r : Reached authority x) → WithoutDirect r → Sound x
Reached-Sound authority x (opened t v) o = record {
  valid = v;
  queued = λ k item e. absurd cc;
  asked = λ k r e. absurd cc;
  busy = tt;
}
Reached-Sound authority x (then_step y _ r st) o =
    Step-Sound authority y x (Reached-Sound authority y r o.0) st o.1

-- The one row of an owner.
no_owner :
    (id amount : ℕ) (rows : List Reward)
    → any (λ y. y == id) (map (λ r. r.miner_id) rows) ≡ false
    → All (λ r. r.miner_id ≡ id → amount ≤ r.balance) rows
no_owner id amount [] h = tt
no_owner id amount (r ∷ rows) h = (
  λ e. absurd (ground (arith, (==_iff r.miner_id id).1 e)),
  no_owner id amount rows (ground arith),
)

has_owner :
    (p : Reward → Bool) (row : Reward) (rows : List Reward)
    → find p rows ≡ some row
    → any (λ y. y == row.miner_id) (map (λ r. r.miner_id) rows) ≡ true
has_owner p row [] h = absurd cc
has_owner p row (r ∷ rows) h = elim (Bool-cases (p r)) [
  | inl own ↦ (let same : r ≡ row = ground arith in ground (arith, ap (λ x. x.miner_id) same))
  | inr other ↦ ground (arith, has_owner p row rows)
]

pub only_row :
    (p : Reward → Bool) (row : Reward) (amount : ℕ) (rows : List Reward)
    → Distinct (map (λ r. r.miner_id) rows)
    → find p rows ≡ some row
    → amount ≤ row.balance
    → All (λ r. r.miner_id ≡ row.miner_id → amount ≤ r.balance) rows
only_row p row amount [] d h le = tt
only_row p row amount (r ∷ rows) d h le = elim (Bool-cases (p r)) [
  | inl own ↦
      let same : r ≡ row = ground arith in
      let alone =
        subst (λ i. any (λ y. y == i) (map (λ x. x.miner_id) rows) ≡ false)
          (ap (λ x. x.miner_id) same) d.0 in
      (λ e. omega (arith, ap (λ x. x.balance) same, le), no_owner row.miner_id amount rows alone)
  | inr other ↦
      let there = has_owner p row rows (ground arith) in
      (
        λ e.
            (let again =
                subst (λ i. any (λ y. y == i) (map (λ x. x.miner_id) rows) ≡ true) (sym e) there in
              absurd cc),
        only_row p row amount rows d.1 (ground arith) le,
      )
]

-- The row of the owner after the debit.
abbrev pub less : ℕ → Reward → Reward
less amount row = record row { balance = row.balance - amount }

pub find-debited :
    (q : ℕ → Bool) (id amount : ℕ) (row : Reward) (rows : List Reward)
    → find (λ r. q r.miner_id) rows ≡ some row
    → row.miner_id ≡ id
    → find (λ r. q r.miner_id) (map (debited id amount) rows) ≡ some (less amount row)
find-debited q id amount row [] h own = absurd cc
find-debited q id amount row (r ∷ rows) h own = elim (Bool-cases (q r.miner_id)) [
  | inl chosen ↦
      let same : r ≡ row = ground arith in
      let mine : (r.miner_id == id) ≡ true =
        (==_iff r.miner_id id).1 (ap (λ x. x.miner_id) same ∙ own) in
      let cut : debited id amount r ≡ less amount r = rw mine refl in
      rw (mine, chosen) (ap (λ x. some x) cut ∙ ap (λ x. some (less amount x)) same)
  | inr other ↦
      let rest = find-debited q id amount row rows (ground arith) own in
      elim (Bool-cases (r.miner_id == id)) [
        | inl mine ↦ rw (mine, other) rest
        | inr not_mine ↦ rw (not_mine, other) rest
      ]
]

-- The row that a key selects belongs to the miner with the key.
pub row_owner :
    (k : ℕ) (m : Miner) (row : Reward) (t : Tables)
    → IsValid t
    → find (λ x. x.pubkey == k) t.miners ≡ some m
    → reward_of k t ≡ some row
    → row.miner_id ≡ m.id
row_owner k m row t v found at =
    let member = find-holds (λ y. is_of k t.miners y.miner_id) t.rewards row at in
    let (b, at_b, its) = is_of-find k row.miner_id t.miners v.pubkeys member in
    let one : b ≡ m = ground arith in sym its ∙ ap (λ y. y.id) one

-- Whatever the requests of `post_claim_v2`, the worker and the rest of the server do, in any order, a
-- miner having one request in progress at a time, no claim coming by `claim_direct`, and no statement
-- of the database taking effect while its answer is lost: when the worker comes to take a paid claim off the balance of its
-- miner, the balance covers it. With the database in reach the statement succeeds, and the balance
-- is less by the amount of the claim.
pub Reached-covers :
    (authority : ℕ) (x : Desk) (p : Paid) (m : Miner) (pool : Pool)
    → (r : Reached authority x) → WithoutDirect r
    → x.worker ≡ decreasing p m pool
    → (row : Reward) × (t : Tables) × (reward_of p.miner_pubkey x.tables ≡ some row)
      × (p.item.amount ≤ row.balance)
      × (decrease_miner_reward linked (record { miner_id = m.id; balance = p.item.amount }) x.tables
          ≡ (ok tt, t))
      × (reward_of p.miner_pubkey t ≡ some (record row { balance = row.balance - p.item.amount }))
Reached-covers authority x p m pool r o at =
    let s = Reached-Sound authority x r o in
    let (queued_item, found) = subst (λ w. Busy w x.queue x.tables) at s.busy in
    elim (s.queued p.miner_pubkey p.item queued_item) [
      | inr past ↦ absurd (subst (IsPast p.miner_pubkey) at past)
      | inl (row, there, le) ↦
          let q = λ (id : ℕ). is_of p.miner_pubkey x.tables.miners id in
          let owner = row_owner p.miner_pubkey m row x.tables s.valid found there in
          let enough =
            only_row (λ y. q y.miner_id) row p.item.amount x.tables.rewards s.valid.owners there
              le in
          (
            row,
            record x.tables { rewards = map (debited m.id p.item.amount) x.tables.rewards },
            there,
            le,
            decrease_works m.id p.item.amount x.tables (rw owner at enough),
            find-debited q m.id p.item.amount row x.tables.rewards there owner,
          )
    ]
