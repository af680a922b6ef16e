-- ===== src/Desk/Sound.antt =====
-- The invariant of claims that run beside each other, and that the requests keep it.
use bitz_pool.Common.{
  ℕ, ◌≤◌, ◌≡◌, sym, subst, ◌⊎◌, inl, inr, Bool-cases, false, none, some, ◌==◌, ==_iff, arith,
}
use bitz_pool.Common.Map.{HashMap, get, insert, remove, get-insert, get-remove}
use bitz_pool.State.{ClaimsQueueItem}
use bitz_pool.Database.Tables.{Miner, Reward, Tables}
use bitz_pool.Database.Link.{find}
use bitz_pool.Database.Valid.{IsValid}
use bitz_pool.Claims.{Queue}
use bitz_pool.Desk.{
  Request, checking_queue, reading_rewards, reading_claim, asking_balance, inserting, answered,
  direct_rewards, direct_claim, direct_balance, Worker, looking, paying, getting_miner,
  getting_pool, decreasing, adding_claimed, adding_txn, getting_txn, adding_claim, removing,
  panicked, Desk, reward_of, Keeps,
}

-- The balance of the miner covers the amount.
abbrev pub IsCovered : ℕ → ℕ → Tables → Type 0
IsCovered k amount t = (r : Reward) × (reward_of k t ≡ some r) × (amount ≤ r.balance)

-- The worker has taken the claim of the miner off its balance, or drops it.
abbrev pub IsPast : ℕ → Worker → Type 0
IsPast k (adding_claimed p m pool) = p.miner_pubkey ≡ k
IsPast k (adding_txn p m pool) = p.miner_pubkey ≡ k
IsPast k (getting_txn p m pool) = p.miner_pubkey ≡ k
IsPast k (adding_claim p m pool txn_id) = p.miner_pubkey ≡ k
IsPast k (removing miner) = miner ≡ k
IsPast k _ = ⊥

abbrev pub Found : ℕ → Miner → Tables → Type 0
Found k m t = find (λ x. x.pubkey == k) t.miners ≡ some m

-- Until then the claim is in the queue, and the miner is the one with the key.
abbrev pub Busy : Worker → Queue → Tables → Type 0
Busy (paying k item) q t = get k q ≡ some item
Busy (getting_miner p) q t = get p.miner_pubkey q ≡ some p.item
Busy (getting_pool p m) q t = (get p.miner_pubkey q ≡ some p.item) × Found p.miner_pubkey m t
Busy (decreasing p m pool) q t = (get p.miner_pubkey q ≡ some p.item) × Found p.miner_pubkey m t
Busy _ q t = Unit

-- A request past the queue: no claim of the miner is queued, and past the balance: it covers the
-- amount. No request is one of `claim_direct`, which checks neither.
abbrev pub Asking : ℕ → Request → Queue → Tables → Type 0
Asking k (reading_rewards item) q t = get k q ≡ none
Asking k (reading_claim item row) q t = (get k q ≡ none) × IsCovered k item.amount t
Asking k (asking_balance item) q t = (get k q ≡ none) × IsCovered k item.amount t
Asking k (inserting item) q t = (get k q ≡ none) × IsCovered k item.amount t
Asking k direct_rewards q t = ⊥
Asking k (direct_claim row) q t = ⊥
Asking k (direct_balance row) q t = ⊥
Asking k _ q t = Unit

pub record Sound (x : Desk) : Type 0 where
  pub valid : IsValid x.tables
  pub queued :
      (k : ℕ) (item : ClaimsQueueItem)
      → get k x.queue ≡ some item
      → IsCovered k item.amount x.tables ⊎ IsPast k x.worker
  pub asked : (k : ℕ) (r : Request) → get k x.requests ≡ some r → Asking k r x.queue x.tables
  pub busy : Busy x.worker x.queue x.tables

-- The tables change, and keep the balances.
IsCovered-Keeps :
    (k amount : ℕ) (t t' : Tables) → Keeps t t' → IsCovered k amount t → IsCovered k amount t'
IsCovered-Keeps k amount t t' h (r, at, le) =
    let (r', at', more) = h.balances k r at in (r', at', omega (arith, le, more))

pub Asking-Keeps :
    (k : ℕ) (r : Request) (q : Queue) (t t' : Tables)
    → ((amount : ℕ) → get k q ≡ none → IsCovered k amount t → IsCovered k amount t')
    → Asking k r q t
    → Asking k r q t'
Asking-Keeps k (checking_queue item) q t t' h a = tt
Asking-Keeps k (reading_rewards item) q t t' h a = a
Asking-Keeps k (reading_claim item row) q t t' h a = (a.0, h item.amount a.0 a.1)
Asking-Keeps k (asking_balance item) q t t' h a = (a.0, h item.amount a.0 a.1)
Asking-Keeps k (inserting item) q t t' h a = (a.0, h item.amount a.0 a.1)
Asking-Keeps k (answered reply) q t t' h a = tt
Asking-Keeps k direct_rewards q t t' h a = absurd a
Asking-Keeps k (direct_claim row) q t t' h a = absurd a
Asking-Keeps k (direct_balance row) q t t' h a = absurd a

Busy-Keeps : (w : Worker) (q : Queue) (t t' : Tables) → Keeps t t' → Busy w q t → Busy w q t'
Busy-Keeps looking q t t' h b = tt
Busy-Keeps (paying k item) q t t' h b = b
Busy-Keeps (getting_miner p) q t t' h b = b
Busy-Keeps (getting_pool p m) q t t' h b = (b.0, h.miners p.miner_pubkey m b.1)
Busy-Keeps (decreasing p m pool) q t t' h b = (b.0, h.miners p.miner_pubkey m b.1)
Busy-Keeps (adding_claimed p m pool) q t t' h b = tt
Busy-Keeps (adding_txn p m pool) q t t' h b = tt
Busy-Keeps (getting_txn p m pool) q t t' h b = tt
Busy-Keeps (adding_claim p m pool txn_id) q t t' h b = tt
Busy-Keeps (removing k) q t t' h b = tt
Busy-Keeps panicked q t t' h b = tt

-- The worker moves on, on tables that keep the balances.
pub moved-Sound :
    (q : Queue) (t t' : Tables) (rs : HashMap Request) (w w' : Worker)
    → Keeps t t'
    → Sound (record { queue = q; tables = t; requests = rs; worker = w })
    → ((k : ℕ) → IsPast k w → IsPast k w')
    → Busy w' q t'
    → Sound (record { queue = q; tables = t'; requests = rs; worker = w' })
moved-Sound q t t' rs w w' h s past busy = record {
  valid = h.valid s.valid;
  queued = λ k item e. elim (s.queued k item e) [
    | inl c ↦ inl (IsCovered-Keeps k item.amount t t' h c)
    | inr p ↦ inr (past k p)
  ];
  asked = λ k r e.
      Asking-Keeps k r q t t' (λ amount n c. IsCovered-Keeps k amount t t' h c) (s.asked k r e);
  busy = busy;
}

pub others-Sound :
    (x : Desk) (t : Tables) → Keeps x.tables t → Sound x → Sound (record x { tables = t })
others-Sound x t h s =
    moved-Sound x.queue x.tables t x.requests x.worker x.worker h s (λ k p. p)
      (Busy-Keeps x.worker x.queue x.tables t h s.busy)

-- An entry of a map with one more, or one less.
pub inserted :
    {A : Type 0} (j k : ℕ) (v u : A) (m : HashMap A)
    → get j (insert k v m) ≡ some u
    → ((j ≡ k) × (v ≡ u)) ⊎ (((j == k) ≡ false) × (get j m ≡ some u))
inserted j k v u m e = elim (Bool-cases (j == k)) [
  | inl same ↦
      let is : some v ≡ some u = ground (arith, get-insert j k v m) in inl ((==_iff j k).0 same, cc)
  | inr other ↦ inr (other, ground (arith, get-insert j k v m))
]

pub kept :
    {A : Type 0} (j k : ℕ) (u : A) (m : HashMap A)
    → get j (remove k m) ≡ some u
    → ((j == k) ≡ false) × (get j m ≡ some u)
kept j k u m e = elim (Bool-cases (j == k)) [
  | inl same ↦ absurd (ground (arith, get-remove j k m))
  | inr other ↦ (other, ground (arith, get-remove j k m))
]

-- A request moves on, and the queue stays.
pub answering-Sound :
    (x : Desk) (k : ℕ) (r : Request)
    → Sound x
    → Asking k r x.queue x.tables
    → Sound (record x { requests = insert k r x.requests })
answering-Sound x k r s a = record {
  valid = s.valid;
  queued = s.queued;
  asked = λ j u e. elim (inserted j k r u x.requests e) [
    | inl (at, is) ↦
        subst (λ i. Asking i u x.queue x.tables) (sym at)
          (subst (λ v. Asking k v x.queue x.tables) is a)
    | inr (other, at) ↦ s.asked j u at
  ];
  busy = s.busy;
}

-- Where the queue changes for one miner only, what does not have that miner stays.
pub Asking-elsewhere :
    (j : ℕ) (r : Request) (q q' : Queue) (t : Tables)
    → (get j q ≡ none → get j q' ≡ none)
    → Asking j r q t
    → Asking j r q' t
Asking-elsewhere j (checking_queue item) q q' t h a = tt
Asking-elsewhere j (reading_rewards item) q q' t h a = h a
Asking-elsewhere j (reading_claim item row) q q' t h a = (h a.0, a.1)
Asking-elsewhere j (asking_balance item) q q' t h a = (h a.0, a.1)
Asking-elsewhere j (inserting item) q q' t h a = (h a.0, a.1)
Asking-elsewhere j (answered reply) q q' t h a = tt
Asking-elsewhere j direct_rewards q q' t h a = absurd a
Asking-elsewhere j (direct_claim row) q q' t h a = absurd a
Asking-elsewhere j (direct_balance row) q q' t h a = absurd a
