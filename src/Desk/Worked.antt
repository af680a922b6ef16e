-- ===== src/Desk/Worked.antt =====
-- The stages of the worker keep the invariant.
use bitz_pool.Common.{
  ℕ, ◌≡◌, refl, sym, subst, ap, inl, inr, Bool-cases, true, false, Option-cases, none, some, ◌==◌,
  arith,
}
use bitz_pool.Common.Map.{HashMap, get}
use bitz_pool.State.{ClaimsQueueItem}
use bitz_pool.Database.Tables.{Miner, Tables, UpdateReward, InsertTxn, InsertClaim}
use bitz_pool.Database.Link.{
  Result, Link, ok, err, no_connection, no_interaction, server_error, linked,
}
use bitz_pool.Database.Miners.{get_miner_by_pubkey_str, get_pool_by_authority_pubkey}
use bitz_pool.Database.Ledger.{
  decrease_miner_reward, update_pool_claimed, add_new_txn, get_txn_by_sig, add_new_claim,
}
use bitz_pool.Database.Calls.{decrease, claimed, txn, claim, run_call}
use bitz_pool.Database.Valid.{IsValid}
use bitz_pool.Database.Valid.Kept.{run_call-IsValid}
use bitz_pool.Claims.{Queue}
use bitz_pool.Claims.Worker.{Outside, instructions, send, confirmed}
use bitz_pool.Desk.{
  Request, Worker, looking, paying, getting_miner, getting_pool, decreasing, adding_claimed,
  adding_txn, getting_txn, adding_claim, removing, panicked, Keeps, on_ok, paying_stage,
  worker_stage,
}
use bitz_pool.Desk.Rows.{
  SameRows, update_pool_claimed-SameRows, add_new_txn-SameRows, add_new_claim-SameRows,
  select-tables, decrease_miner_reward-KeepsOthers, decrease_miner_reward-err,
}
use bitz_pool.Desk.Sound.{Found, IsPast, Busy, Sound, moved-Sound}
use bitz_pool.Desk.Debited.{decreased-Sound}

pub SameRows-Keeps : (t t' : Tables) → SameRows t t' → (IsValid t → IsValid t') → Keeps t t'
SameRows-Keeps t t' (miners, rewards) v = record {
  valid = v;
  miners = λ k m h. rw miners h;
  balances = λ k r h. (r, rw (miners, rewards) h, omega arith);
}

pub Keeps-same : (t t' : Tables) → t' ≡ t → Keeps t t'
Keeps-same t t' e = SameRows-Keeps t t' (ap (λ u. u.miners) e, ap (λ u. u.rewards) e) (λ v. rw e v)

get_miner-tables : (link : Link) (k : ℕ) (t : Tables) → (get_miner_by_pubkey_str link k t).1 ≡ t
unfolding get_miner_by_pubkey_str
get_miner-tables link k t = select-tables link (λ m. m.pubkey == k) (λ u. u.miners) t

get_pool-tables : (link : Link) (k : ℕ) (t : Tables) → (get_pool_by_authority_pubkey link k t).1 ≡ t
unfolding get_pool_by_authority_pubkey
get_pool-tables link k t = select-tables link (λ p. p.authority_pubkey == k) (λ u. u.pools) t

get_txn-tables : (link : Link) (k : ℕ) (t : Tables) → (get_txn_by_sig link k t).1 ≡ t
unfolding get_txn_by_sig
get_txn-tables link k t = select-tables link (λ x. x.row.signature == k) (λ u. u.txns) t

-- The worker goes on after a call, or stays.
abbrev Follows : Worker → Worker → Queue → Tables → Type 0
Follows w u q t = ((k : ℕ) → IsPast k w → IsPast k u) × Busy u q t

on_ok-Sound :
    {A : Type 0} (q : Queue) (t : Tables) (rs : HashMap Request) (w : Worker)
    (r : Result A × Tables) (stay : Worker) (next : A → Worker)
    → Keeps t r.1
    → Sound (record { queue = q; tables = t; requests = rs; worker = w })
    → Follows w stay q r.1
    → ((a : A) → r.0 ≡ ok a → Follows w (next a) q r.1)
    → Sound (record {
      queue = q;
      tables = (on_ok r stay next).1;
      requests = rs;
      worker = (on_ok r stay next).0;
    })
on_ok-Sound q t rs w (ok a, t') stay next h s f g =
    let (past, busy) = g a refl in moved-Sound q t t' rs w (next a) h s past busy
on_ok-Sound q t rs w (err e, t') stay next h s f g =
    let (past, busy) = f in moved-Sound q t t' rs w stay h s past busy

paying_stage-Busy :
    (o : Outside) (k : ℕ) (item : ClaimsQueueItem) (q : Queue) (t : Tables)
    → get k q ≡ some item
    → Busy (paying_stage o k item) q t
unfolding paying_stage
paying_stage-Busy o k item q t h = elim (Option-cases (instructions o.token item)) [
  | inl e ↦ rw (Busy, e) tt
  | inr (ixs, e) ↦ elim (Bool-cases o.has_blockhash) [
    | inr b ↦ rw (Busy, e, b) tt
    | inl b ↦ elim (Option-cases (send 0 o.answers)) [
      | inl s ↦ rw (Busy, e, b, s) h
      | inr (none, s) ↦ rw (Busy, e, b, s) tt
      | inr (some sig, s) ↦ elim (Option-cases (confirmed o.polls)) [
        | inl c ↦ rw (Busy, e, b, s, c) h
        | inr (false, c) ↦ rw (Busy, e, b, s, c) tt
        | inr (true, c) ↦ rw (Busy, e, b, s, c) h
      ]
    ]
  ]
]

select-Found :
    (link : Link) (k : ℕ) (m : Miner) (t : Tables)
    → (get_miner_by_pubkey_str link k t).0 ≡ ok m
    → Found k m t
unfolding get_miner_by_pubkey_str
select-Found no_connection k m t h = absurd cc
select-Found no_interaction k m t h = absurd cc
select-Found server_error k m t h = absurd cc
select-Found linked k m t h = ground arith

-- Every stage of the worker on the database keeps the invariant.
pub worked-Sound :
    (authority : ℕ) (link : Link) (o : Outside) (q : Queue) (t : Tables) (rs : HashMap Request)
    (w : Worker)
    → Sound (record { queue = q; tables = t; requests = rs; worker = w })
    → Sound (record {
      queue = q;
      tables = (worker_stage authority link o w t).1;
      requests = rs;
      worker = (worker_stage authority link o w t).0;
    })
unfolding worker_stage decrease_miner_reward run_call update_pool_claimed add_new_txn add_new_claim
worked-Sound authority link o q t rs looking s = s
worked-Sound authority link o q t rs (paying k item) s =
    moved-Sound q t t rs (paying k item) (paying_stage o k item) (Keeps-same t t refl) s
      (λ j past. absurd past) (paying_stage-Busy o k item q t s.busy)
worked-Sound authority link o q t rs (getting_miner p) s =
    let same = get_miner-tables link p.miner_pubkey t in
    on_ok-Sound q t rs (getting_miner p) (get_miner_by_pubkey_str link p.miner_pubkey t) panicked
      (λ m. getting_pool p m) (Keeps-same t _ same) s (λ j past. absurd past, tt)
      (λ m h. (
        λ j past. absurd past,
        (
          s.busy,
          subst (Found p.miner_pubkey m) (sym same) (select-Found link p.miner_pubkey m t h),
        ),
      ))
worked-Sound authority link o q t rs (getting_pool p m) s =
    let same = get_pool-tables link authority t in
    on_ok-Sound q t rs (getting_pool p m) (get_pool_by_authority_pubkey link authority t) panicked
      (λ pool. decreasing p m pool) (Keeps-same t _ same) s (λ j past. absurd past, tt)
      (λ pool h.
        (λ j past. absurd past, (s.busy.0, subst (Found p.miner_pubkey m) (sym same) s.busy.1)))
worked-Sound authority link o q t rs (decreasing p m pool) s =
    let paid : UpdateReward = record { miner_id = m.id; balance = p.item.amount } in
    decreased-Sound q t rs p m pool (decrease_miner_reward link paid t)
      (run_call-IsValid link (decrease paid) t s.valid)
      (decrease_miner_reward-KeepsOthers link m.id p.item.amount t)
      (λ e h. decrease_miner_reward-err link paid t e h) s
worked-Sound authority link o q t rs (adding_claimed p m pool) s =
    on_ok-Sound q t rs (adding_claimed p m pool)
      (update_pool_claimed link authority p.item.amount t) (adding_claimed p m pool)
      (λ _. adding_txn p m pool)
      (SameRows-Keeps t _ (update_pool_claimed-SameRows link authority p.item.amount t)
        (λ v. run_call-IsValid link (claimed authority p.item.amount) t v))
      s (λ k h. h, tt) (λ a h. (λ k l. l, tt))
worked-Sound authority link o q t rs (adding_txn p m pool) s =
    let row : InsertTxn = record {
      txn_type = "claim";
      signature = p.signature;
      priority_fee = 0;
    } in
    on_ok-Sound q t rs (adding_txn p m pool) (add_new_txn link row t) (adding_txn p m pool)
      (λ _. getting_txn p m pool)
      (SameRows-Keeps t _ (add_new_txn-SameRows link row t)
        (λ v. run_call-IsValid link (txn row) t v))
      s (λ k h. h, tt) (λ a h. (λ k l. l, tt))
worked-Sound authority link o q t rs (getting_txn p m pool) s =
    on_ok-Sound q t rs (getting_txn p m pool) (get_txn_by_sig link p.signature t)
      (getting_txn p m pool) (λ x. adding_claim p m pool x.id)
      (Keeps-same t _ (get_txn-tables link p.signature t)) s (λ k h. h, tt) (λ a h. (λ k l. l, tt))
worked-Sound authority link o q t rs (adding_claim p m pool txn_id) s =
    let row : InsertClaim = record {
      miner_id = m.id;
      pool_id = pool.id;
      txn_id = txn_id;
      amount = p.item.amount;
    } in
    on_ok-Sound q t rs (adding_claim p m pool txn_id) (add_new_claim link o.now row t)
      (adding_claim p m pool txn_id) (λ _. removing p.miner_pubkey)
      (SameRows-Keeps t _ (add_new_claim-SameRows link o.now row t)
        (λ v. run_call-IsValid link (claim o.now row) t v))
      s (λ k h. h, tt) (λ a h. (λ k l. l, tt))
worked-Sound authority link o q t rs (removing k) s = s
worked-Sound authority link o q t rs panicked s = s
