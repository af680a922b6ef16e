-- ===== src/Claims/Worker/Settled.antt =====
-- What a confirmed claim does to the database, and what is paid for it.
use bitz_pool.Common.{
  ℕ, suc, ◌+◌, ◌-◌, ◌≤◌, ◌<◌, ◌≡◌, ◌⊎◌, inl, inr, refl, true, none, some, List, ◌∷◌, ◌==◌,
  if◌then◌else◌, leb, map, sum_of, All, arith, Bool-cases,
}
use bitz_pool.Common.Word.{u64_mod}
use bitz_pool.State.{ClaimsQueueItem}
use bitz_pool.Database.Tables.{Tables, Pool, Miner, Txn, UpdateReward, InsertTxn, InsertClaim}
use bitz_pool.Database.Link.{failed_to_update_row, select, reached, Link, linked, ok}
use bitz_pool.Database.Miners.{get_miner_by_pubkey_str, get_pool_by_authority_pubkey}
use bitz_pool.Database.Ledger.{
  debit, claimed_query, decrease_miner_reward, update_pool_claimed, insert_txn, add_new_txn,
  get_txn_by_sig, insert_claim, add_new_claim,
}
use bitz_pool.Claims.{TokenBalance, rpc_error, no_ui_amount, ui_amount, needs_ata, ata_fee}
use bitz_pool.Claims.Worker.{
  settle, instructions, claim_amount_of, claim_ixs, Ix, set_compute_unit_price,
  create_associated_token_account, claim_ix,
}
use bitz_pool.Claims.Worker.Steps.{
  call-Fails, unit-Fails, expect-Fails, unwrapped-ok, until_ok-reaches, debited, with_claimed,
  pools_of, decrease_works, claimed_works,
}

module _ (authority now sig : ℕ) (item : ClaimsQueueItem) (miner : Miner) (pool : Pool) where
  abbrev pub new_txn : Tables → Txn
  new_txn t = record {
    id = t.next_id;
    row = record { txn_type = "claim"; signature = sig; priority_fee = 0 };
  }

  -- The tables after a claim.
  abbrev pub settled : Tables → Tables
  settled t = record t {
    next_id = suc t.next_id;
    rewards = map (debited miner.id item.amount) t.rewards;
    pools = map (with_claimed authority item.amount) t.pools;
    txns = new_txn t ∷ t.txns;
    claims =
        record {
          row = record {
            miner_id = miner.id;
            pool_id = pool.id;
            txn_id = t.next_id;
            amount = item.amount;
          };
          created_at = now;
        }
        ∷ t.claims;
  }

-- A confirmed claim is settled, if the first two lookups reach the database and find the miner and the
-- pool, the balance of the miner covers the amount, one pool has the authority, and the claimed
-- rewards with the amount fit in 64 bits: whatever of the repeated calls fail, none of them taking
-- effect with its answer lost, once five of them reach the database the miner's balance is less by the amount of the claim, the pool's claimed
-- rewards are more by it, and there is one transaction and one claim more, linked to each other.
pub settle-settled :
    (authority now miner_pubkey sig : ℕ) (item : ClaimsQueueItem) (miner : Miner) (pool : Pool)
    (t : Tables)
    → get_miner_by_pubkey_str linked miner_pubkey t ≡ (ok miner, t)
    → get_pool_by_authority_pubkey linked authority t ≡ (ok pool, t)
    → All (λ r. r.miner_id ≡ miner.id → item.amount ≤ r.balance) t.rewards
    → All (λ p. p.claimed_rewards + item.amount < u64_mod) t.pools
    → pools_of authority t.pools ≡ 1
    → (links : List Link) → 5 ≤ reached links
    → (ls : List Link) × (settle authority now miner_pubkey item sig (linked ∷ linked ∷ links, t)
        ≡ some (ls, settled authority now sig item miner pool t))
      × (5 + reached ls ≡ reached links)
unfolding settle decrease_miner_reward update_pool_claimed add_new_txn insert_txn get_txn_by_sig
    add_new_claim insert_claim
settle-settled authority now miner_pubkey sig item miner pool t m p covers fits one links enough =
    let u : UpdateReward = record { miner_id = miner.id; balance = item.amount } in
    let t1 : Tables = record t { rewards = map (debited miner.id item.amount) t.rewards } in
    let t2 : Tables = record t1 { pools = map (with_claimed authority item.amount) t.pools } in
    let x : InsertTxn = record { txn_type = "claim"; signature = sig; priority_fee = 0 } in
    let t3 : Tables = record t2 {
      next_id = suc t.next_id;
      txns = new_txn authority now sig item miner pool t ∷ t.txns;
    } in
    let c : InsertClaim = record {
      miner_id = miner.id;
      pool_id = pool.id;
      txn_id = t.next_id;
      amount = item.amount;
    } in
    let a =
      unwrapped-ok (λ link. get_miner_by_pubkey_str link miner_pubkey) miner linked (linked ∷ links)
        t t m in
    let b =
      unwrapped-ok (λ link. get_pool_by_authority_pubkey link authority) pool linked links t t p in
    let (l1, e1, n1) =
      until_ok-reaches (λ link. decrease_miner_reward link u) t t1 tt (unit-Fails (debit u) t)
        (decrease_works miner.id item.amount t covers) links (omega arith) in
    let (l2, e2, n2) =
      until_ok-reaches (λ link. update_pool_claimed link authority item.amount) t1 t2 tt
        (expect-Fails (λ n. n == 1) failed_to_update_row (claimed_query authority item.amount) t1)
        (claimed_works authority item.amount t1 fits one) l1 (omega arith) in
    let (l3, e3, n3) =
      until_ok-reaches (λ link. add_new_txn link x) t2 t3 tt (unit-Fails (insert_txn x) t2) refl l2
        (omega arith) in
    let (l4, e4, n4) =
      until_ok-reaches (λ link. get_txn_by_sig link sig) t3 t3
        (new_txn authority now sig item miner pool t)
        (call-Fails (select (λ y. y.row.signature == sig) (λ v. v.txns)) t3) (ground arith) l3
        (omega arith) in
    let (l5, e5, n5) =
      until_ok-reaches (λ link. add_new_claim link now c) t3
        (settled authority now sig item miner pool t) tt (unit-Fails (insert_claim now c) t3) refl
        l4 (omega arith) in
    (l5, rw (a, b, e1, e2, e3, e4, e5, settle) refl, omega arith)

-- What the instructions of a transaction pay out.
abbrev pub pays : Ix → ℕ
pays (claim_ix receiver amount) = amount
pays _ = 0

-- What they cost the pool for new accounts.
abbrev pub costs : Ix → ℕ
costs (create_associated_token_account receiver) = ata_fee
costs _ = 0

claim_ixs_lem :
    (receiver amount : ℕ)
    → (sum_of pays (claim_ixs receiver amount) ≡ amount)
      × (sum_of costs (claim_ixs receiver amount) ≡ 0)
claim_ixs_lem receiver amount = (ground arith, ground arith)

new_account :
    (token : TokenBalance) (item : ClaimsQueueItem)
    → needs_ata token ≡ true
    → ((ixs : List Ix) × (instructions token item ≡ some ixs)
        × (sum_of pays ixs + sum_of costs ixs ≡ item.amount)
        × (sum_of costs ixs ≡ ata_fee))
      ⊎ ((instructions token item ≡ none) × (item.amount < ata_fee))
unfolding instructions claim_amount_of
new_account token item new = elim (Bool-cases (leb ata_fee item.amount)) [
  | inr low ↦ inr (ground arith, ground arith)
  | inl enough ↦
      let rest = item.amount - ata_fee in
      let (p, c) = claim_ixs_lem item.receiver_pubkey rest in
      inl (
        set_compute_unit_price 0
            ∷ create_associated_token_account item.receiver_pubkey
            ∷ claim_ixs item.receiver_pubkey rest,
        ground arith,
        grind (arith, p, c),
        omega (arith, c),
      )
]

-- A claim's transaction pays out and spends on a new account together exactly the amount of the
-- claim, which is what the miner is debited, and spends only on an account that is needed; there is none only where a new account is needed and
-- the amount is below its cost.
pub instructions_exact :
    (token : TokenBalance) (item : ClaimsQueueItem)
    → ((ixs : List Ix) × (instructions token item ≡ some ixs)
        × (sum_of pays ixs + sum_of costs ixs ≡ item.amount)
        × (sum_of costs ixs ≡ (if needs_ata token then ata_fee else 0)))
      ⊎ ((instructions token item ≡ none) × (needs_ata token ≡ true) × (item.amount < ata_fee))
unfolding instructions claim_amount_of
instructions_exact ui_amount item =
    let (p, c) = claim_ixs_lem item.receiver_pubkey item.amount in
    inl (
      set_compute_unit_price 0 ∷ claim_ixs item.receiver_pubkey item.amount,
      refl,
      omega (arith, p, c),
      omega (arith, c),
    )
instructions_exact rpc_error item = elim (new_account rpc_error item refl) [
  | inl a ↦ inl a
  | inr (e, low) ↦ inr (e, refl, low)
]
instructions_exact no_ui_amount item = elim (new_account no_ui_amount item refl) [
  | inl a ↦ inl a
  | inr (e, low) ↦ inr (e, refl, low)
]
