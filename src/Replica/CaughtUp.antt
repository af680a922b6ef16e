-- ===== src/Replica/CaughtUp.antt =====
-- The reads by public key on a replica that has caught up, against those of src/app_database.rs by
-- the id of the miner.
use bitz_pool.Common.{
  ℕ, ◌≡◌, refl, ap, ◌∙◌, subst, Bool, Bool-cases, true, false, Option, Option-cases, some, List, [],
  ◌∷◌, ◌==◌, ==_iff, any, map, arith, inl, inr,
}
use bitz_pool.Database.Tables.{Miner, Reward, Tables}
use bitz_pool.Database.Link.{
  Link, no_connection, no_interaction, server_error, linked, ok, find, call, select,
}
use bitz_pool.Database.Miners.{get_miner_by_pubkey_str}
use bitz_pool.Database.Ledger
use bitz_pool.Database.Ledger.{get_miner_rewards_by_id, get_last_claim}
use bitz_pool.Database.Valid.{IsValid, Distinct}
use bitz_pool.Replica
use bitz_pool.Replica.{is_of, read, get_miner_rewards, get_last_claim_by_pubkey}

-- A public key that no miner has.
is_of_fresh :
    (k id : ℕ) (miners : List Miner)
    → any (λ x. x == k) (map (λ m. m.pubkey) miners) ≡ false
    → is_of k miners id ≡ false
is_of_fresh k id [] h = refl
is_of_fresh k id (m ∷ miners) h = ground (arith, is_of_fresh k id miners)

-- With distinct public keys the join selects the rows of the one miner.
is_of_exact :
    (k id : ℕ) (m : Miner) (miners : List Miner)
    → Distinct (map (λ x. x.pubkey) miners)
    → find (λ x. x.pubkey == k) miners ≡ some m
    → is_of k miners id ≡ (id == m.id)
is_of_exact k id m [] d h = cc
is_of_exact k id m (x ∷ miners) d h = elim (Bool-cases (x.pubkey == k)) [
  | inl e ↦
      let same = (==_iff x.pubkey k).0 e in
      let fresh =
        is_of_fresh k id miners
          (subst (λ j. any (λ y. y == j) (map (λ n. n.pubkey) miners) ≡ false) same d.0) in
      let here : x ≡ m = ground arith in
      let its_id = ap (λ n. n.id) here in ground (arith, fresh, its_id)
  | inr e ↦ ground (arith, is_of_exact k id m miners d.1)
]

-- A row that the join selects belongs to the miner that is found by the key.
pub is_of-find :
    (k id : ℕ) (miners : List Miner)
    → Distinct (map (λ x. x.pubkey) miners)
    → is_of k miners id ≡ true
    → (m : Miner) × (find (λ x. x.pubkey == k) miners ≡ some m) × (m.id ≡ id)
is_of-find k id [] d h = absurd cc
is_of-find k id (x ∷ miners) d h = elim (Bool-cases (x.pubkey == k)) [
  | inl e ↦
      let same = (==_iff x.pubkey k).0 e in
      let fresh =
        is_of_fresh k id miners
          (subst (λ j. any (λ y. y == j) (map (λ n. n.pubkey) miners) ≡ false) same d.0) in
      (x, ground arith, ground (arith, fresh))
  | inr e ↦
      let rest : is_of k miners id ≡ true = ground arith in
      let (m, at, its) = is_of-find k id miners d.1 rest in (m, ground (arith, at), its)
]

find_ext :
    {A : Type 0} (p q : A → Bool) (xs : List A) → ((x : A) → p x ≡ q x) → find p xs ≡ find q xs
find_ext p q [] h = refl
find_ext p q (x ∷ xs) h = ground (arith, h x, find_ext p q xs h)

-- One row, read on the replica and on the primary database.
pub read-select :
    {A : Type 0} (q : Replica.Tables → Option A) (p : A → Bool) (rows : Tables → List A)
    (r : Replica.Tables) (t : Tables)
    → q r ≡ find p (rows t)
    → (link : Link) → read link q r ≡ (call link (select p rows) t).0
read-select q p rows r t h no_connection = refl
read-select q p rows r t h no_interaction = refl
read-select q p rows r t h server_error = refl
read-select q p rows r t h linked = elim (Option-cases (find p (rows t))) [
  | inl e ↦ ground (arith, h, e)
  | inr (a, e) ↦ ground (arith, h, e)
]

-- On a replica with the miners, balances and claims of the primary database, whose keys are distinct,
-- the balance and the last claim that are read by a public key are those that the primary database
-- has under the id of the miner with that key; an error of the connection or of the server, or a
-- missing row, is the same error in both.
reads_by_pubkey-agree :
    (k : ℕ) (m : Miner) (t : Tables) (r : Replica.Tables)
    → IsValid t
    → r.miners ≡ t.miners
    → r.rewards ≡ t.rewards
    → r.claims ≡ t.claims
    → get_miner_by_pubkey_str linked k t ≡ (ok m, t)
    → (link : Link)
    → (get_miner_rewards link k r ≡ (get_miner_rewards_by_id link m.id t).0)
      × (get_last_claim_by_pubkey link k r ≡ (get_last_claim link m.id t).0)
unfolding get_miner_by_pubkey_str get_miner_rewards get_last_claim_by_pubkey get_miner_rewards_by_id
    get_last_claim
reads_by_pubkey-agree k m t r v miners rewards claims found link =
    let at : find (λ x. x.pubkey == k) t.miners ≡ some m = ground arith in
    let joined =
      λ (id : ℕ). ap (λ l. is_of k l id) miners ∙ is_of_exact k id m t.miners v.pubkeys at in
    let balance =
      ap (λ l. find (λ x. is_of k r.miners x.miner_id) l) rewards
      ∙ find_ext (λ x. is_of k r.miners x.miner_id) (λ x. x.miner_id == m.id) t.rewards
          (λ x. joined x.miner_id) in
    let claim =
      ap (λ l. find (λ x. is_of k r.miners x.row.miner_id) l) claims
      ∙ find_ext (λ x. is_of k r.miners x.row.miner_id) (λ x. x.row.miner_id == m.id) t.claims
          (λ x. joined x.row.miner_id) in
    (
      read-select (λ u. find (λ x. is_of k u.miners x.miner_id) u.rewards) (λ x. x.miner_id == m.id)
          (λ u. u.rewards) r t balance link,
      read-select (λ u. find (λ x. is_of k u.miners x.row.miner_id) u.claims)
          (λ x. x.row.miner_id == m.id) (λ u. u.claims) r t claim link,
    )

pub find-holds : {A : Type 0} (p : A → Bool) (xs : List A) (a : A) → find p xs ≡ some a → p a ≡ true
find-holds p [] a h = absurd cc
find-holds p (x ∷ xs) a h = elim (Bool-cases (p x)) [
  | inl e ↦ (let same : x ≡ a = ground arith in subst (λ y. p y ≡ true) same e)
  | inr e ↦ find-holds p xs a (ground arith)
]

-- The balance that is read by a public key on both databases, and the last claim of its owner.
pub balance_by_pubkey-agrees :
    (k : ℕ) (t : Tables) (r : Replica.Tables)
    → r.miners ≡ t.miners
    → r.rewards ≡ t.rewards
    → get_miner_rewards linked k r ≡ (Ledger.get_miner_rewards linked k t).0
unfolding get_miner_rewards Ledger.get_miner_rewards
balance_by_pubkey-agrees k t r miners rewards =
    read-select (λ u. find (λ x. is_of k u.miners x.miner_id) u.rewards)
      (λ x. is_of k t.miners x.miner_id) (λ u. u.rewards) r t (rw (miners, rewards) refl) linked

pub last_claim-of_owner :
    (k : ℕ) (row : Reward) (t : Tables) (r : Replica.Tables)
    → IsValid t
    → r.miners ≡ t.miners
    → r.rewards ≡ t.rewards
    → r.claims ≡ t.claims
    → (Ledger.get_miner_rewards linked k t).0 ≡ ok row
    → get_last_claim_by_pubkey linked k r ≡ (get_last_claim linked row.miner_id t).0
unfolding Ledger.get_miner_rewards get_miner_by_pubkey_str
last_claim-of_owner k row t r v miners rewards claims h =
    let at : find (λ x. is_of k t.miners x.miner_id) t.rewards ≡ some row = ground arith in
    let owned = find-holds (λ x. is_of k t.miners x.miner_id) t.rewards row at in
    let (m, found, its) = is_of-find k row.miner_id t.miners v.pubkeys owned in
    subst (λ id. get_last_claim_by_pubkey linked k r ≡ (get_last_claim linked id t).0) its
      (reads_by_pubkey-agree k m t r v miners rewards claims (ground (arith, found)) linked).1
