-- ===== src/Start/Parts.antt =====
-- What each part of the start leaves in the database.
use bitz_pool.Common.{
  ℕ, zero, suc, ◌≤◌, ◌≡◌, refl, sym, subst, true, none, some, Option, Option-cases, inl, inr, List,
  [], ◌∷◌, ◌==◌, ==_refl, bytes_eq, bytes_eq_refl, arith,
}
use bitz_pool.Database.Tables.{Miner, Pool, Challenge, Tables}
use bitz_pool.Database.Link.{Link, linked, find}
use bitz_pool.Database.Miners.{
  get_pool_by_authority_pubkey, add_new_pool, get_miner_by_pubkey_str, insert_pool,
}
use bitz_pool.Database.Miners.Signup.{signed_up}
use bitz_pool.Database.Rounds.{get_challenge_by_challenge, add_new_challenge, insert_challenge}
use bitz_pool.Database.Valid.{IsValid, signed_up-IsValid}
use bitz_pool.Database.Valid.Kept.{same_keys}
use bitz_pool.Database.Account.{signup_new, find_new}
use bitz_pool.Submission.Challenges.{HasChallenge}
use bitz_pool.Start.{
  Outcome, value, exit, Start, ensure_pool, commission_miner, ensure_first_challenge,
}

-- n calls that reach the database.
abbrev pub linked_for : ℕ → List Link
linked_for zero = []
linked_for (suc n) = linked ∷ linked_for n

-- A part that ends with a value and tables that satisfy P, and leaves n calls at least.
abbrev pub Gives : (A : Type 0) → ℕ → (A → Tables → Type 0) → Option (Outcome A) → Type 0
Gives A n P o =
    (a : A) × (m : ℕ) × (t : Tables) × (o ≡ some (value a (linked_for m, t))) × (n ≤ m) × P a t

pub Gives-bind :
    {A B : Type 0} (k n : ℕ) (P : A → Tables → Type 0) (Q : B → Tables → Type 0)
    (o : Option (Outcome A)) (f : A → Start B)
    → Gives A k P o
    → ((a : A) (m : ℕ) (t : Tables) → k ≤ m → P a t → Gives B n Q (f a (linked_for m, t)))
    → Gives B n Q
        (elim o [ none ↦ none | some (value a s) ↦ f a s | some (exit e) ↦ some (exit e) ])
Gives-bind {B = B} k n P Q o f (a, m, t, e, le, p) next =
    subst
      (λ x.
        Gives B n Q
          (elim x [ none ↦ none | some (value a s) ↦ f a s | some (exit e) ↦ some (exit e) ]))
      (sym e) (next a m t le p)

abbrev pub HasPool : ℕ → Tables → Type 0
HasPool authority t = (p : Pool) × (find (λ q. q.authority_pubkey == authority) t.pools ≡ some p)

abbrev pub HasMiner : ℕ → ℕ → Tables → Type 0
HasMiner pubkey id t =
    (m : Miner) × (find (λ x. x.pubkey == pubkey) t.miners ≡ some m) × (m.id ≡ id)

pub ensure_pool-Gives :
    (authority proof_pubkey m : ℕ) (t : Tables)
    → IsValid t
    → Gives
        (Unit {0})
        m
        (λ u t'. IsValid t' × HasPool authority t')
        (ensure_pool authority proof_pubkey (linked_for (suc (suc m)), t))
unfolding ensure_pool get_pool_by_authority_pubkey add_new_pool insert_pool
ensure_pool-Gives authority proof_pubkey m t v =
    elim (Option-cases (find (λ q. q.authority_pubkey == authority) t.pools)) [
      | inl new ↦
          let p : Pool = record {
            id = t.next_id;
            proof_pubkey = proof_pubkey;
            authority_pubkey = authority;
            total_rewards = 0;
            claimed_rewards = 0;
          } in
          let t' : Tables = record t { next_id = suc t.next_id; pools = p ∷ t.pools } in
          (
            tt,
            m,
            t',
            ground arith,
            omega arith,
            (same_keys t t' refl refl (omega arith) v, (p, ground (arith, ==_refl authority))),
          )
      | inr (p, there) ↦ (tt, suc m, t, ground arith, omega arith, (v, (p, there)))
    ]

pub commission_miner-Gives :
    (authority pubkey m : ℕ) (p : Pool) (t : Tables)
    → IsValid t
    → find (λ q. q.authority_pubkey == authority) t.pools ≡ some p
    → Gives ℕ m
        (λ id t'. IsValid t' × HasMiner pubkey id t' × (t'.pools ≡ t.pools))
        (commission_miner authority pubkey (linked_for (suc (suc (suc m))), t))
unfolding commission_miner get_miner_by_pubkey_str
commission_miner-Gives authority pubkey m p t v known =
    elim (Option-cases (find (λ x. x.pubkey == pubkey) t.miners)) [
      | inl new ↦
          let up = signup_new pubkey authority p t v new known in
          (
            t.next_id,
            m,
            signed_up pubkey t,
            ground (arith, up, find_new pubkey t),
            omega arith,
            (
              signed_up-IsValid pubkey t new v,
              (record { id = t.next_id; pubkey = pubkey; enabled = true }, find_new pubkey t, refl),
              refl,
            ),
          )
      | inr (x, there) ↦
          (x.id, suc (suc m), t, ground arith, omega arith, (v, (x, there, refl), refl))
    ]

pub ensure_first_challenge-Gives :
    (pool_id m : ℕ) (challenge : List ℕ) (t : Tables)
    → IsValid t
    → Gives
        (Unit {0})
        m
        (λ u t'.
          IsValid t' × HasChallenge challenge t' × (t'.pools ≡ t.pools) × (t'.miners ≡ t.miners))
        (ensure_first_challenge pool_id challenge (linked_for (suc (suc m)), t))
unfolding ensure_first_challenge get_challenge_by_challenge add_new_challenge insert_challenge
ensure_first_challenge-Gives pool_id m challenge t v =
    elim (Option-cases (find (λ c. bytes_eq c.challenge challenge) t.challenges)) [
      | inl new ↦
          let c : Challenge = record {
            id = t.next_id;
            pool_id = pool_id;
            submission_id = none;
            challenge = challenge;
            rewards_earned = none;
          } in
          let t' : Tables = record t { next_id = suc t.next_id; challenges = c ∷ t.challenges } in
          (
            tt,
            m,
            t',
            ground arith,
            omega arith,
            (
              same_keys t t' refl refl (omega arith) v,
              (c, ground (arith, bytes_eq_refl challenge)),
              refl,
              refl,
            ),
          )
      | inr (c, there) ↦ (tt, suc m, t, ground arith, omega arith, (v, (c, there), refl, refl))
    ]
