-- ===== src/Start/Prepared.antt =====
-- What the database has once the server has started.
use bitz_pool.Common.{
  ℕ, zero, suc, ◌+◌, ◌≤◌, ◌≡◌, refl, ap, sym, subst, false, ltb, some, List, [], ◌==◌, arith,
}
use bitz_pool.State.{Proof, init}
use bitz_pool.Database.Tables.{Miner, Pool, Tables}
use bitz_pool.Database.Link.{linked, ok, find}
use bitz_pool.Database.Miners.{get_pool_by_authority_pubkey, get_miner_by_pubkey_str}
use bitz_pool.Database.Rounds.{get_challenge_by_challenge}
use bitz_pool.Database.Valid.{IsValid}
use bitz_pool.Submission.Challenges.{HasChallenge}
use bitz_pool.Start.{
  Config, value, Start, ◌>>=◌, or_panic, pure, configure, ensure_pool, commission_miner,
  ensure_first_challenge, start_database, start,
}
use bitz_pool.Start.Parts.{
  linked_for, Gives, Gives-bind, HasMiner, ensure_pool-Gives, commission_miner-Gives,
  ensure_first_challenge-Gives,
}

-- The pool, the miner of the commission and the challenge, as the configuration names them.
abbrev pub IsPrepared : ℕ → ℕ → List ℕ → Config → Tables → Type 0
IsPrepared authority commission_pubkey challenge config t =
    ((p : Pool) × (find (λ q. q.authority_pubkey == authority) t.pools ≡ some p)
      × (p.id ≡ config.pool_id))
    × ((m : Miner) × (find (λ x. x.pubkey == commission_pubkey) t.miners ≡ some m)
        × (m.id ≡ config.commissions_miner_id))
    × HasChallenge challenge t

-- With more calls than a part takes.
with_two :
    {A : Type 0} (n i : ℕ) (P : A → Tables → Type 0) (f : Start A) (t : Tables)
    → ((j : ℕ) → Gives A j P (f (linked_for (suc (suc j)), t)))
    → suc (suc n) ≤ i
    → Gives A n P (f (linked_for i, t))
with_two n zero P f t h le = absurd (omega arith)
with_two n (suc zero) P f t h le = absurd (omega arith)
with_two n (suc (suc j)) P f t h le =
    let (a, m, t', e, more, p) = h j in (a, m, t', e, omega arith, p)

with_three :
    {A : Type 0} (n i : ℕ) (P : A → Tables → Type 0) (f : Start A) (t : Tables)
    → ((j : ℕ) → Gives A j P (f (linked_for (suc (suc (suc j))), t)))
    → suc (suc (suc n)) ≤ i
    → Gives A n P (f (linked_for i, t))
with_three n zero P f t h le = absurd (omega arith)
with_three n (suc zero) P f t h le = absurd (omega arith)
with_three n (suc (suc zero)) P f t h le = absurd (omega arith)
with_three n (suc (suc (suc j))) P f t h le =
    let (a, m, t', e, more, p) = h j in (a, m, t', e, omega arith, p)

-- The lookup of a pool that is there.
get_pool_found :
    (authority : ℕ) (q : Pool) (t : Tables)
    → find (λ x. x.authority_pubkey == authority) t.pools ≡ some q
    → get_pool_by_authority_pubkey linked authority t ≡ (ok q, t)
unfolding get_pool_by_authority_pubkey
get_pool_found authority q t known = ground arith

pool_found :
    (authority id j : ℕ) (challenge : List ℕ) (q : Pool) (t : Tables)
    → find (λ x. x.authority_pubkey == authority) t.pools ≡ some q
    → configure authority id challenge (linked_for (suc j), t)
      ≡ (ensure_first_challenge q.id challenge >>= λ u.
            pure (record { pool_id = q.id; commissions_miner_id = id }))
          (linked_for j, t)
unfolding configure
pool_found authority id j challenge q t known =
    ap
      (λ r.
        (or_panic r.0 >>= λ db_pool. ensure_first_challenge db_pool.id challenge >>= λ u.
        pure (record { pool_id = db_pool.id; commissions_miner_id = id }))
          (linked_for j, r.1))
      (get_pool_found authority q t known)

configure-Gives :
    (authority pubkey id m j : ℕ) (challenge : List ℕ) (q : Pool) (t : Tables)
    → IsValid t
    → find (λ x. x.authority_pubkey == authority) t.pools ≡ some q
    → HasMiner pubkey id t
    → 3 + m ≤ j
    → Gives Config m
        (λ config t'. IsValid t' × IsPrepared authority pubkey challenge config t')
        (configure authority id challenge (linked_for j, t))
configure-Gives authority pubkey id m zero challenge q t v known miner le = absurd (omega arith)
configure-Gives authority pubkey id m (suc j) challenge q t v known miner le =
    subst
      (Gives Config m (λ config t'. IsValid t' × IsPrepared authority pubkey challenge config t'))
      (sym (pool_found authority id j challenge q t known))
      (Gives-bind m m _ _ _ _
        (with_two m j _ (ensure_first_challenge q.id challenge) t
          (λ k. ensure_first_challenge-Gives q.id k challenge t v) (omega arith))
        λ u k t' more (v', there, pools, miners). (
          record { pool_id = q.id; commissions_miner_id = id },
          k,
          t',
          refl,
          more,
          (v', ((q, rw pools known, refl), (miner.0, rw miners miner.1, miner.2), there)),
        ))

start_database-Gives :
    (authority proof_pubkey pubkey m : ℕ) (p : Proof) (t : Tables)
    → IsValid t
    → Gives Config m
        (λ config t'. IsValid t' × IsPrepared authority pubkey p.challenge config t')
        (start_database authority proof_pubkey pubkey p (linked_for (8 + m), t))
unfolding start_database
start_database-Gives authority proof_pubkey pubkey m p t v =
    Gives-bind (6 + m) m _ _ _ _
      (with_two (6 + m) (8 + m) _ (ensure_pool authority proof_pubkey) t
        (λ j. ensure_pool-Gives authority proof_pubkey j t v) (omega arith))
      λ u i t1 le (v1, (q, known)).
        Gives-bind (3 + m) m _ _ _ _
          (with_three (3 + m) i _ (commission_miner authority pubkey) t1
            (λ j. commission_miner-Gives authority pubkey j q t1 v1 known) (omega arith))
          λ id j t2 le2 (v2, miner, pools).
            configure-Gives authority pubkey id m j p.challenge q t2 v2 (rw pools known) miner le2

-- A start that finds everything.
start_database_again :
    (authority proof_pubkey pubkey : ℕ) (p : Proof) (config : Config) (t : Tables)
    → IsPrepared authority pubkey p.challenge config t
    → start_database authority proof_pubkey pubkey p (linked_for 4, t) ≡ some (value config ([], t))
unfolding start_database ensure_pool commission_miner configure ensure_first_challenge
    get_pool_by_authority_pubkey get_miner_by_pubkey_str get_challenge_by_challenge
start_database_again authority proof_pubkey pubkey p config t
      ((q, pool, pid), (m, miner, mid), (c, there)) =
    ground (arith, pool, pid, miner, mid, there)

-- A start with enough funds and a proof, on a database in reach with valid keys, ends with the systems
-- on that proof and a configuration: the database then has the pool, the miner of the commission and
-- the challenge of the proof, with the ids that the configuration names, and its keys are valid,
-- whatever of these was there before. A second start then finds the same configuration and changes
-- nothing.
pub start-prepares :
    (balance authority proof_pubkey commission_pubkey : ℕ) (p : Proof) (t : Tables)
    → 100000 ≤ balance
    → IsValid t
    → (config : Config) × (m : ℕ) × (t' : Tables) × (start
          (some balance)
          (some p)
          authority
          proof_pubkey
          commission_pubkey
          (linked_for 8, t)
        ≡ some (value (config, init p) (linked_for m, t')))
      × IsValid t'
      × IsPrepared authority commission_pubkey p.challenge config t'
      × (start (some balance) (some p) authority proof_pubkey commission_pubkey (linked_for 4, t')
          ≡ some (value (config, init p) ([], t')))
unfolding start
start-prepares balance authority proof_pubkey commission_pubkey p t rich v =
    let (config, m, t', e, more, (v', ready)) =
      start_database-Gives authority proof_pubkey commission_pubkey 0 p t v in
    let enough : ltb balance 100000 ≡ false = ground arith in
    (
      config,
      m,
      t',
      rw (enough, e) refl,
      v',
      ready,
      rw (enough, start_database_again authority proof_pubkey commission_pubkey p config t' ready)
          refl,
    )
