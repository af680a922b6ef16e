-- ===== src/Claims/Worker/Steps.antt =====
-- The calls of a confirmed claim: what each does, and that the loop around it ends.
use bitz_pool.Common.{
  ℕ, suc, ◌+◌, ◌-◌, ◌≤◌, ◌<◌, ◌≡◌, ◌≢◌, inl, inr, refl, ap, ◌∙◌, Bool, none, some, List, [], ◌∷◌,
  ◌==◌, if◌then◌else◌, map, All, arith, Bool-cases,
}
use bitz_pool.Common.Word.{u64_mod}
use bitz_pool.Database.Tables.{Tables, Reward, Pool}
use bitz_pool.Database.Link.{
  reached, Link, no_connection, no_interaction, server_error, linked, Result, ok, err,
  AppDatabaseError, Query, call, expect_rows, failed_to_get_connection_from_pool, query_failed,
  interaction_failed,
}
use bitz_pool.Database.Ledger.{
  update_where, sub_bigint, add_bigint, set_balance, set_claimed, debit, claimed_query, unit_of,
  decrease_miner_reward, update_pool_claimed,
}
use bitz_pool.Claims.Worker.{until_ok, unwrapped}

-- A call that is unlinked reports an error and leaves the tables.
abbrev pub Fails : {A : Type 0} → (Link → Tables → Result A × Tables) → Tables → Type 0
Fails op t = (link : Link) → link ≢ linked → (e : AppDatabaseError) × (op link t ≡ (err e, t))

pub call-Fails : {A : Type 0} (q : Query A) (t : Tables) → Fails (λ link. call link q) t
call-Fails q t no_connection h = (failed_to_get_connection_from_pool, refl)
call-Fails q t no_interaction h = (interaction_failed, refl)
call-Fails q t server_error h = (query_failed, refl)
call-Fails q t linked h = absurd (h refl)

no_connection≢linked : no_connection ≢ linked
no_connection≢linked p = cc

no_interaction≢linked : no_interaction ≢ linked
no_interaction≢linked p = cc

server_error≢linked : server_error ≢ linked
server_error≢linked p = cc

pub unit-Fails :
    {A : Type 0} (q : Query A) (t : Tables) → Fails (λ link u. unit_of (call link q u)) t
unit-Fails q t no_connection h = (failed_to_get_connection_from_pool, refl)
unit-Fails q t no_interaction h = (interaction_failed, refl)
unit-Fails q t server_error h = (query_failed, refl)
unit-Fails q t linked h = absurd (h refl)

pub expect-Fails :
    (good : ℕ → Bool) (x : AppDatabaseError) (q : Query ℕ) (t : Tables)
    → Fails (λ link u. expect_rows good x (call link q u)) t
expect-Fails good x q t no_connection h = (failed_to_get_connection_from_pool, refl)
expect-Fails good x q t no_interaction h = (interaction_failed, refl)
expect-Fails good x q t server_error h = (query_failed, refl)
expect-Fails good x q t linked h = absurd (h refl)

pub unwrapped-ok :
    {A : Type 0} (op : Link → Tables → Result A × Tables) (a : A) (link : Link) (links : List Link)
    (t t' : Tables)
    → op link t ≡ (ok a, t')
    → unwrapped op (link ∷ links, t) ≡ some (a, (links, t'))
unfolding unwrapped
unwrapped-ok op a link links t t' =
    ap (λ p. elim p.0 [ ok x ↦ some (x, (links, p.1)) | err _ ↦ none ])

pub until_ok-err :
    {A : Type 0} (op : Link → Tables → Result A × Tables) (e : AppDatabaseError) (link : Link)
    (links : List Link) (t : Tables)
    → op link t ≡ (err e, t)
    → until_ok op (link ∷ links, t) ≡ until_ok op (links, t)
unfolding until_ok
until_ok-err op e link links t =
    ap (λ p. elim p.0 [ ok y ↦ some (y, (links, p.1)) | err _ ↦ until_ok op (links, p.1) ])

-- A loop over a call that works ends at the first link that reaches the database.
pub until_ok-reaches :
    {A : Type 0} (op : Link → Tables → Result A × Tables) (t t' : Tables) (a : A)
    → Fails op t
    → op linked t ≡ (ok a, t')
    → (links : List Link) → 0 < reached links
    → (ls : List Link) × (until_ok op (links, t) ≡ some (a, (ls, t')))
      × (suc (reached ls) ≡ reached links)
unfolding until_ok
until_ok-reaches op t t' a fails works [] h = absurd (omega arith)
until_ok-reaches op t t' a fails works (linked ∷ links) h = (
  links,
  ap (λ p. elim p.0 [ ok x ↦ some (x, (links, p.1)) | err _ ↦ until_ok op (links, p.1) ]) works,
  omega arith,
)
until_ok-reaches op t t' a fails works (no_connection ∷ links) h =
    let (ls, e, used) = until_ok-reaches op t t' a fails works links (omega (arith, h)) in
    let (x, f) = fails no_connection (λ p. no_connection≢linked p) in
    (ls, until_ok-err op x no_connection links t f ∙ e, omega (arith, used))
until_ok-reaches op t t' a fails works (no_interaction ∷ links) h =
    let (ls, e, used) = until_ok-reaches op t t' a fails works links (omega (arith, h)) in
    let (x, f) = fails no_interaction (λ p. no_interaction≢linked p) in
    (ls, until_ok-err op x no_interaction links t f ∙ e, omega (arith, used))
until_ok-reaches op t t' a fails works (server_error ∷ links) h =
    let (ls, e, used) = until_ok-reaches op t t' a fails works links (omega (arith, h)) in
    let (x, f) = fails server_error (λ p. server_error≢linked p) in
    (ls, until_ok-err op x server_error links t f ∙ e, omega (arith, used))

-- The rewards after a debit, and the pool's row after it.
abbrev pub debited : ℕ → ℕ → Reward → Reward
debited miner_id amount r =
    if r.miner_id == miner_id then record r { balance = r.balance - amount } else r

abbrev pub with_claimed : ℕ → ℕ → Pool → Pool
with_claimed authority amount p =
    if p.authority_pubkey == authority
    then record p { claimed_rewards = p.claimed_rewards + amount }
    else p

-- How many pools an authority has.
unfoldable pub pools_of : ℕ → List Pool → ℕ
pools_of authority [] = 0
pools_of authority (p ∷ ps) =
    if p.authority_pubkey == authority then suc (pools_of authority ps) else pools_of authority ps

pub debit_rows :
    (id amount : ℕ) (rows : List Reward)
    → All (λ r. r.miner_id ≡ id → amount ≤ r.balance) rows
    → (n : ℕ) × (update_where
          (λ row. row.miner_id == id)
          (λ row. set_balance row (sub_bigint row.balance amount))
          rows
        ≡ some (n, map (debited id amount) rows))
unfolding update_where
debit_rows id amount [] h = (0, refl)
debit_rows id amount (r ∷ rows) h =
    let (n, rest) = debit_rows id amount rows h.1 in
    elim (Bool-cases (r.miner_id == id)) [
      | inl own ↦ (suc n, let le = h.0 (ground arith) in ground arith)
      | inr other ↦ (n, ground arith)
    ]

pub claimed_rows :
    (authority amount : ℕ) (pools : List Pool)
    → All (λ p. p.claimed_rewards + amount < u64_mod) pools
    → update_where
        (λ p. p.authority_pubkey == authority)
        (λ p. set_claimed p (add_bigint p.claimed_rewards amount))
        pools
      ≡ some (pools_of authority pools, map (with_claimed authority amount) pools)
unfolding update_where pools_of
claimed_rows authority amount [] h = refl
claimed_rows authority amount (p ∷ ps) h =
    let rest = claimed_rows authority amount ps h.1 in ground arith

pub decrease_works :
    (id amount : ℕ) (t : Tables)
    → All (λ r. r.miner_id ≡ id → amount ≤ r.balance) t.rewards
    → decrease_miner_reward linked (record { miner_id = id; balance = amount }) t
      ≡ (ok tt, record t { rewards = map (debited id amount) t.rewards })
unfolding decrease_miner_reward debit
decrease_works id amount t h = let (n, e) = debit_rows id amount t.rewards h in ground (arith, e)

pub claimed_works :
    (authority amount : ℕ) (t : Tables)
    → All (λ p. p.claimed_rewards + amount < u64_mod) t.pools
    → pools_of authority t.pools ≡ 1
    → update_pool_claimed linked authority amount t
      ≡ (ok tt, record t { pools = map (with_claimed authority amount) t.pools })
unfolding update_pool_claimed claimed_query
claimed_works authority amount t h one =
    let e = claimed_rows authority amount t.pools h in ground (arith, e)
