-- ===== src/Rewards/Batches/Once.antt =====
-- The batches of a round credit every reward once.
use bitz_pool.Common.{
  ℕ, zero, suc, ◌+◌, ◌≤◌, ◌<◌, ◌≡◌, refl, Option, some, List, [], ◌∷◌, ◌++◌, arith, length,
  length-drop, take, drop, take-append-drop, map, ap, sym, ◌∙◌, All,
}
use bitz_pool.Database.Tables.{UpdateReward, Reward, Tables}
use bitz_pool.Database.Link.{
  reached, Link, no_connection, no_interaction, server_error, linked, Result, ok, err,
  AppDatabaseError, failed_to_get_connection_from_pool, query_failed,
}
use bitz_pool.Database.Ledger.{total_for, update_rewards}
use bitz_pool.Database.Ledger.Credit.{
  credited, Fits, Fits-first, Fits-second, credited-append, update_rewards_credits,
}
use bitz_pool.Rewards.Batches.{chunks_from, chunks, Session, retry, for_each_batch}

abbrev concat : {A : Type 0} → List (List A) → List A
concat [] = []
concat (xs ∷ xss) = xs ++ concat xss

concat-chunks_from :
    {A : Type 0} (n fuel : ℕ) (xs : List A)
    → length xs ≤ fuel
    → concat (chunks_from (suc n) fuel xs) ≡ xs
unfolding chunks_from
concat-chunks_from n zero [] h = refl
concat-chunks_from n zero (x ∷ xs) h = absurd (omega arith)
concat-chunks_from n (suc fuel) [] h = refl
concat-chunks_from n (suc fuel) (x ∷ xs) h =
    ap (λ l. x ∷ l)
      (ap (λ l. take n xs ++ l)
          (concat-chunks_from n fuel (drop n xs) (omega (arith, length-drop n xs)))
        ∙ take-append-drop n xs)

abbrev NotEmpty : {A : Type 0} → List A → Type 0
NotEmpty xs = 0 < length xs

chunks_from-NotEmpty :
    {A : Type 0} (n fuel : ℕ) (xs : List A) → All NotEmpty (chunks_from (suc n) fuel xs)
unfolding chunks_from
chunks_from-NotEmpty n zero xs = tt
chunks_from-NotEmpty n (suc fuel) [] = tt
chunks_from-NotEmpty n (suc fuel) (x ∷ xs) = (omega arith, chunks_from-NotEmpty n fuel (drop n xs))

-- A failure that the code sees: no connection, or a failed interaction.
abbrev pub IsVisible : Link → Type 0
IsVisible server_error = ⊥
IsVisible _ = Unit

abbrev pay : List UpdateReward → Tables → Tables
pay batch t = record t { rewards = map (credited batch) t.rewards }

retry-err :
    {A : Type 0} (op : Link → Tables → Result A × Tables) (e : AppDatabaseError) (link : Link)
    (links : List Link) (t : Tables)
    → op link t ≡ (err e, t)
    → retry op (link ∷ links, t) ≡ retry op (links, t)
unfolding retry
retry-err op e link links t h =
    ap (λ p. elim p.0 [ ok _ ↦ some (links, p.1) | err _ ↦ retry op (links, p.1) ]) h

pub retry-ok :
    {A : Type 0} (op : Link → Tables → Result A × Tables) (a : A) (link : Link) (links : List Link)
    (t t' : Tables)
    → op link t ≡ (ok a, t')
    → retry op (link ∷ links, t) ≡ some (links, t')
unfolding retry
retry-ok op a link links t t' h =
    ap (λ p. elim p.0 [ ok _ ↦ some (links, p.1) | err _ ↦ retry op (links, p.1) ]) h

-- The result of paying batches: what is left of the links, and what they have paid.
abbrev Pays : ℕ → List UpdateReward → Tables → List Link → Option Session → Type 0
Pays n batch t links s =
    (ls : List Link) × (s ≡ some (ls, pay batch t))
    × All IsVisible ls
    × (n + reached ls ≡ reached links)

retry-Pays :
    (u : UpdateReward) (us : List UpdateReward) (t : Tables)
    → All (Fits (u ∷ us)) t.rewards
    → (links : List Link) → All IsVisible links
    → 0 < reached links
    → Pays 1 (u ∷ us) t links (retry (λ l. update_rewards l (u ∷ us)) (links, t))
unfolding update_rewards
retry-Pays u us t fits [] seen h = absurd (omega arith)
retry-Pays u us t fits (no_connection ∷ links) seen h =
    let (ls, e, seen', used) = retry-Pays u us t fits links seen.1 (omega (arith, h)) in
    (
      ls,
      retry-err (λ l. update_rewards l (u ∷ us)) failed_to_get_connection_from_pool no_connection
            links t refl
          ∙ e,
      seen',
      omega (arith, used),
    )
retry-Pays u us t fits (no_interaction ∷ links) seen h =
    let (ls, e, seen', used) = retry-Pays u us t fits links seen.1 (omega (arith, h)) in
    (
      ls,
      retry-err (λ l. update_rewards l (u ∷ us)) query_failed no_interaction links t refl ∙ e,
      seen',
      omega (arith, used),
    )
retry-Pays u us t fits (server_error ∷ links) seen h = absurd seen.0
retry-Pays u us t fits (linked ∷ links) seen h = (
  links,
  retry-ok (λ l. update_rewards l (u ∷ us)) tt linked links t (pay (u ∷ us) t)
      (update_rewards_credits u us t fits),
  seen.1,
  refl,
)

pay-append : (xs ys : List UpdateReward) (t : Tables) → pay ys (pay xs t) ≡ pay (xs ++ ys) t
pay-append xs ys t = rw (credited-append xs ys t.rewards) refl

credited-nil : (rows : List Reward) → map (credited []) rows ≡ rows
unfolding total_for
credited-nil [] = refl
credited-nil (r ∷ rows) = ground (arith, credited-nil rows)

batches-Pays :
    (batches : List (List UpdateReward))
    → All NotEmpty batches
    → (t : Tables) → All (Fits (concat batches)) t.rewards
    → (links : List Link) → All IsVisible links
    → length batches ≤ reached links
    → Pays
        (length batches)
        (concat batches)
        t
        links
        (for_each_batch update_rewards batches (links, t))
unfolding for_each_batch
batches-Pays [] full t fits links seen h = (
  links,
  ap (λ rs. some (links, record t { rewards = rs })) (sym (credited-nil t.rewards)),
  seen,
  omega arith,
)
batches-Pays ([] ∷ batches) full t fits links seen h = absurd (omega (arith, full.0))
batches-Pays ((u ∷ us) ∷ batches) full t fits links seen h =
    let all = u ∷ us in
    let (ls, e, seen', used) =
      retry-Pays u us t (Fits-first all (concat batches) t.rewards fits) links seen (omega arith) in
    let (ls', e', seen'', used') =
      batches-Pays batches full.1 (pay all t) (Fits-second all (concat batches) t.rewards fits) ls
        seen' (omega arith) in
    (
      ls',
      rw (e, for_each_batch) (e' ∙ ap (λ t'. some (ls', t')) (pay-append all (concat batches) t)),
      seen'',
      omega arith,
    )

-- The rewards of a round are credited once each, in full, and nothing else changes, whatever
-- calls fail visibly in between (no connection, a failed interaction), as long as the balances
-- stay in range and as many calls reach the database as there are batches; the loops then end.
pub rewards_credited_once :
    (rewards : List UpdateReward) (t : Tables)
    → All (Fits rewards) t.rewards
    → (links : List Link) → All IsVisible links
    → length (chunks 200 rewards) ≤ reached links
    → (ls : List Link) × (for_each_batch update_rewards (chunks 200 rewards) (links, t)
        ≡ some (ls, record t { rewards = map (credited rewards) t.rewards }))
      × (length (chunks 200 rewards) + reached ls ≡ reached links)
unfolding chunks
rewards_credited_once rewards t fits links seen h =
    let whole = concat-chunks_from 199 (length rewards) rewards (omega arith) in
    let (ls, e, _, used) =
      batches-Pays (chunks 200 rewards) (chunks_from-NotEmpty 199 (length rewards) rewards) t
        (rw whole fits) links seen h in
    (ls, e ∙ ap (λ b. some (ls, pay b t)) whole, used)
