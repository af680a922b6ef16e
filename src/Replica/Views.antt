-- ===== src/Replica/Views.antt =====
-- What the two lists of earnings show, of the rows that the replica has.
use mathlib.Core.List.{Perm}
use mathlib.Core.List.Perm
use bitz_pool.Common.{
  ℕ, ◌≤◌, ◌≡◌, refl, sym, subst, inl, inr, Bool-cases, none, some, Option, List, [], ◌∷◌, map, All,
  arith, leb→le, leb,
}
use bitz_pool.Replica.{
  EarningRow, Tables, filter_rows, view_of, EarningView, insert_by_time, views_of,
  get_earnings_with_challenge_and_submission_day, get_earnings_with_challenge_and_submission_hours,
}
use bitz_pool.Database.Link.{linked, ok}
use bitz_pool.Replica.Best.{
  shown_of_view, shown_of_row, is_shown, IsFair, HasBest, All-map, ViewIs,
  best_difficulty_of-HasBest, view_of-ViewIs,
}

abbrev pub IsNewestFirst : List EarningView → Type 0
IsNewestFirst [] = Unit
IsNewestFirst (v ∷ ws) = All (λ w. w.created_at ≤ v.created_at) ws × IsNewestFirst ws

insert_by_time-perm :
    (v : EarningView) (ws : List EarningView)
    → Perm (map shown_of_view (insert_by_time v ws)) (shown_of_view v ∷ map shown_of_view ws)
unfolding insert_by_time
insert_by_time-perm v [] = Perm.rfl
insert_by_time-perm v (w ∷ ws) = elim (Bool-cases (leb w.created_at v.created_at)) [
  | inl e ↦ rw e Perm.rfl
  | inr e ↦ rw e (
      Perm.trans (Perm.cons (shown_of_view w) (insert_by_time-perm v ws))
        (Perm.swap (shown_of_view v) (shown_of_view w) (map shown_of_view ws)))
]

insert_by_time-All :
    (P : EarningView → Type 0) (v : EarningView) (ws : List EarningView)
    → P v
    → All P ws
    → All P (insert_by_time v ws)
unfolding insert_by_time
insert_by_time-All P v [] p h = (p, tt)
insert_by_time-All P v (w ∷ ws) p h = elim (Bool-cases (leb w.created_at v.created_at)) [
  | inl e ↦ rw e (p, h)
  | inr e ↦ rw e (h.0, insert_by_time-All P v ws p h.1)
]

insert_by_time-IsNewestFirst :
    (v : EarningView) (ws : List EarningView)
    → IsNewestFirst ws
    → IsNewestFirst (insert_by_time v ws)
unfolding insert_by_time
insert_by_time-IsNewestFirst v [] h = (tt, tt)
insert_by_time-IsNewestFirst v (w ∷ ws) h = elim (Bool-cases (leb w.created_at v.created_at)) [
  | inl e ↦
      let first = leb→le w.created_at v.created_at e in
      rw e ((first, All-map ws (λ x le. omega (arith, first, le)) h.0), h)
  | inr e ↦ rw e (
    insert_by_time-All (λ x. x.created_at ≤ w.created_at) v ws (ground arith) h.0,
    insert_by_time-IsNewestFirst v ws h.1,
  )
]

module _ (now interval pubkey : ℕ) (t : Tables) where
  -- A list against the earnings that it is made of.
  abbrev pub Reports : List EarningRow → List EarningView → Type 0
  Reports es vs =
      Perm (map shown_of_view vs)
        (map shown_of_row (filter_rows (is_shown now interval pubkey t) es))
      × IsNewestFirst vs
      × All (λ v. (v.pubkey ≡ pubkey) × IsFair v) vs

  row-Reports :
      (e : EarningRow) (es : List EarningRow) (vs : List EarningView) (o : Option EarningView)
      → ViewIs now interval pubkey t e o
      → Reports es vs
      → Reports (e ∷ es) (elim o [ none ↦ vs | some v ↦ insert_by_time v vs ])
  unfolding filter_rows
  row-Reports e es vs none is h = rw is h
  row-Reports e es vs (some v) (shown, same, own, le) (perm, sorted, fair) = rw shown (
    Perm.trans (insert_by_time-perm v vs) (
        subst
          (λ s.
            Perm (s ∷ map shown_of_view vs)
              (shown_of_row e ∷ map shown_of_row (filter_rows (is_shown now interval pubkey t) es)))
          (sym same) (Perm.cons (shown_of_row e) perm)),
    insert_by_time-IsNewestFirst v vs sorted,
    insert_by_time-All (λ w. (w.pubkey ≡ pubkey) × IsFair w) v vs (own, le) fair,
  )

  views_of-Reports :
      (es : List EarningRow)
      → All (HasBest now interval pubkey t) es
      → Reports es (views_of now interval pubkey t es)
  unfolding views_of
  views_of-Reports [] h = (Perm.rfl, tt, tt)
  views_of-Reports (e ∷ es) h =
      row-Reports e es (views_of now interval pubkey t es) (view_of now interval pubkey t e)
        (view_of-ViewIs now interval pubkey t e h.0) (views_of-Reports es h.1)

  views_of-Reports_all : Reports t.earnings (views_of now interval pubkey t t.earnings)
  views_of-Reports_all =
      views_of-Reports t.earnings (best_difficulty_of-HasBest now interval pubkey t)

-- The lists that the two methods read, for every replica that is in reach, hold the earnings of the
-- miner with the public key in the last day and in the last three hours, as far as the replica has
-- their challenges: each of them once, none left out, the newest first; and on each row the best
-- difficulty of the challenge is no lower than the miner's.
pub earnings_lists_exact :
    (now pubkey : ℕ) (t : Tables)
    → (day : List EarningView) × (hours : List EarningView)
      × (get_earnings_with_challenge_and_submission_day linked now pubkey t ≡ ok day)
      × (get_earnings_with_challenge_and_submission_hours linked now pubkey t ≡ ok hours)
      × Reports now 86400 pubkey t t.earnings day
      × Reports now 10800 pubkey t t.earnings hours
unfolding get_earnings_with_challenge_and_submission_day
    get_earnings_with_challenge_and_submission_hours
earnings_lists_exact now pubkey t = (
  views_of now 86400 pubkey t t.earnings,
  views_of now 10800 pubkey t t.earnings,
  refl,
  refl,
  views_of-Reports_all now 86400 pubkey t,
  views_of-Reports_all now 10800 pubkey t,
)
