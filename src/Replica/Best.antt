-- ===== src/Replica/Best.antt =====
-- One row of the lists of earnings, and the best difficulty of its challenge.
use bitz_pool.Common.{
  ℕ, ◌≤◌, ◌≡◌, refl, ap, subst, ◌⊎◌, inl, inr, Bool, Bool-cases, true, false, ◌&&◌, Option,
  Option-cases, none, some, List, [], ◌∷◌, ◌==◌, ==_refl, All, arith, ltb→lt, if◌then◌else◌, any,
  ltb,
}
use bitz_pool.Database.Tables.{Challenge}
use bitz_pool.Database.Link.{find}
use bitz_pool.Replica.{
  EarningRow, Tables, rank, max_difficulty, filter_rows, is_of, since, best_difficulty_of, view_of,
  EarningView,
}

-- The columns that a row of the list has from its earning.
abbrev Shown : Type 0
Shown = ℕ × ℕ × ℕ × ℕ × ℕ

abbrev pub shown_of_view : EarningView → Shown
shown_of_view v = (v.miner_id, v.challenge_id, v.miner_amount, v.miner_difficulty, v.created_at)

abbrev pub shown_of_row : EarningRow → Shown
shown_of_row e = (e.row.miner_id, e.row.challenge_id, e.row.amount, e.row.difficulty, e.created_at)

abbrev pub has_challenge : List Challenge → EarningRow → Bool
has_challenge challenges e = any (λ c. c.id == e.row.challenge_id) challenges

-- The earnings of the miner in the period whose challenge the replica has.
abbrev pub is_shown : ℕ → ℕ → ℕ → Tables → EarningRow → Bool
is_shown now interval pubkey t e =
    since now interval e && is_of pubkey t.miners e.row.miner_id && has_challenge t.challenges e

-- The best difficulty of the challenge is no lower than the miner's.
abbrev pub IsFair : EarningView → Type 0
IsFair v = rank v.miner_difficulty ≤ rank v.best_difficulty

-- A row among those that a maximum is taken of.
abbrev IsReached : Option ℕ → EarningRow → Type 0
IsReached o e = (d : ℕ) × (o ≡ some d) × (rank e.row.difficulty ≤ rank d)

-- The difficulty that the maximum keeps of two.
abbrev kept : EarningRow → ℕ → ℕ
kept x d = if ltb (rank d) (rank x.row.difficulty) then x.row.difficulty else d

kept-max :
    (x : EarningRow) (d : ℕ)
    → (rank x.row.difficulty ≤ rank (kept x d)) × (rank d ≤ rank (kept x d))
kept-max x d = elim (Bool-cases (ltb (rank d) (rank x.row.difficulty))) [
  | inl h ↦ rw h (omega arith, omega (arith, ltb→lt (rank d) (rank x.row.difficulty) h))
  | inr h ↦ rw h (ground arith, omega arith)
]

pub All-map :
    {A : Type 0} {P Q : A → Type 0} (xs : List A) → ((x : A) → P x → Q x) → All P xs → All Q xs
All-map [] f h = tt
All-map (x ∷ xs) f h = (f x h.0, All-map xs f h.1)

max_difficulty-cons :
    (x : EarningRow) (xs : List EarningRow)
    → IsReached (max_difficulty (x ∷ xs)) x
      × ((e : EarningRow) → IsReached (max_difficulty xs) e → IsReached (max_difficulty (x ∷ xs)) e)
unfolding max_difficulty
max_difficulty-cons x xs = elim (Option-cases (max_difficulty xs)) [
  | inl e ↦ rw e ((x.row.difficulty, refl, omega arith), λ y (d, k, le). absurd cc)
  | inr (d, e) ↦ rw e (
    (kept x d, refl, (kept-max x d).0),
    λ y (d', k, le).
        (kept x d, refl, (let same : d ≡ d' = cc in omega (arith, ap rank same, (kept-max x d).1))),
  )
]

-- Every row that is selected reaches no higher than the maximum of the selection.
filter_rows-IsReached :
    (p : EarningRow → Bool) (rows : List EarningRow)
    → All (λ e. p e ≡ true → IsReached (max_difficulty (filter_rows p rows)) e) rows
unfolding filter_rows
filter_rows-IsReached p [] = tt
filter_rows-IsReached p (x ∷ xs) = elim (Bool-cases (p x)) [
  | inl e ↦
      let whole : x ∷ filter_rows p xs ≡ filter_rows p (x ∷ xs) = ground arith in
      let (own, rest) = max_difficulty-cons x (filter_rows p xs) in
      (
        λ h. subst (λ l. IsReached (max_difficulty l) x) whole own,
        All-map xs (λ y k h. subst (λ l. IsReached (max_difficulty l) y) whole (rest y (k h)))
            (filter_rows-IsReached p xs),
      )
  | inr e ↦
      let whole : filter_rows p xs ≡ filter_rows p (x ∷ xs) = ground arith in
      (
        λ h. absurd cc,
        All-map xs (λ y k h. subst (λ l. IsReached (max_difficulty l) y) whole (k h))
            (filter_rows-IsReached p xs),
      )
]

-- A family of predicates, each at the elements that choose it.
All-choose :
    {A : Type 0} (P : ℕ → A → Type 0) (f : A → ℕ) (xs : List A)
    → ((c : ℕ) → All (P c) xs)
    → All (λ x. P (f x) x) xs
All-choose P f [] h = tt
All-choose P f (x ∷ xs) h = ((h (f x)).0, All-choose P f xs (λ c. (h c).1))

module _ (now interval pubkey : ℕ) (t : Tables) where
  -- An earning of the period is one that the best difficulty of its challenge is taken of.
  abbrev pub HasBest : EarningRow → Type 0
  HasBest e =
      since now interval e ≡ true
      → IsReached (best_difficulty_of now interval e.row.challenge_id t.earnings) e

  pub best_difficulty_of-HasBest : All HasBest t.earnings
  unfolding best_difficulty_of
  best_difficulty_of-HasBest =
      All-map t.earnings (λ e k h. k (ground (arith, h, ==_refl e.row.challenge_id)))
        (All-choose
          (λ c e.
            (since now interval e && e.row.challenge_id == c) ≡ true
            → IsReached
                (max_difficulty
                  (filter_rows (λ x. since now interval x && x.row.challenge_id == c) t.earnings))
                e)
          (λ e. e.row.challenge_id) t.earnings
          (λ c.
            filter_rows-IsReached (λ x. since now interval x && x.row.challenge_id == c)
              t.earnings))

  has_challenge-find :
      (id : ℕ) (cs : List Challenge)
      → (find (λ c. c.id == id) cs ≡ none) × (any (λ c. c.id == id) cs ≡ false)
        ⊎ (c : Challenge) × (find (λ x. x.id == id) cs ≡ some c) × (any (λ x. x.id == id) cs ≡ true)
  has_challenge-find id [] = inl (refl, refl)
  has_challenge-find id (c ∷ cs) = elim (Bool-cases (c.id == id)) [
    | inl e ↦ inr (c, ground arith, ground arith)
    | inr e ↦ elim (has_challenge-find id cs) [
      | inl (a, b) ↦ inl (ground arith, ground arith)
      | inr (d, a, b) ↦ inr (d, ground arith, ground arith)
    ]
  ]

  -- What comes of an earning.
  abbrev pub ViewIs : EarningRow → Option EarningView → Type 0
  ViewIs e none = is_shown now interval pubkey t e ≡ false
  ViewIs e (some v) =
      (is_shown now interval pubkey t e ≡ true)
      × (shown_of_view v ≡ shown_of_row e)
      × (v.pubkey ≡ pubkey)
      × IsFair v

  pub view_of-ViewIs : (e : EarningRow) → HasBest e → ViewIs e (view_of now interval pubkey t e)
  unfolding view_of
  view_of-ViewIs e h =
      elim (Bool-cases (since now interval e && is_of pubkey t.miners e.row.miner_id)) [
        | inr k ↦ rw k (ground arith)
        | inl k ↦ elim (has_challenge-find e.row.challenge_id t.challenges) [
          | inl (a, b) ↦ rw (k, a) (ground arith)
          | inr (c, a, b) ↦
              let (best, at, le) = h (ground arith) in rw (k, a, at) (ground arith, refl, refl, le)
        ]
      ]
