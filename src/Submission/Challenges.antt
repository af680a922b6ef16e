-- ===== src/Submission/Challenges.antt =====
-- The challenge of an epoch in the database: inserted, or found there.
use bitz_pool.Common.{
  ℕ, suc, ◌≡◌, refl, Option, none, some, List, [], ◌∷◌, bytes_eq, bytes_eq_refl, arith,
  Option-cases, inl, inr,
}
use bitz_pool.Database.Tables.{InsertChallenge, Challenge, Tables}
use bitz_pool.Database.Link.{Link, linked, ok, err, find}
use bitz_pool.Database.Rounds.{get_challenge_by_challenge, add_new_challenge, insert_challenge}
use bitz_pool.Rewards.Batches.{Session}

-- `while let Err(_) = add_new_challenge(..)`, which also ends when the challenge is found. `none`
-- is a loop that is still running when the links end.
unfoldable pub ensure_challenge : InsertChallenge → Session → Option Session
ensure_challenge c ([], t) = none
ensure_challenge c (link ∷ [], t) = elim (add_new_challenge link c t).0 [
  | ok _ ↦ some ([], (add_new_challenge link c t).1)
  | err _ ↦ none
]
ensure_challenge c (link ∷ check ∷ links, t) =
    let t' = (add_new_challenge link c t).1 in
    elim (add_new_challenge link c t).0 [
      | ok _ ↦ some (check ∷ links, t')
      | err _ ↦ elim (get_challenge_by_challenge check c.challenge t').0 [
        | ok _ ↦ some (links, t')
        | err _ ↦ ensure_challenge c (links, t')
      ]
    ]

-- Whether a row has the challenge.
abbrev pub HasChallenge : List ℕ → Tables → Type 0
HasChallenge challenge t =
    (d : Challenge) × (find (λ x. bytes_eq x.challenge challenge) t.challenges ≡ some d)

abbrev new_row : InsertChallenge → Tables → Challenge
new_row c t = record {
  id = t.next_id;
  pool_id = c.pool_id;
  submission_id = none;
  challenge = c.challenge;
  rewards_earned = c.rewards_earned;
}

-- With the database in reach the loop ends, whether the challenge was there or not, and then the
-- database has it; a row that has it already is kept as it is.
ensure_challenge-HasChallenge :
    (c : InsertChallenge) (links : List Link) (t : Tables)
    → (s : Session) × (ensure_challenge c (linked ∷ linked ∷ links, t) ≡ some s)
      × HasChallenge c.challenge s.1
      × (HasChallenge c.challenge t → s.1 ≡ t)
unfolding ensure_challenge add_new_challenge insert_challenge get_challenge_by_challenge
ensure_challenge-HasChallenge c links t =
    elim (Option-cases (find (λ d. bytes_eq d.challenge c.challenge) t.challenges)) [
      | inl new ↦ (
        (
          linked ∷ links,
          record t { next_id = suc t.next_id; challenges = new_row c t ∷ t.challenges },
        ),
        ground arith,
        (new_row c t, ground (arith, bytes_eq_refl c.challenge)),
        λ h. absurd (ground (arith, h)),
      )
      | inr (d, old) ↦ ((links, t), ground arith, (d, old), λ h. refl)
    ]
