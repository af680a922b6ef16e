-- ===== src/Database/Rounds.antt =====
-- The methods on challenges, earnings and submissions.
use bitz_pool.Common.{
  ℕ, suc, ◌+◌, Bool, true, false, none, some, List, [], ◌∷◌, ◌++◌, ◌==◌, if◌then◌else◌, length,
  bytes_eq,
}
use bitz_pool.Database.Tables.{
  Challenge, InsertChallenge, InsertEarning, InsertSubmission, Submission, Tables,
}
use bitz_pool.Database.Link.{
  failed_to_insert_row, failed_to_update_row, Result, ok, err, Link, Query, call, expect_rows, find,
  select,
}
use bitz_pool.Database.Ledger.{update_where}

unfoldable pub get_challenge_by_challenge : Link → List ℕ → Tables → Result Challenge × Tables
get_challenge_by_challenge link challenge =
    call link (select (λ c. bytes_eq c.challenge challenge) (λ t. t.challenges))

-- `INSERT INTO challenges`: the challenge is unique.
unfoldable pub insert_challenge : InsertChallenge → Query ℕ
insert_challenge c t = elim (find (λ d. bytes_eq d.challenge c.challenge) t.challenges) [
  | some _ ↦ none
  | none ↦ some (
    1,
    record t {
      next_id = suc t.next_id;
      challenges =
          record {
            id = t.next_id;
            pool_id = c.pool_id;
            submission_id = none;
            challenge = c.challenge;
            rewards_earned = c.rewards_earned;
          }
          ∷ t.challenges;
    },
  )
]

unfoldable pub add_new_challenge : Link → InsertChallenge → Tables → Result (Unit {0}) × Tables
unfolding insert_challenge
add_new_challenge link challenge t =
    expect_rows (λ n. n == 1) failed_to_insert_row (call link (insert_challenge challenge) t)

unfoldable pub set_rewards : List ℕ → ℕ → ℕ → Query ℕ
set_rewards challenge submission_id rewards t =
    elim (update_where (λ c. bytes_eq c.challenge challenge)
      (λ c. some (record c { rewards_earned = some rewards; submission_id = some submission_id }))
      t.challenges) [ none ↦ none | some (n, cs) ↦ some (n, record t { challenges = cs }) ]

unfoldable pub update_challenge_rewards :
    Link → List ℕ → ℕ → ℕ → Tables → Result (Unit {0}) × Tables
unfolding set_rewards update_where
update_challenge_rewards link challenge submission_id rewards t =
    expect_rows (λ n. n == 1) failed_to_update_row
      (call link (set_rewards challenge submission_id rewards) t)

-- A batch reports the number of its rows; that of an empty one is 0.
abbrev pub some_rows : ℕ → Bool
some_rows n = if n == 0 then false else true

-- Nothing reads the order of the earnings.
unfoldable pub insert_earnings : List InsertEarning → Query ℕ
insert_earnings batch t = some (length batch, record t { earnings = batch ++ t.earnings })

unfoldable pub add_new_earnings_batch :
    Link → List InsertEarning → Tables → Result (Unit {0}) × Tables
unfolding insert_earnings
add_new_earnings_batch link earnings t =
    expect_rows some_rows failed_to_insert_row (call link (insert_earnings earnings) t)

-- The rows of a batch get their ids in order, so the last of them comes first.
number_rows : ℕ → List InsertSubmission → List Submission → List Submission
number_rows id [] acc = acc
number_rows id (r ∷ rs) acc = number_rows (suc id) rs (record { id = id; row = r } ∷ acc)

unfoldable pub insert_submissions : List InsertSubmission → Query ℕ
unfolding number_rows
insert_submissions batch t = some (
  length batch,
  record t {
    next_id = t.next_id + length batch;
    submissions = number_rows t.next_id batch t.submissions;
  },
)

unfoldable pub add_new_submissions_batch :
    Link → List InsertSubmission → Tables → Result (Unit {0}) × Tables
unfolding insert_submissions
add_new_submissions_batch link submissions t =
    expect_rows some_rows failed_to_insert_row (call link (insert_submissions submissions) t)

abbrev pub id_of : Result Submission × Tables → Result ℕ × Tables
id_of (ok s, t) = (ok s.id, t)
id_of (err e, t) = (err e, t)

unfoldable pub get_submission_id_with_nonce : Link → ℕ → Tables → Result ℕ × Tables
get_submission_id_with_nonce link nonce t =
    id_of (call link (select (λ s. s.row.nonce == nonce) (λ u. u.submissions)) t)
