-- ===== src/Replica.antt =====
-- src/app_rr_database.rs: the queries on the read replica, on rows of its own (it may lag behind).
-- Times are seconds, in the time zone of the server. The hashpowers are sums of doubles in the
-- database, which are exact here.
pub mod CaughtUp
pub mod Best
pub mod Views
mod Tests
use bitz_pool.Common.{
  ℕ, zero, suc, ◌+◌, ◌-◌, ◌*◌, ◌/◌, ◌%◌, ◌^◌, Bool, true, false, not, ◌&&◌, Option, none, some,
  List, [], ◌∷◌, ◌==◌, leb, ltb, any, if◌then◌else◌, drop,
}
use bitz_pool.State.{min_diff, min_hashpower}
use bitz_pool.Database.Tables.{Miner, Reward, Challenge, Claim, InsertEarning}
use bitz_pool.Database.Link.{
  Result, err, AppDatabaseError, failed_to_get_connection_from_pool, interaction_failed,
  query_failed, ok, Link, no_connection, no_interaction, server_error, linked, find,
}

-- A row of `earnings` with its time. The tables list the newest rows first.
pub record EarningRow : Type 0 where
  pub row : InsertEarning
  pub created_at : ℕ

pub record Tables : Type 0 where
  pub miners : List Miner
  pub rewards : List Reward
  pub challenges : List Challenge
  pub claims : List Claim
  pub earnings : List EarningRow

-- The frame of every method: `none` is an error of the statement, or of reading its row.
abbrev pub read : {A : Type 0} → Link → (Tables → Option A) → Tables → Result A
read no_connection q t = err failed_to_get_connection_from_pool
read no_interaction q t = err interaction_failed
read server_error q t = err query_failed
read linked q t = elim (q t) [ none ↦ err query_failed | some a ↦ ok a ]

-- `JOIN miners m ON m.id = .. WHERE m.pubkey = ?`
abbrev pub is_of : ℕ → List Miner → ℕ → Bool
is_of pubkey miners miner_id = any (λ m. m.id == miner_id && m.pubkey == pubkey) miners

unfoldable pub get_miner_rewards : Link → ℕ → Tables → Result Reward
get_miner_rewards link miner_pubkey =
    read link (λ t. find (λ r. is_of miner_pubkey t.miners r.miner_id) t.rewards)

-- A TINYINT is a bit pattern of 8 bits; its place among the 256 values.
abbrev pub rank : ℕ → ℕ
rank difficulty = (difficulty + 128) % 256

-- `MAX(difficulty)`, as a bit pattern; `none` is NULL.
unfoldable pub max_difficulty : List EarningRow → Option ℕ
max_difficulty [] = none
max_difficulty (e ∷ es) = elim (max_difficulty es) [
  | none ↦ some e.row.difficulty
  | some d ↦ some (if ltb (rank d) (rank e.row.difficulty) then e.row.difficulty else d)
]

unfoldable pub filter_rows : (EarningRow → Bool) → List EarningRow → List EarningRow
filter_rows p [] = []
filter_rows p (e ∷ es) = if p e then e ∷ filter_rows p es else filter_rows p es

-- An empty public key selects the rows of every miner.
abbrev pub is_selected : Option ℕ → List Miner → EarningRow → Bool
is_selected none miners e = true
is_selected (some pubkey) miners e = is_of pubkey miners e.row.miner_id

-- `DATE(created_at) = DATE(NOW())`. NULL is no `i8`.
unfoldable pub get_high_difficulty : Link → ℕ → Option ℕ → Tables → Result ℕ
unfolding max_difficulty filter_rows
get_high_difficulty link now pubkey = read link (λ t. max_difficulty (
    filter_rows (λ e. e.created_at / 86400 == now / 86400 && is_selected pubkey t.miners e)
      t.earnings))

-- `MIN_HASHPOWER * POW(2, d - MIN_DIFF)`, cut to an integer: the exponent is the rank less 140.
unfoldable pub hashpower_of_rank : ℕ → ℕ
hashpower_of_rank r = min_hashpower * 2 ^ r / 2 ^ 140

unfoldable pub rank_sum : List EarningRow → ℕ
rank_sum [] = 0
rank_sum (e ∷ es) = 80 * 2 ^ rank e.row.difficulty + rank_sum es

-- The newest challenge but two: `ORDER BY c.id DESC LIMIT 1 OFFSET 2`
abbrev pub third_newest : List Challenge → Option ℕ
third_newest (a ∷ b ∷ c ∷ cs) = some c.id
third_newest _ = none

abbrev pub in_challenge : Option ℕ → EarningRow → Bool
in_challenge none e = false
in_challenge (some id) e = e.row.challenge_id == id

-- The sum over no rows is NULL, which is no `u64`.
abbrev pub sum_or_null : List EarningRow → Option ℕ
sum_or_null [] = none
sum_or_null (e ∷ es) = some (rank_sum (e ∷ es) / 2 ^ 140)

unfoldable pub get_hashpower : Link → Option ℕ → Tables → Result ℕ
unfolding filter_rows rank_sum
get_hashpower link pubkey = read link (λ t. sum_or_null (
    filter_rows (λ e. in_challenge (third_newest t.challenges) e && is_selected pubkey t.miners e)
      t.earnings))

unfoldable pub get_last_claim_by_pubkey : Link → ℕ → Tables → Result Claim
get_last_claim_by_pubkey link pubkey =
    read link (λ t. find (λ c. is_of pubkey t.miners c.row.miner_id) t.claims)

-- `EarningWithChallengeWithSubmission`
pub record EarningView : Type 0 where
  pub miner_id : ℕ
  pub challenge_id : ℕ
  pub pubkey : ℕ
  pub miner_amount : ℕ
  pub best_difficulty : ℕ
  pub miner_difficulty : ℕ
  pub best_challenge_hashpower : ℕ
  pub miner_hashpower : ℕ
  pub created_at : ℕ
  pub total_rewards_earned : Option ℕ

-- `created_at >= NOW() - INTERVAL ..`. A challenge id of the model is never -1.
abbrev pub since : ℕ → ℕ → EarningRow → Bool
since now interval e = leb now (e.created_at + interval)

-- The rows of `challenge_best_difficulty` for one challenge.
unfoldable pub best_difficulty_of : ℕ → ℕ → ℕ → List EarningRow → Option ℕ
unfolding max_difficulty filter_rows
best_difficulty_of now interval challenge_id earnings =
    max_difficulty
      (filter_rows (λ e. since now interval e && e.row.challenge_id == challenge_id) earnings)

-- One row of the result: the joins, or no row where one of them has none.
unfoldable pub view_of : ℕ → ℕ → ℕ → Tables → EarningRow → Option EarningView
unfolding best_difficulty_of hashpower_of_rank
view_of now interval pubkey t e =
    if since now interval e && is_of pubkey t.miners e.row.miner_id
    then (elim (find (λ c. c.id == e.row.challenge_id) t.challenges) [
      | none ↦ none
      | some c ↦ elim (best_difficulty_of now interval e.row.challenge_id t.earnings) [
        | none ↦ none
        | some best ↦ some (record {
          miner_id = e.row.miner_id;
          challenge_id = e.row.challenge_id;
          pubkey = pubkey;
          miner_amount = e.row.amount;
          best_difficulty = best;
          miner_difficulty = e.row.difficulty;
          best_challenge_hashpower = hashpower_of_rank (rank best);
          miner_hashpower = hashpower_of_rank (rank e.row.difficulty);
          created_at = e.created_at;
          total_rewards_earned = c.rewards_earned;
        })
      ]
    ])
    else none

-- `ORDER BY e.created_at DESC`
unfoldable pub insert_by_time : EarningView → List EarningView → List EarningView
insert_by_time v [] = v ∷ []
insert_by_time v (w ∷ ws) =
    if leb w.created_at v.created_at then v ∷ w ∷ ws else w ∷ insert_by_time v ws

unfoldable pub views_of : ℕ → ℕ → ℕ → Tables → List EarningRow → List EarningView
unfolding view_of insert_by_time
views_of now interval pubkey t [] = []
views_of now interval pubkey t (e ∷ es) = elim (view_of now interval pubkey t e) [
  | none ↦ views_of now interval pubkey t es
  | some v ↦ insert_by_time v (views_of now interval pubkey t es)
]

unfoldable pub get_earnings_with_challenge_and_submission_day :
    Link → ℕ → ℕ → Tables → Result (List EarningView)
unfolding views_of
get_earnings_with_challenge_and_submission_day link now pubkey =
    read link (λ t. some (views_of now 86400 pubkey t t.earnings))

unfoldable pub get_earnings_with_challenge_and_submission_hours :
    Link → ℕ → ℕ → Tables → Result (List EarningView)
unfolding views_of
get_earnings_with_challenge_and_submission_hours link now pubkey =
    read link (λ t. some (views_of now 10800 pubkey t t.earnings))
