-- ===== src/Epochs/Payout.antt =====
-- The task that pays out a mined round, from its event on: src/systems/pool_submission_system.rs.
use bitz_pool.Common.{
  ◌>>=◌, ℕ, zero, suc, ◌+◌, ◌≤◌, ◌<◌, ◌≡◌, refl, sym, Option, none, some, Option-cases, inl, inr,
  List, [], ◌∷◌, map, length, sum_of, All, arith, ◌++◌, lt→ltb, bytes_eq, bytes_eq_refl,
}
use bitz_pool.Common.Word.{u64_mod}
use bitz_pool.State.{Drillx}
use bitz_pool.Database.Tables.{Challenge, InsertChallenge, Tables, UpdateReward, Reward}
use bitz_pool.Database.Link.{Link, linked, ok, err, find}
use bitz_pool.Database.Rounds.{get_challenge_by_challenge, add_new_challenge, insert_challenge}
use bitz_pool.Database.Ledger.{update_rewards, total_for}
use bitz_pool.Database.Ledger.Credit.{Fits, credited, update_rewards_credits}
use bitz_pool.Rewards.{MineSuccess, full_rewards_of, commissions_of}
use bitz_pool.Rewards.Batches.{Session, retry, once}
use bitz_pool.Rewards.Batches.Once.{retry-ok}
use bitz_pool.Submission.Challenges.{ensure_challenge}
use bitz_pool.Submission.Logs.{MineEventWithGlobalBoosts}
use bitz_pool.Submission.Success.{MineEvent, mine_success_of, commission_rewards}
use bitz_pool.Rewards.Shares.{earned, commissions_split}
use bitz_pool.Submission.Success.{mine_success_of_fields}
use bitz_pool.Epochs.{Snapshot, System, Reached, new_challenge}
use bitz_pool.Epochs.Paid.{Reached-conserves}

-- The loop that looks for the row of the old challenge and inserts it if it is not there. Each turn
-- makes a call, so one more than the links is fuel enough; `none` is a loop that is still running
-- when they end.
unfoldable pub find_challenge : ℕ → InsertChallenge → Session → Option (Challenge × Session)
find_challenge zero c s = none
find_challenge (suc fuel) c s =
    elim (once (λ link. get_challenge_by_challenge link c.challenge) s) [
      | none ↦ none
      | some (ok row, s') ↦ some (row, s')
      | some (err _, s') ↦ elim (ensure_challenge c s') [
        | none ↦ none
        | some s'' ↦ find_challenge fuel c s''
      ]
    ]

-- The fields of the event that the task reads.
abbrev pub rewards_of : MineEventWithGlobalBoosts → MineEvent
rewards_of e = record {
  net_base_reward = e.net_base_reward;
  net_miner_boost_reward = e.net_miner_boost_reward;
}

-- From the event to the message: the row of the challenge, the commission, and the message. `none`
-- is a panic, or a loop that is still running.
unfoldable pub pay_round :
    Drillx → ℕ → ℕ → MineEventWithGlobalBoosts → Snapshot → Session → Option (MineSuccess × Session)
unfolding find_challenge full_rewards_of
pay_round drillx pool_id commissions_miner_id e x s = do
  full_rewards ← full_rewards_of e.net_base_reward e.net_miner_boost_reward
  found ← find_challenge (suc (length s.0)) (new_challenge pool_id x.old_proof.challenge) s
  let new_commission_rewards =
      record { miner_id = commissions_miner_id; balance = commissions_of full_rewards } ∷ []
  s' ← retry (λ link. update_rewards link new_commission_rewards) found.1
  msg ← mine_success_of drillx (rewards_of e) x.old_proof found.0.id x.best_solution x.submissions
  some (msg, s')

-- With the database in reach the row is found, inserted if it was not there, and the balances stay.
find_challenge_linked :
    (fuel : ℕ) (c : InsertChallenge) (links : List Link) (t : Tables)
    → (row : Challenge) × (ls : List Link) × (t' : Tables) × (find_challenge
          (suc (suc fuel))
          c
          (linked ∷ linked ∷ linked ∷ linked ∷ links, t)
        ≡ some (row, (linked ∷ ls, t')))
      × (find (λ d. bytes_eq d.challenge c.challenge) t'.challenges ≡ some row)
      × (t'.rewards ≡ t.rewards)
unfolding find_challenge once ensure_challenge get_challenge_by_challenge add_new_challenge
    insert_challenge
find_challenge_linked fuel c links t =
    elim (Option-cases (find (λ d. bytes_eq d.challenge c.challenge) t.challenges)) [
      | inl new ↦
          let row : Challenge = record {
            id = t.next_id;
            pool_id = c.pool_id;
            submission_id = none;
            challenge = c.challenge;
            rewards_earned = c.rewards_earned;
          } in
          (
            row,
            links,
            record t { next_id = suc t.next_id; challenges = row ∷ t.challenges },
            ground (arith, bytes_eq_refl c.challenge),
            ground (arith, bytes_eq_refl c.challenge),
            refl,
          )
      | inr (row, old) ↦ (row, linked ∷ linked ∷ links, t, ground arith, old, refl)
    ]

-- The task, from what its parts come to.
pay_round_parts :
    (drillx : Drillx) (pool_id commissions_miner_id : ℕ) (e : MineEventWithGlobalBoosts)
    (x : Snapshot) (s s' s'' : Session) (row : Challenge) (msg : MineSuccess)
    → e.net_base_reward + e.net_miner_boost_reward < u64_mod
    → find_challenge (suc (length s.0)) (new_challenge pool_id x.old_proof.challenge) s
      ≡ some (row, s')
    → retry
        (λ link. update_rewards link (
          record {
            miner_id = commissions_miner_id;
            balance = commissions_of (e.net_base_reward + e.net_miner_boost_reward);
          }
          ∷ []))
        s'
      ≡ some s''
    → mine_success_of drillx (rewards_of e) x.old_proof row.id x.best_solution x.submissions
      ≡ some msg
    → pay_round drillx pool_id commissions_miner_id e x s ≡ some (msg, s'')
unfolding pay_round full_rewards_of
pay_round_parts drillx pool_id commissions_miner_id e x s s' s'' row msg fits found paid made =
    rw (lt→ltb (e.net_base_reward + e.net_miner_boost_reward) u64_mod fits, found, paid, made) refl

-- A credit below what there is room for.
Fits-room :
    (u : UpdateReward) (full : ℕ) (rows : List Reward)
    → u.balance ≤ full
    → All (λ r. r.balance + full < u64_mod) rows
    → All (Fits (u ∷ [])) rows
unfolding total_for
Fits-room u full [] le h = tt
Fits-room u full (r ∷ rows) le h = (ground arith, Fits-room u full rows le h.1)

-- A round that the loop hands on is paid out, if the first four calls of its task all reach the
-- database (no call before them fails: an error of the server on the commission would be reported as
-- success and lose it): the database then has the challenge of the round, and the message names its row; the balance of the
-- commission's miner is more by the commission and no other is changed; and what the submissions
-- earn and the commission add up to at most what was mined. The solution that was sent has a
-- difficulty below 70; the hashpowers, the rewards and the balances fit in 64 bits.
pub Reached-pays :
    (drillx : Drillx) (pool_id commissions_miner_id : ℕ) (x : System)
    (before after : List (ℕ × Snapshot)) (sig : ℕ) (snapshot : Snapshot)
    (e : MineEventWithGlobalBoosts) (links : List Link) (t : Tables)
    → Reached drillx pool_id x
    → x.paid ≡ before ++ ((sig, snapshot) ∷ after)
    → drillx.difficulty snapshot.best_solution < 70
    → e.net_base_reward + e.net_miner_boost_reward < u64_mod
    → sum_of (λ s. s.1.hashpower) snapshot.submissions < u64_mod
    → sum_of (λ s. s.1.real_hashpower) snapshot.submissions < u64_mod
    → All (λ r. r.balance + (e.net_base_reward + e.net_miner_boost_reward) < u64_mod) t.rewards
    → (msg : MineSuccess) × (s : Session) × (pay_round drillx pool_id commissions_miner_id e
          snapshot
          (linked ∷ linked ∷ linked ∷ linked ∷ links, t)
        ≡ some (msg, s))
      × ((row : Challenge) × (find
              (λ d. bytes_eq d.challenge snapshot.old_proof.challenge)
              s.1.challenges
            ≡ some row)
          × (row.id ≡ msg.challenge_id))
      × (s.1.rewards ≡ map (credited (commission_rewards commissions_miner_id msg ∷ [])) t.rewards)
      × (sum_of (λ s. earned msg s.1) msg.submissions + msg.commissions
          ≤ e.net_base_reward + e.net_miner_boost_reward)
unfolding commission_rewards
Reached-pays drillx pool_id commissions_miner_id x before after sig snapshot e links t r at low fits
      hash real room =
    let full = e.net_base_reward + e.net_miner_boost_reward in
    let c = new_challenge pool_id snapshot.old_proof.challenge in
    let (row, ls, t', found, there, same) =
      find_challenge_linked (suc (suc (suc (length links)))) c links t in
    let (msg, made, le) =
      Reached-conserves drillx pool_id x before after sig snapshot (rewards_of e) row.id r at low
        fits hash real in
    let (cut, named, _) =
      mine_success_of_fields drillx (rewards_of e) snapshot.old_proof row.id snapshot.best_solution
        snapshot.submissions msg fits made in
    let u : UpdateReward = record {
      miner_id = commissions_miner_id;
      balance = commissions_of full;
    } in
    let fitting = Fits-room u full t.rewards (omega (arith, (commissions_split full).0)) room in
    let paid =
      retry-ok (λ link. update_rewards link (u ∷ [])) tt linked ls t'
        (record t' { rewards = map (credited (u ∷ [])) t'.rewards })
        (update_rewards_credits u [] t' (rw same fitting)) in
    (
      msg,
      (ls, record t' { rewards = map (credited (u ∷ [])) t'.rewards }),
      pay_round_parts drillx pool_id commissions_miner_id e snapshot
          (linked ∷ linked ∷ linked ∷ linked ∷ links, t) (linked ∷ ls, t')
          (ls, record t' { rewards = map (credited (u ∷ [])) t'.rewards }) row msg fits found paid
          made,
      (row, there, sym named),
      rw (same, cut) refl,
      le,
    )
