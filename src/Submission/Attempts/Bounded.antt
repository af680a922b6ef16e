-- ===== src/Submission/Attempts/Bounded.antt =====
-- The attempts end, and what they leave.
use bitz_pool.Common.{
  ℕ, suc, ◌+◌, ◌≤◌, ◌<◌, ◌≡◌, refl, Bool, true, false, ◌⊎◌, inl, inr, Option, none, some, List, [],
  ◌∷◌, length, any, leb, All, arith, Bool-cases, Option-cases,
}
use bitz_pool.State.{Solution, Drillx, Proof, Server}
use bitz_pool.Rpc.{Poll}
use bitz_pool.Submission.{write}
use bitz_pool.Submission.Attempts.{
  MineIx, mine, mine_ixs, is_invalid_hash, send_mine, finalized_in_time, Attempt, Result, stop,
  again, confirmed, is_refused, send_attempt, attempt, attempts,
}

send_mine-ends :
    (answers : List (Option ℕ)) (rpc_send_attempts : ℕ)
    → rpc_send_attempts < 5
    → 5 ≤ rpc_send_attempts + length answers
    → (r : Option ℕ) × (send_mine rpc_send_attempts answers ≡ some r)
unfolding send_mine
send_mine-ends [] n low enough = absurd (omega arith)
send_mine-ends (some sig ∷ answers) n low enough = (some sig, refl)
send_mine-ends (none ∷ answers) n low enough = elim (Bool-cases (leb 5 (suc n))) [
  | inl last ↦ (none, ground arith)
  | inr more ↦
      let (r, e) = send_mine-ends answers (suc n) (ground arith) (omega arith) in
      (r, ground (arith, e))
]

finalized_in_time-ends :
    (polls : List Poll)
    → any (λ p. leb 200 p.elapsed) polls ≡ true
    → (b : Bool) × (finalized_in_time polls ≡ some b)
unfolding finalized_in_time
finalized_in_time-ends [] h = absurd (ground arith)
finalized_in_time-ends (p ∷ polls) h = elim (Bool-cases (leb 200 p.elapsed)) [
  | inl expired ↦ (false, ground arith)
  | inr early ↦
      let (b, e) = finalized_in_time-ends polls (ground arith) in
      elim (Option-cases p.status) [
        | inl unknown ↦ (b, ground (arith, e))
        | inr (s, known) ↦ elim (Bool-cases s.finalized) [
          | inl final ↦ elim (Bool-cases s.failed) [
            | inl bad ↦ (false, ground arith)
            | inr good ↦ (true, ground arith)
          ]
          | inr pending ↦ (b, ground (arith, e))
        ]
      ]
]

-- What the outside gives for an attempt to end: four answers, and polls for 200 seconds.
pub record Answers (a : Attempt) : Type 0 where
  pub four : 4 ≤ length a.answers
  pub expires : any (λ p. leb 200 p.elapsed) a.polls ≡ true

send_attempt-ends : (a : Attempt) → Answers a → (r : Result) × (send_attempt a ≡ some r)
unfolding send_attempt
send_attempt-ends a h =
    let (answer, sent) = send_mine-ends a.answers 1 (omega arith) (omega (arith, h.four)) in
    let (good, f) = finalized_in_time-ends a.polls h.expires in
    elim (Bool-cases a.has_blockhash) [
      | inr missing ↦ (again, ground arith)
      | inl there ↦ elim (Bool-cases (is_refused a.tx_error)) [
        | inl refused ↦ (stop, ground arith)
        | inr accepted ↦ elim (Option-cases answer) [
          | inl lost ↦ (stop, ground (arith, sent, lost))
          | inr (sig, e) ↦ elim (Bool-cases good) [
            | inl final ↦ (confirmed sig, ground (arith, sent, e, f))
            | inr failed ↦ (again, ground (arith, sent, e, f))
          ]
        ]
      ]
    ]

-- An attempt changes the proof at most, and that only to one that the solution is not valid for.
abbrev pub KeepsAllButProof : Drillx → Solution → Server → Server → Type 0
KeepsAllButProof drillx solution s s' =
    (s' ≡ s)
    ⊎ ((p : Proof) × (s' ≡ record s { proof = p }) × (drillx.is_valid solution p.challenge ≡ false))

attempt-ends :
    (drillx : Drillx) (solution : Solution) (a : Attempt) (s : Server)
    → Answers a
    → (((r : Result) × (attempt drillx solution a s ≡ (s, some r)))
        ⊎ ((p : Proof) × (attempt drillx solution a s ≡ (record s { proof = p }, some stop))
            × (drillx.is_valid solution p.challenge ≡ false)))
unfolding attempt write
attempt-ends drillx solution a s h =
    let (r, e) = send_attempt-ends a h in
    elim (Option-cases a.loaded) [
      | inl unread ↦ inl (r, ground (arith, e))
      | inr (c, read) ↦ elim (Bool-cases (drillx.is_valid solution c.0.challenge)) [
        | inl valid ↦ inl (r, ground (arith, e))
        | inr stale ↦ inr (c.0, ground arith, stale)
      ]
    ]

-- The attempts of an epoch end, each with four answers to sending and polls for 200 seconds: with a
-- final transaction, or in failure. All that they change of the state is the proof, and that only
-- in failure, to one of the chain that the solution is not valid for.
pub attempts-end :
    (drillx : Drillx) (solution : Solution) (tries : List Attempt) (s : Server)
    → All Answers tries
    → ((sig : ℕ) × (attempts drillx solution tries s ≡ (s, some (confirmed sig))))
      ⊎ ((s' : Server) × (attempts drillx solution tries s ≡ (s', some stop))
          × KeepsAllButProof drillx solution s s')
unfolding attempts
attempts-end drillx solution [] s h = inr (s, refl, inl refl)
attempts-end drillx solution (a ∷ tries) s h = elim (attempt-ends drillx solution a s h.0) [
  | inr (p, e, stale) ↦ inr (record s { proof = p }, ground (arith, e), inr (p, refl, stale))
  | inl (stop, e) ↦ inr (s, ground (arith, e), inl refl)
  | inl (confirmed sig, e) ↦ inl (sig, ground (arith, e))
  | inl (again, e) ↦ elim (attempts-end drillx solution tries s h.1) [
    | inl (sig, rest) ↦ inl (sig, ground (arith, e, rest))
    | inr (s', rest, k) ↦ inr (s', ground (arith, e, rest), k)
  ]
]

-- The place of the mine instruction, which the error of a simulation names.
pub mine_index : List MineIx → ℕ
mine_index [] = 0
mine_index (mine solution bus ∷ ixs) = 0
mine_index (_ ∷ ixs) = suc (mine_index ixs)

-- The check for an invalid hash sees an error of the mine instruction with code 1 exactly if the
-- transaction has a reset: without it, the instruction is one place too early.
is_invalid_hash-mine_ixs :
    (should_reset : Bool) (solution : Solution) (bus : ℕ)
    → is_invalid_hash (mine_index (mine_ixs should_reset solution bus)) 1 ≡ should_reset
unfolding is_invalid_hash mine_index mine_ixs
is_invalid_hash-mine_ixs true solution bus = refl
is_invalid_hash-mine_ixs false solution bus = refl
