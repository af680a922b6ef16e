-- ===== src/Submission/Attempts.antt =====
-- The attempts to send the best solution of an epoch.
pub mod Bounded
use bitz_pool.Common.{
  ℕ, zero, suc, ◌+◌, ◌≤◌, ◌≡◌, refl, Bool, true, false, ◌&&◌, ◌||◌, Option, none, some, List, [],
  ◌∷◌, ◌++◌, leb, ltb, ◌==◌, if◌then◌else◌, length, arith, Bool-cases, Option-cases, inl, inr,
}
use bitz_pool.Common.Int.{ℤ, pos, leb_ℤ, sub_ℕ}
use bitz_pool.State.{Solution, Drillx, Proof, Server}
use bitz_pool.Rpc.{Status, Poll}
use bitz_pool.Submission.{write, set_proof}

-- The instructions of the transaction.
pub data MineIx : Type 0 where
  set_compute_unit_limit : ℕ → MineIx
  set_compute_unit_price : ℕ → MineIx
  auth : MineIx
  reset : MineIx
  mine : Solution → ℕ → MineIx

-- `(config.last_reset_at + 300) - now <= 5`, if the config could be read.
pub should_add_reset_ix : ℕ → Option ℕ → Bool
should_add_reset_ix now none = false
should_add_reset_ix now (some last_reset_at) = leb_ℤ (sub_ℕ (last_reset_at + 300) now) (pos 5)

pub mine_ixs : Bool → Solution → ℕ → List MineIx
mine_ixs should_reset solution bus =
    set_compute_unit_limit (if should_reset then 625000 else 565000)
    ∷ set_compute_unit_price 0
    ∷ auth
    ∷ ((if should_reset then reset ∷ [] else []) ++ (mine solution bus ∷ []))

-- `InstructionError(4, Custom(1))` or `InstructionError(5, Custom(1))`, of the error of one
-- instruction by its index and its custom code.
pub is_invalid_hash : ℕ → ℕ → Bool
is_invalid_hash index custom = (index == 4 || index == 5) && custom == 1

-- The loop that sends, from one attempt counted: `rpc_send_attempts >= 5` ends it.
unfoldable pub send_mine : ℕ → List (Option ℕ) → Option (Option ℕ)
send_mine rpc_send_attempts [] = none
send_mine rpc_send_attempts (some sig ∷ answers) = some (some sig)
send_mine rpc_send_attempts (none ∷ answers) =
    let rest = send_mine (suc rpc_send_attempts) answers in
    if leb 5 (suc rpc_send_attempts) then some none else rest

-- The loop that waits for the transaction: 200 seconds at most.
unfoldable pub finalized_in_time : List Poll → Option Bool
finalized_in_time [] = none
finalized_in_time (p ∷ polls) =
    let rest = finalized_in_time polls in
    if leb 200 p.elapsed then some false else elim p.status [
      | none ↦ rest
      | some s ↦ if s.finalized then (if s.failed then some false else some true) else rest
    ]

-- What one attempt meets outside: the proof and the config, if they could be read; whether there is
-- a blockhash; the error of the simulation, if it ran and has one; the answers of the RPC.
pub record Attempt : Type 0 where
  pub loaded : Option (Proof × ℕ)
  pub has_blockhash : Bool
  pub tx_error : Option (ℕ × ℕ)
  pub answers : List (Option ℕ)
  pub polls : List Poll

-- What becomes of it: `break` without success, the next attempt, or a final transaction.
pub data Result : Type 0 where
  stop : Result
  again : Result
  confirmed : ℕ → Result

-- The simulation found that the hash is invalid.
abbrev pub is_refused : Option (ℕ × ℕ) → Bool
is_refused none = false
is_refused (some (index, custom)) = is_invalid_hash index custom

-- From the blockhash on. `none` is a loop that is still running.
pub send_attempt : Attempt → Option Result
unfolding is_invalid_hash send_mine finalized_in_time
send_attempt a =
    if a.has_blockhash
    then (if is_refused a.tx_error then some stop else elim (send_mine 1 a.answers) [
      | none ↦ none
      | some none ↦ some stop
      | some (some sig) ↦ elim (finalized_in_time a.polls) [
        | none ↦ none
        | some true ↦ some (confirmed sig)
        | some false ↦ some again
      ]
    ])
    else some again

-- One attempt: a solution that is not valid for the proof of the chain any more is given up, and
-- the proof is updated.
pub attempt : Drillx → Solution → Attempt → Server → Server × Option Result
unfolding send_attempt
attempt drillx solution a s = elim a.loaded [
  | none ↦ (s, send_attempt a)
  | some (p, last_reset_at) ↦
      if drillx.is_valid solution p.challenge
      then (s, send_attempt a)
      else (write (set_proof p) s, some stop)
]

-- The attempts of an epoch, ten in the code.
pub attempts : Drillx → Solution → List Attempt → Server → Server × Option Result
unfolding attempt
attempts drillx solution [] s = (s, some stop)
attempts drillx solution (a ∷ rest) s =
    let (s', r) = attempt drillx solution a s in
    elim r [
      | none ↦ (s', none)
      | some stop ↦ (s', some stop)
      | some (confirmed sig) ↦ (s', some (confirmed sig))
      | some again ↦ attempts drillx solution rest s'
    ]
