-- ===== src/Sockets/Parsed.antt =====
-- Which binary messages are read, and what a best solution is read as.
use bitz_pool.Common.{
  ℕ, ◌≤◌, ◌<◌, ◌≡◌, refl, ap, false, ◌⊎◌, inl, inr, ◌↔◌, none, some, List, [], ◌∷◌, ◌++◌, length,
  length-append, take-append, drop-append, ltb, arith,
}
use bitz_pool.State.{Solution, best_solution, binary}
use bitz_pool.Sockets.{process_binary, process_message}

-- A best solution as a client sends it, with whatever follows.
abbrev pub best_solution_bytes : Solution → List ℕ → List ℕ
best_solution_bytes solution rest = 2 ∷ (solution.d ++ (solution.n ++ rest))

-- A best solution of 16 bytes of digest and 8 of nonce, followed by 32 bytes at least, is read as
-- that solution of the sender's address and connection.
pub process_message-best_solution :
    (solution : Solution) (rest : List ℕ) (socket_uuid who : ℕ)
    → length solution.d ≡ 16
    → length solution.n ≡ 8
    → 32 ≤ length rest
    → process_message (binary (best_solution_bytes solution rest)) socket_uuid who
      ≡ some (record { is_break = false; sent = some (best_solution who solution socket_uuid) })
unfolding process_message process_binary
process_message-best_solution solution rest socket_uuid who dw nw long =
    let d = solution.d ++ (solution.n ++ rest) in
    let enough : ltb (length d) 56 ≡ false =
      ground
        (arith, length-append solution.d (solution.n ++ rest), length-append solution.n rest) in
    rw
      (
        enough,
        take-append 16 solution.d (solution.n ++ rest) dw,
        drop-append 16 solution.d (solution.n ++ rest) dw,
        take-append 8 solution.n rest nw,
        process_binary,
      )
      refl

abbrev first_byte : List ℕ → ℕ
first_byte [] = 0
first_byte (b ∷ d) = b

-- A binary message panics exactly if it is empty, or is a best solution of fewer than 57 bytes.
pub process_message_panics :
    (d : List ℕ) (socket_uuid who : ℕ)
    → (process_message (binary d) socket_uuid who ≡ none)
      ↔ ((d ≡ []) ⊎ ((tail : List ℕ) × (d ≡ 2 ∷ tail) × (length d < 57)))
unfolding process_message process_binary
process_message_panics [] socket_uuid who = ((λ e. inl refl), (λ h. refl))
process_message_panics (b ∷ d) socket_uuid who = (
  λ e. let same : b ≡ 2 = ground arith in inr (d, ap (λ x. x ∷ d) same, ground arith),
  λ h. elim h [
    | inl e ↦ absurd cc
    | inr (tail, e, less) ↦ let same : b ≡ 2 = ap first_byte e in ground arith
  ],
)
