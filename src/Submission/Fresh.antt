-- ===== src/Submission/Fresh.antt =====
-- The state in which each end of an epoch leaves the server.
use bitz_pool.Common.{
  ℕ, ◌≡◌, refl, true, false, Option, none, some, List, [], ◌∷◌, bytes_eq, bytes_eq→eq, sym, arith,
  Bool-cases, Option-cases, inl, inr, ◌⊎◌,
}
use bitz_pool.State.{Proof, Server}
use bitz_pool.Submission.{
  set_proof, set_last_challenge, write, writes, NewEpoch, newer, new_epoch, waiting_turn,
  final_turn, failed_stages,
}

-- An epoch for a challenge, with nothing in it yet, and an open window.
pub record IsFresh (challenge : List ℕ) (s : Server) : Type 0 where
  pub challenge_set : s.epoch_hashes.challenge ≡ challenge
  pub no_solution : s.epoch_hashes.best_hash.solution ≡ none
  pub no_difficulty : s.epoch_hashes.best_hash.difficulty ≡ 0
  pub no_submissions : s.epoch_hashes.submissions ≡ []
  pub no_nonce : s.nonce ≡ 0
  pub no_ranges : s.client_nonce_ranges ≡ []
  pub window_open : s.window_closed ≡ false

new_epoch-IsFresh :
    (challenge : List ℕ) (s : Server) → IsFresh challenge (writes (new_epoch challenge) s)
unfolding writes
new_epoch-IsFresh challenge s = record {
  challenge_set = refl;
  no_solution = refl;
  no_difficulty = refl;
  no_submissions = refl;
  no_nonce = refl;
  no_ranges = refl;
  window_open = refl;
}

-- What a turn that ends the epoch makes of the state: a fresh epoch for the challenge of the proof,
-- which is not the old one, with the challenge that it puts into the database.
abbrev Starts : Proof → Server → NewEpoch → Type 0
Starts old s n =
    let s' = writes n.stages s in
    IsFresh s'.proof.challenge s'
    × (s'.last_challenge ≡ old.challenge)
    × (n.db_challenge ≡ s'.proof.challenge)
    × (bytes_eq old.challenge s'.proof.challenge ≡ false)

newer_changed :
    (old : Proof) (rpc : Option Proof) (p : Proof)
    → newer old rpc ≡ some p
    → bytes_eq old.challenge p.challenge ≡ false
newer_changed old none p h = cc
newer_changed old (some q) p h = ground arith

-- While the transaction is not final, a turn starts a new epoch exactly if the websocket or the RPC
-- has a proof with another challenge. The epoch is then fresh and for that challenge, the old one is
-- the last challenge, and the new one goes into the database.
pub waiting_turn-Starts :
    (old : Proof) (s : Server) (rpc : Option Proof)
    → ((waiting_turn old s.proof rpc ≡ none)
        × (bytes_eq old.challenge s.proof.challenge ≡ true)
        × (newer old rpc ≡ none))
      ⊎ ((n : NewEpoch) × (waiting_turn old s.proof rpc ≡ some n) × Starts old s n)
unfolding waiting_turn writes
waiting_turn-Starts old s rpc = elim (Bool-cases (bytes_eq old.challenge s.proof.challenge)) [
  | inr changed ↦
      let n : NewEpoch = record {
        stages = set_last_challenge old.challenge ∷ new_epoch s.proof.challenge;
        db_challenge = s.proof.challenge;
      } in
      let before = write (set_last_challenge old.challenge) s in
      inr (n, ground arith, (new_epoch-IsFresh s.proof.challenge before, refl, refl, changed))
  | inl same ↦ elim (Option-cases (newer old rpc)) [
    | inl no_proof ↦ inl (ground arith, same, no_proof)
    | inr (p, found) ↦
        let n : NewEpoch = record {
          stages = set_proof p ∷ set_last_challenge old.challenge ∷ new_epoch p.challenge;
          db_challenge = p.challenge;
        } in
        let before = write (set_last_challenge old.challenge) (write (set_proof p) s) in
        inr (
          n,
          ground arith,
          (new_epoch-IsFresh p.challenge before, refl, refl, newer_changed old rpc p found),
        )
  ]
]

-- After a final transaction a turn waits exactly if neither the websocket nor the RPC has a proof
-- with another challenge. Where it ends the loop, the epoch is for the challenge of the proof, and
-- fresh, unless it was for that challenge before and is left alone.
pub final_turn-decides :
    (old : Proof) (s : Server) (rpc : Option Proof)
    → ((final_turn old s.proof s.epoch_hashes.challenge rpc ≡ none)
        × (bytes_eq old.challenge s.proof.challenge ≡ true)
        × (newer old rpc ≡ none))
      ⊎ ((n : NewEpoch) × (final_turn old s.proof s.epoch_hashes.challenge rpc ≡ some n)
          × ((IsFresh (writes n.stages s).proof.challenge (writes n.stages s)
                × (bytes_eq old.challenge (writes n.stages s).proof.challenge ≡ false))
              ⊎ ((writes n.stages s ≡ s)
                  × (s.epoch_hashes.challenge ≡ s.proof.challenge)
                  × (bytes_eq old.challenge s.proof.challenge ≡ false))))
unfolding final_turn writes
final_turn-decides old s rpc = elim (Bool-cases (bytes_eq old.challenge s.proof.challenge)) [
  | inr changed ↦ elim (Bool-cases (bytes_eq s.proof.challenge s.epoch_hashes.challenge)) [
    | inl current ↦ inr (
      record { stages = []; db_challenge = s.proof.challenge },
      ground arith,
      inr (refl, sym (bytes_eq→eq s.proof.challenge s.epoch_hashes.challenge current), changed),
    )
    | inr behind ↦ inr (
      record { stages = new_epoch s.proof.challenge; db_challenge = s.proof.challenge },
      ground arith,
      inl (new_epoch-IsFresh s.proof.challenge s, changed),
    )
  ]
  | inl same ↦ elim (Option-cases (newer old rpc)) [
    | inl no_proof ↦ inl (ground arith, same, no_proof)
    | inr (p, found) ↦ inr (
      record { stages = set_proof p ∷ new_epoch p.challenge; db_challenge = s.proof.challenge },
      ground arith,
      inl (new_epoch-IsFresh p.challenge (write (set_proof p) s), newer_changed old rpc p found),
    )
  ]
]

-- A failed submission leaves an epoch that is fresh, but for the challenge that it had.
pub failed_stages-IsFresh : (s : Server) → IsFresh s.epoch_hashes.challenge (writes failed_stages s)
unfolding writes
failed_stages-IsFresh s = record {
  challenge_set = refl;
  no_solution = refl;
  no_difficulty = refl;
  no_submissions = refl;
  no_nonce = refl;
  no_ranges = refl;
  window_open = refl;
}
