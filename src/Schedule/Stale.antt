-- ===== src/Schedule/Stale.antt =====
-- A task that is under way while the submission system starts a new epoch.
use bitz_pool.Common.{ℕ, ◌≤◌, ◌≡◌, refl, true, none, some, List, arith}
use bitz_pool.Common.Map.{get}
use bitz_pool.State.{Solution, Drillx, InternalMessageSubmission, Server}
use bitz_pool.Tasks.{Task, check_proof, compare_old, record_new}
use bitz_pool.Client.{submission_of, record_submission, solution_stage}
use bitz_pool.Submission.{new_epoch, writes}

-- The solution is checked against the old proof and the old submission; then the new epoch starts;
-- then the submission is recorded.
pub overtaken : Drillx → Task → List ℕ → Server → Server
overtaken drillx t challenge s =
    let (s1, t1) = solution_stage drillx t s in
    let (s2, t2) = solution_stage drillx t1 s1 in
    (solution_stage drillx t2 (writes (new_epoch challenge) s2)).0

module _ (drillx : Drillx) (addr uuid nonce miner_id : ℕ) (solution : Solution) (s : Server) where
  abbrev sub : InternalMessageSubmission
  sub = submission_of drillx solution miner_id nonce

  checked :
      drillx.is_valid solution s.proof.challenge ≡ true
      → 12 ≤ drillx.difficulty solution
      → solution_stage drillx (check_proof addr solution uuid nonce miner_id) s
        ≡ (s, compare_old uuid solution sub)
  unfolding solution_stage
  checked valid hard = ground arith

  compared :
      get uuid s.epoch_hashes.submissions ≡ none
      → solution_stage drillx (compare_old uuid solution sub) s ≡ (s, record_new uuid solution sub)
  unfolding solution_stage
  compared first = ground arith

  recorded :
      (challenge : List ℕ)
      → 12 ≤ drillx.difficulty solution
      → let e =
          (solution_stage drillx
            (record_new uuid solution sub)
            (writes (new_epoch challenge) s)).0.epoch_hashes in
        (e.challenge ≡ challenge)
        × (e.best_hash.solution ≡ some solution)
        × (get uuid e.submissions ≡ some sub)
  unfolding writes solution_stage record_submission submission_of
  recorded challenge hard = (refl, ground arith, ground arith)

-- A solution that is valid for the proof when it is checked, and whose submission is recorded after
-- the next epoch has started, is the best hash of that epoch, for whose challenge it need not be
-- valid: the recording does not check the challenge again.
pub overtaken-records_stale :
    (drillx : Drillx) (addr uuid nonce miner_id : ℕ) (solution : Solution) (challenge : List ℕ)
    (s : Server)
    → drillx.is_valid solution s.proof.challenge ≡ true
    → 12 ≤ drillx.difficulty solution
    → get uuid s.epoch_hashes.submissions ≡ none
    → let e =
        (overtaken drillx
          (check_proof addr solution uuid nonce miner_id)
          challenge
          s).epoch_hashes in
      (e.challenge ≡ challenge)
      × (e.best_hash.solution ≡ some solution)
      × (get uuid e.submissions ≡ some (submission_of drillx solution miner_id nonce))
unfolding overtaken
overtaken-records_stale drillx addr uuid nonce miner_id solution challenge s valid hard first =
    let c = checked drillx addr uuid nonce miner_id solution s valid hard in
    let r = compared drillx addr uuid nonce miner_id solution s first in
    rw (overtaken, c, r) (recorded drillx addr uuid nonce miner_id solution s challenge hard)
