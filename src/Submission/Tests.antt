-- ===== src/Submission/Tests.antt =====
-- The theorems on the end of an epoch at concrete states.
use bitz_pool.Common.Word.{to_le_bytes}
use bitz_pool.Submission.Logs.{
  MineEventWithGlobalBoosts, prefix_of, starts_with, rpc_error, log_messages, mined, await_log,
}
use bitz_pool.Submission.Logs.RoundTrip.{event_bytes, await_log-event}
use bitz_pool.Common.{
  ℕ, ◌≡◌, refl, true, false, ◌⊎◌, none, some, Option, List, [], ◌∷◌, ◌++◌, if◌then◌else◌, bytes_eq,
  arith,
}
use bitz_pool.State.{Server}
use bitz_pool.Submission.{NewEpoch, newer, writes, waiting_turn, final_turn}
use bitz_pool.Submission.Fresh.{IsFresh, waiting_turn-Starts, final_turn-decides}
use bitz_pool.Submission.Attempts.{Attempt, stop, confirmed, attempts}
use bitz_pool.Submission.Attempts.Bounded.{KeepsAllButProof, attempts-end}
use bitz_pool.Submission.Success.{MineEvent}
use bitz_pool.Samples.{drillx, solution, server, proof, next_proof}

abbrev event : MineEvent
event = record { net_base_reward = 900; net_miner_boost_reward = 100 }

waiting_turn-Starts_example :
    ((waiting_turn proof server.proof (some next_proof) ≡ none)
      × (bytes_eq proof.challenge server.proof.challenge ≡ true)
      × (newer proof (some next_proof) ≡ none))
    ⊎ ((n : NewEpoch) × (waiting_turn proof server.proof (some next_proof) ≡ some n)
        × (let s' = writes n.stages server in
            IsFresh s'.proof.challenge s'
            × (s'.last_challenge ≡ proof.challenge)
            × (n.db_challenge ≡ s'.proof.challenge)
            × (bytes_eq proof.challenge s'.proof.challenge ≡ false)))
waiting_turn-Starts_example = waiting_turn-Starts proof server (some next_proof)

final_turn-decides_example :
    ((final_turn proof server.proof server.epoch_hashes.challenge (some next_proof) ≡ none)
      × (bytes_eq proof.challenge server.proof.challenge ≡ true)
      × (newer proof (some next_proof) ≡ none))
    ⊎ ((n : NewEpoch) × (final_turn proof server.proof server.epoch_hashes.challenge
            (some next_proof)
          ≡ some n)
        × ((IsFresh (writes n.stages server).proof.challenge (writes n.stages server)
              × (bytes_eq proof.challenge (writes n.stages server).proof.challenge ≡ false))
            ⊎ ((writes n.stages server ≡ server)
                × (server.epoch_hashes.challenge ≡ server.proof.challenge)
                × (bytes_eq proof.challenge server.proof.challenge ≡ false))))
final_turn-decides_example = final_turn-decides proof server (some next_proof)

abbrev failing : Attempt
failing = record {
  loaded = some (proof, 900);
  has_blockhash = true;
  tx_error = none;
  answers = none ∷ some 88 ∷ none ∷ none ∷ [];
  polls = record { elapsed = 201; status = none } ∷ [];
}

abbrev late_for_it : Attempt
late_for_it = record failing { loaded = some (next_proof, 900) }

attempts-end_example :
    ((sig : ℕ) × (attempts drillx solution (failing ∷ late_for_it ∷ []) server
        ≡ (server, some (confirmed sig))))
    ⊎ ((s' : Server) × (attempts drillx solution (failing ∷ late_for_it ∷ []) server
          ≡ (s', some stop))
        × KeepsAllButProof drillx solution server s')
attempts-end_example = attempts-end drillx solution (failing ∷ late_for_it ∷ []) server (
  record { four = omega arith; expires = refl },
  (record { four = omega arith; expires = refl }, tt),
)

abbrev mine_event : MineEventWithGlobalBoosts
mine_event = record {
  balance = 5000;
  difficulty = 17;
  last_hash_at = 1060;
  timing = 0;
  net_reward = 1000;
  net_base_reward = 900;
  net_miner_boost_reward = 100;
  net_staker_boost_reward = 0;
}

-- A codec with one word: "AB" for the event.
abbrev decode : List ℕ → Option (List ℕ)
decode text = if bytes_eq text (65 ∷ 66 ∷ []) then some (event_bytes mine_event) else none

abbrev returned : List ℕ
returned = prefix_of (69 ∷ []) ++ (65 ∷ 66 ∷ [])

await_log-event_example :
    await_log decode
      (69 ∷ [])
      (rpc_error ∷ log_messages ((80 ∷ []) ∷ returned ∷ (81 ∷ []) ∷ []) ∷ [])
    ≡ some (mined mine_event)
unfolding starts_with to_le_bytes
await_log-event_example =
    await_log-event decode (69 ∷ []) (65 ∷ 66 ∷ []) mine_event ((80 ∷ []) ∷ []) ((81 ∷ []) ∷ [])
      (rpc_error ∷ []) [] (omega arith) refl refl (refl, tt) (tt, tt)
