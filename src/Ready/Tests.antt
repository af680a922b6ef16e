-- ===== src/Ready/Tests.antt =====
-- Tests of the rounds, and the theorems at a server with two ready clients.
use bitz_pool.Common.{◌≡◌, refl, true, false, not, ◌&&◌, ◌||◌, ◌⊎◌, some, [], ◌∷◌, get_elem?, arith}
use bitz_pool.Common.Int.{pos, ltb_ℤ}
use bitz_pool.Message.{start_mining_binary}
use bitz_pool.Proofs.{get_cutoff}
use bitz_pool.Tasks.{Task, announce}
use bitz_pool.Ready.{serve_client, serve_clients, ready_round}
use bitz_pool.Ready.Ranges.{holds, serve_clients_disjoint, ready_round_clears, is_none}
use bitz_pool.Samples.{server}

abbrev second_task : Task
second_task =
    announce 101
      (start_mining_binary (record {
        challenge = 1 ∷ [];
        cutoff = 50;
        nonce_range_start = 80000000;
        nonce_range_end = 119999999;
      }))
      2 (record { start = 80000000; end = 119999999 })

abbrev first_task : Task
first_task =
    announce 100
      (start_mining_binary (record {
        challenge = 1 ∷ [];
        cutoff = 50;
        nonce_range_start = 40000000;
        nonce_range_end = 79999999;
      }))
      1 (record { start = 40000000; end = 79999999 })

first_served : get_elem? (serve_clients (pos 50) (100 ∷ 101 ∷ []) server).1 0 ≡ some first_task
unfolding serve_clients serve_client
first_served = refl

second_served : get_elem? (serve_clients (pos 50) (100 ∷ 101 ∷ []) server).1 1 ≡ some second_task
unfolding serve_clients serve_client
second_served = refl

serve_clients_disjoint_example : holds 40000005 second_task ≡ false
serve_clients_disjoint_example =
    serve_clients_disjoint (pos 50) (100 ∷ 101 ∷ []) server 0 1 40000005 first_task second_task
      (omega arith) first_served second_served refl (λ e. omega (arith, e))

ready_round_clears_example :
    let (s', ts) = ready_round 1001 server in
    let mines =
      not server.app_state.paused
      && (not server.window_closed
          && (not (ltb_ℤ (get_cutoff server.proof 2 1001) (pos 10))
              || is_none server.epoch_hashes.best_hash.solution)) in
    ((mines ≡ true) × (s'.ready_clients ≡ [])) ⊎ ((mines ≡ false) × (s' ≡ server) × (ts ≡ []))
ready_round_clears_example = ready_round_clears 1001 server
