-- ===== src/Claims/Tests.antt =====
-- Tests of claims, and the theorems at concrete claims.
use bitz_pool.Common.{
  ℕ, ◌+◌, ◌*◌, ◌≤◌, ◌<◌, ◌≡◌, refl, true, false, ◌⊎◌, none, some, List, [], ◌∷◌, sum_of,
  if◌then◌else◌, arith,
}
use bitz_pool.Common.Map.{insert}
use bitz_pool.State.{ClaimsQueueItem}
use bitz_pool.Database.Link.{Link, no_connection, server_error, linked, reached}
use bitz_pool.Claims.{
  rpc_error, no_ui_amount, ClaimParamsV2, Around, success, rejected, ClaimError, needs_ata, ata_fee,
  is_cooling_down, check_rewards, check_queue, enqueue, submit_claim, post_claim_v2, claim_direct,
}
use bitz_pool.Claims.Accepted.{IsAcceptable, item_of, post_claim_v2-decides}
use bitz_pool.Claims.Direct.{charges, claim_direct-charges}
use bitz_pool.Claims.Worker.{Ix, instructions, settle, confirmed, Outside, claim_turn}
use bitz_pool.Claims.Worker.Settled.{settled, settle-settled, pays, costs, instructions_exact}
use bitz_pool.Claims.Worker.Turn.{Leaves, claim_turn-Leaves}
use bitz_pool.Claims.Worker.Steps.{pools_of}
use bitz_pool.Database.Tables.{Tables}
use bitz_pool.Database.Miners.{get_miner_by_pubkey_str, get_pool_by_authority_pubkey}
use bitz_pool.Database.Ledger.{get_miner_rewards, get_last_claim}
use bitz_pool.Samples.{crypto, around, reward, miner, pool, tables}

abbrev claim_params : ClaimParamsV2
claim_params = record {
  timestamp = 1990;
  receiver_pubkey = some 600;
  amount = 3000000000;
  miner_pubkey = some 501;
  signature = some 1;
}

post_claim_v2-decides_example :
    ((a : IsAcceptable crypto around claim_params []) × (post_claim_v2 crypto around claim_params []
        ≡ (success, insert a.miner (item_of claim_params a.receiver) [])))
    ⊎ ((¬ IsAcceptable crypto around claim_params [])
        × (e : ClaimError) × (post_claim_v2 crypto around claim_params [] ≡ (rejected e, [])))
post_claim_v2-decides_example =
    post_claim_v2-decides crypto around claim_params [] (omega arith) (omega arith) (omega arith)

claim_is_queued :
    post_claim_v2 crypto around claim_params []
    ≡ (success, (501, record { receiver_pubkey = 600; amount = 3000000000 }) ∷ [])
unfolding post_claim_v2 submit_claim check_queue check_rewards is_cooling_down enqueue
    get_miner_rewards get_last_claim
claim_is_queued = refl

abbrev item : ClaimsQueueItem
item = record { receiver_pubkey = 600; amount = 3000000000 }

instructions_exact_example :
    ((ixs : List Ix) × (instructions rpc_error item ≡ some ixs)
      × (sum_of pays ixs + sum_of costs ixs ≡ 3000000000)
      × (sum_of costs ixs ≡ (if needs_ata rpc_error then ata_fee else 0)))
    ⊎ ((instructions rpc_error item ≡ none) × (needs_ata rpc_error ≡ true) × (3000000000 < ata_fee))
instructions_exact_example = instructions_exact rpc_error item

abbrev five_of_seven : List Link
five_of_seven = no_connection ∷ linked ∷ linked ∷ server_error ∷ linked ∷ linked ∷ linked ∷ []

settle-settled_example :
    (ls : List Link) × (settle 9 2000 501 item 77 (linked ∷ linked ∷ five_of_seven, tables)
      ≡ some (ls, settled 9 2000 77 item miner pool tables))
    × (5 + reached ls ≡ reached five_of_seven)
unfolding pools_of get_miner_by_pubkey_str get_pool_by_authority_pubkey
settle-settled_example =
    settle-settled 9 2000 501 77 item miner pool tables refl refl
      ((λ e. omega arith), ((λ e. absurd (omega (arith, e))), tt)) (omega arith, tt) refl
      five_of_seven (omega arith)

abbrev outside : Outside
outside = record {
  now = 2000;
  token = no_ui_amount;
  has_blockhash = true;
  answers = none ∷ none ∷ some 77 ∷ none ∷ none ∷ [];
  polls =
      record { elapsed = 3; status = none }
      ∷ record { elapsed = 60; status = some (record { finalized = true; failed = false }) }
      ∷ record { elapsed = 130; status = none }
      ∷ [];
}

abbrev seven : List Link
seven = linked ∷ linked ∷ five_of_seven

serves :
    (sig : ℕ) → (s' : List Link × Tables) × (settle 9 2000 501 item sig (seven, tables) ≡ some s')
unfolding pools_of get_miner_by_pubkey_str get_pool_by_authority_pubkey
serves sig =
    let (ls, e, _) =
      settle-settled 9 2000 501 sig item miner pool tables refl refl
        ((λ p. omega arith), ((λ p. absurd (omega (arith, p))), tt)) (omega arith, tt) refl
        five_of_seven (omega arith) in
    ((ls, settled 9 2000 sig item miner pool tables), e)

polled : confirmed outside.polls ≡ some true
unfolding confirmed
polled = refl

claim_turn-Leaves_example :
    Leaves 9 outside 501 item true
      ((501, item) ∷ [])
      (seven, tables)
      (claim_turn 9 outside ((501, item) ∷ []) (seven, tables))
claim_turn-Leaves_example =
    claim_turn-Leaves 9 outside 501 item (seven, tables) [] true (omega arith) polled serves

abbrev no_account : Around
no_account = record around { token = rpc_error }

claim_direct-charges_example :
    (i : ClaimsQueueItem) × (claim_direct no_account (some 501) [] ≡ (success, insert 501 i []))
    × (charges rpc_error * ata_fee ≤ 7000000000
        → (ixs : List Ix) × (instructions rpc_error i ≡ some ixs)
          × (sum_of pays ixs + charges rpc_error * ata_fee ≡ 7000000000))
    × (7000000000 < charges rpc_error * ata_fee → instructions rpc_error i ≡ none)
unfolding is_cooling_down get_miner_rewards get_last_claim
claim_direct-charges_example = claim_direct-charges no_account 501 [] reward refl (omega arith) refl
