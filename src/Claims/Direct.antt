-- ===== src/Claims/Direct.antt =====
-- What a claim by `claim_direct` pays.
use bitz_pool.Common.{
  ℕ, ◌+◌, ◌-◌, ◌*◌, ◌≤◌, ◌<◌, ◌≡◌, refl, false, none, some, List, if◌then◌else◌, sum_of, arith, inl,
  inr,
}
use bitz_pool.Common.Map.{insert}
use bitz_pool.State.{ClaimsQueueItem}
use bitz_pool.Database.Tables.{Reward}
use bitz_pool.Database.Link.{ok}
use bitz_pool.Database.Ledger.{get_miner_rewards}
use bitz_pool.Claims.{
  Queue, TokenBalance, rpc_error, no_ui_amount, ui_amount, success, is_cooling_down, Around,
  direct_amount, claim_direct, lacks_ata, ata_fee,
}
use bitz_pool.Claims.Worker.{Ix, instructions}
use bitz_pool.Claims.Worker.Settled.{pays, instructions_exact}

-- How often a claim is charged for its account: by the handler and by the worker.
abbrev pub charges : TokenBalance → ℕ
charges ui_amount = 0
charges no_ui_amount = 1
charges rpc_error = 2

abbrev pub queued_amount : TokenBalance → ℕ → ℕ
queued_amount token balance = if lacks_ata token then balance - ata_fee else balance

direct_lem :
    (w : Around) (r : Reward)
    → 2000000000 ≤ r.balance
    → is_cooling_down w.now w.claims_link r.miner_id w.tables ≡ false
    → direct_amount w r ≡ inr (queued_amount w.token r.balance)
unfolding direct_amount
direct_lem w r enough cool = ground arith

abbrev direct_item : TokenBalance → ℕ → ℕ → ClaimsQueueItem
direct_item token pubkey balance = record {
  receiver_pubkey = pubkey;
  amount = queued_amount token balance;
}

direct_item-pays :
    (token : TokenBalance) (pubkey balance : ℕ)
    → 2000000000 ≤ balance
    → charges token * ata_fee ≤ balance
    → (ixs : List Ix) × (instructions token (direct_item token pubkey balance) ≡ some ixs)
      × (sum_of pays ixs + charges token * ata_fee ≡ balance)
direct_item-pays ui_amount pubkey balance enough covers =
    elim (instructions_exact ui_amount (direct_item ui_amount pubkey balance)) [
      | inl (ixs, e, p, c) ↦ (ixs, e, omega (arith, p, c))
      | inr (e, new, low) ↦ absurd cc
    ]
direct_item-pays no_ui_amount pubkey balance enough covers =
    elim (instructions_exact no_ui_amount (direct_item no_ui_amount pubkey balance)) [
      | inl (ixs, e, p, c) ↦ (ixs, e, omega (arith, p, c))
      | inr (e, new, low) ↦ absurd (omega (arith, low))
    ]
direct_item-pays rpc_error pubkey balance enough covers =
    elim (instructions_exact rpc_error (direct_item rpc_error pubkey balance)) [
      | inl (ixs, e, p, c) ↦ (ixs, e, omega (arith, p, c))
      | inr (e, new, low) ↦ absurd (omega (arith, low))
    ]

direct_item-dropped :
    (token : TokenBalance) (pubkey balance : ℕ)
    → 2000000000 ≤ balance
    → balance < charges token * ata_fee
    → instructions token (direct_item token pubkey balance) ≡ none
direct_item-dropped ui_amount pubkey balance enough low = absurd (omega (arith, low))
direct_item-dropped no_ui_amount pubkey balance enough low = absurd (omega (arith, enough, low))
direct_item-dropped rpc_error pubkey balance enough low =
    elim (instructions_exact rpc_error (direct_item rpc_error pubkey balance)) [
      | inl (ixs, e, p, c) ↦ absurd (omega (arith, p, c, low))
      | inr (e, new, few) ↦ e
    ]

-- A direct claim is queued, and pays the balance less the cost of a token account as often as the
-- account is found missing: a receiver whose account cannot be read is charged twice, by the
-- handler and by the worker, and gets nothing at all if the balance does not cover both.
pub claim_direct-charges :
    (w : Around) (pubkey : ℕ) (queue : Queue) (r : Reward)
    → (get_miner_rewards w.rewards_link pubkey w.tables).0 ≡ ok r
    → 2000000000 ≤ r.balance
    → is_cooling_down w.now w.claims_link r.miner_id w.tables ≡ false
    → (item : ClaimsQueueItem) × (claim_direct w (some pubkey) queue
        ≡ (success, insert pubkey item queue))
      × (charges w.token * ata_fee ≤ r.balance
          → (ixs : List Ix) × (instructions w.token item ≡ some ixs)
            × (sum_of pays ixs + charges w.token * ata_fee ≡ r.balance))
      × (r.balance < charges w.token * ata_fee → instructions w.token item ≡ none)
unfolding claim_direct
claim_direct-charges w pubkey queue r found enough cool =
    let e = direct_lem w r enough cool in
    (
      direct_item w.token pubkey r.balance,
      rw (found, e, claim_direct) refl,
      direct_item-pays w.token pubkey r.balance enough,
      direct_item-dropped w.token pubkey r.balance enough,
    )
