-- ===== src/Routes/Answers.antt =====
-- What the routes answer, against what the pool does.
use bitz_pool.Common.{
  ℕ, ◌+◌, ◌≡◌, inl, inr, Bool, true, false, some, ltb, leb, arith, if◌then◌else◌,
}
use bitz_pool.Database.Link.{Result-cases, linked}
use bitz_pool.Database.Ledger
use bitz_pool.Database.Ledger.{get_last_claim}
use bitz_pool.Database.Valid.{IsValid}
use bitz_pool.Claims.{
  Around, TokenBalance, Reply, success, rejected, no_miner_account, exceeds_balance, cooldown,
  not_enough_for_ata, needs_ata, ata_fee, is_cooling_down, check_rewards,
}
use bitz_pool.Replica
use bitz_pool.Replica.{get_last_claim_by_pubkey}
use bitz_pool.Replica.CaughtUp.{balance_by_pubkey-agrees, last_claim-of_owner}
use bitz_pool.Routes.{Answer, json, failure, get_miner_rewards, get_miner_last_claim}

-- What a client expects of a claim, from the balance and the last claim that the routes show.
abbrev pub shows_cooldown : ℕ → Answer ℕ → Bool
shows_cooldown now (json at) = leb now (at + 1800)
shows_cooldown now (failure message) = false

abbrev pub forecast : ℕ → TokenBalance → ℕ → Answer ℕ → Answer ℕ → Reply
forecast now token amount (failure message) last_claim = rejected no_miner_account
forecast now token amount (json balance) last_claim =
    if ltb balance amount
    then rejected exceeds_balance
    else if shows_cooldown now last_claim
    then rejected cooldown
    else if needs_ata token
    then (if leb ata_fee amount then success else rejected not_enough_for_ata)
    else success

-- The balance that `/miner/rewards` shows and the last claim that `/miner/last-claim` shows, on a
-- replica with the miners, balances and claims of the database, say what the checks of `/v2/claim`
-- answer after the minimum: that the miner has no account, that the amount is more than the balance,
-- that the last claim is no more than 1800 seconds ago, that the amount does not pay for the token
-- account, or that the claim is accepted. The keys of the database are distinct and the databases
-- are in reach.
pub check_rewards-forecast :
    (w : Around) (r : Replica.Tables) (pubkey amount : ℕ)
    → IsValid w.tables
    → w.rewards_link ≡ linked
    → w.claims_link ≡ linked
    → r.miners ≡ w.tables.miners
    → r.rewards ≡ w.tables.rewards
    → r.claims ≡ w.tables.claims
    → check_rewards w pubkey amount
      ≡ forecast w.now w.token amount
          (get_miner_rewards linked (some pubkey) r)
          (get_miner_last_claim true linked (some pubkey) r)
unfolding check_rewards get_miner_rewards get_miner_last_claim is_cooling_down
check_rewards-forecast w r pubkey amount v at_rewards at_claims miners rewards claims =
    let same = balance_by_pubkey-agrees pubkey w.tables r miners rewards in
    elim (Result-cases (Ledger.get_miner_rewards linked pubkey w.tables).0) [
      | inr (e, h) ↦
          let shown : get_miner_rewards linked (some pubkey) r ≡ failure "Failed to get balance" =
            ground (arith, same, h) in
          rw shown (ground (arith, at_rewards, h))
      | inl (row, h) ↦
          let shown : get_miner_rewards linked (some pubkey) r ≡ json row.balance =
            ground (arith, same, h) in
          let last = last_claim-of_owner pubkey row w.tables r v miners rewards claims h in
          elim (Result-cases (get_last_claim linked row.miner_id w.tables).0) [
            | inl (c, k) ↦
                let claimed : get_miner_last_claim true linked (some pubkey) r ≡ json c.created_at =
                  ground (arith, last, k) in
                rw (shown, claimed) (ground (arith, at_rewards, h, at_claims, k))
            | inr (e, k) ↦
                let claimed : get_miner_last_claim true linked (some pubkey) r
                    ≡ failure "Failed to get last claim for miner" =
                  ground (arith, last, k) in
                rw (shown, claimed) (ground (arith, at_rewards, h, at_claims, k))
          ]
    ]
