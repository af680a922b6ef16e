-- ===== src/Database/Miners/Signup.antt =====
-- A signup, case by case.
use bitz_pool.Common.{ℕ, suc, ◌≡◌, true, none, some, ◌∷◌, ◌==◌, ==_refl, arith}
use bitz_pool.Database.Tables.{Tables}
use bitz_pool.Database.Link.{find}
use bitz_pool.Database.Miners.{signup_transaction}

-- The tables after a signup: an enabled miner with a new id, and a balance of zero for it.
abbrev pub signed_up : ℕ → Tables → Tables
signed_up user_pubkey t = record t {
  next_id = suc t.next_id;
  miners = record { id = t.next_id; pubkey = user_pubkey; enabled = true } ∷ t.miners;
  rewards = record { miner_id = t.next_id; balance = 0 } ∷ t.rewards;
}

-- What the transaction does, by what it finds.
pub signup_transaction_lem :
    (user_pubkey authority : ℕ) (t : Tables)
    → find (λ r. r.miner_id == t.next_id) t.rewards ≡ none
    → signup_transaction user_pubkey authority t
      ≡ elim (find (λ m. m.pubkey == user_pubkey) t.miners) [
        | some _ ↦ none
        | none ↦ elim (find (λ p. p.authority_pubkey == authority) t.pools) [
          | none ↦ none
          | some _ ↦ some (1, signed_up user_pubkey t)
        ]
      ]
unfolding signup_transaction
signup_transaction_lem user_pubkey authority t fresh = ground (arith, ==_refl user_pubkey)
