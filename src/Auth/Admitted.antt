-- ===== src/Auth/Admitted.antt =====
-- Whom `ws_handler_v2` admits.
use bitz_pool.Common.{
  ℕ, ◌+◌, ◌≤◌, ◌<◌, ◌≡◌, ◌≢◌, sym, ◌∙◌, true, ◌⊎◌, inl, inr, Option, some, String, leb, arith,
  Bool-cases, Option-cases,
}
use bitz_pool.Common.Word.{u64_mod, sub_u64, to_le_bytes}
use bitz_pool.Claims.{Crypto}
use bitz_pool.Claims.Accepted.{Result-cases}
use bitz_pool.Database.Tables.{Tables, Miner}
use bitz_pool.Database.Link.{Link, ok}
use bitz_pool.Database.Miners.{get_miner_by_pubkey_str}
use bitz_pool.Auth.{
  Answer, Denial, upgraded, denied, denial_of, timestamp_too_old, invalid_pubkey, not_authorized,
  invalid_signature, sig_verification_failed, check_signature, ws_handler_v2,
}

upgraded≢denied :
    (user_pubkey id : ℕ) (worker : String) (d : Denial) → upgraded user_pubkey id worker ≢ denied d
upgraded≢denied user_pubkey id worker d h = cc

module _ (crypto : Crypto) (now timestamp : ℕ) (pubkey signature : Option ℕ) (link : Link)
    (t : Tables) where
  -- The key and the signature parse, the key is that of an enabled miner, the signature is that of
  -- the key on the timestamp, and the timestamp is less than 30 seconds old and not to come.
  pub record IsAuthorized (user_pubkey : ℕ) (miner : Miner) : Type 0 where
    pub sig : ℕ
    pub key_parses : pubkey ≡ some user_pubkey
    pub sig_parses : signature ≡ some sig
    pub found : (get_miner_by_pubkey_str link user_pubkey t).0 ≡ ok miner
    pub is_enabled : miner.enabled ≡ true
    pub verifies : crypto.verify sig user_pubkey (to_le_bytes 8 timestamp) ≡ true
    pub past : timestamp ≤ now
    pub recent : now < timestamp + 30

  admits :
      (user_pubkey : ℕ) (miner : Miner)
      → now < u64_mod
      → timestamp < u64_mod
      → IsAuthorized user_pubkey miner
      → ws_handler_v2 crypto now timestamp pubkey signature link t
        ≡ upgraded user_pubkey miner.id "-"
  unfolding ws_handler_v2 check_signature
  admits user_pubkey miner now_fits ts_fits a = ground arith

  abbrev Decides : Answer → Type 0
  Decides answer =
      ((user_pubkey : ℕ) × (miner : Miner) × IsAuthorized user_pubkey miner
        × (answer ≡ upgraded user_pubkey miner.id "-"))
      ⊎ (((user_pubkey : ℕ) (miner : Miner) → ¬ IsAuthorized user_pubkey miner)
          × (d : Denial) × (answer ≡ denied d))

  refused :
      (d : Denial)
      → now < u64_mod
      → timestamp < u64_mod
      → ws_handler_v2 crypto now timestamp pubkey signature link t ≡ denied d
      → Decides (ws_handler_v2 crypto now timestamp pubkey signature link t)
  refused d now_fits ts_fits e = inr (
    (λ user_pubkey miner a.
        upgraded≢denied user_pubkey miner.id "-" d
          (sym (admits user_pubkey miner now_fits ts_fits a) ∙ e)),
    d,
    e,
  )

  -- Away from the ends of the 64-bit range, the connection is upgraded exactly for a key and a miner
  -- that are authorized, and for these only with the id of the miner and the worker name "-".
  pub ws_handler_v2-IsAuthorized :
      now < u64_mod
      → 30 ≤ now
      → timestamp < u64_mod
      → ((user_pubkey : ℕ) × (miner : Miner) × IsAuthorized user_pubkey miner
          × (ws_handler_v2 crypto now timestamp pubkey signature link t
              ≡ upgraded user_pubkey miner.id "-"))
        ⊎ (((user_pubkey : ℕ) (miner : Miner) → ¬ IsAuthorized user_pubkey miner)
            × (d : Denial) × (ws_handler_v2 crypto now timestamp pubkey signature link t
                ≡ denied d))
  unfolding ws_handler_v2 check_signature
  ws_handler_v2-IsAuthorized now_fits late ts_fits =
      elim (Bool-cases (leb 30 (sub_u64 now timestamp))) [
        | inl old ↦ refused timestamp_too_old now_fits ts_fits (ground arith)
        | inr fresh ↦ elim (Option-cases pubkey) [
          | inl unparsed ↦ refused invalid_pubkey now_fits ts_fits (ground arith)
          | inr (user_pubkey, p) ↦
              elim (Result-cases (get_miner_by_pubkey_str link user_pubkey t).0) [
                | inr (e, f) ↦ refused (denial_of e) now_fits ts_fits (ground arith)
                | inl (miner, f) ↦ elim (Bool-cases miner.enabled) [
                  | inr off ↦ refused not_authorized now_fits ts_fits (ground arith)
                  | inl on ↦ elim (Option-cases signature) [
                    | inl unparsed ↦ refused invalid_signature now_fits ts_fits (ground arith)
                    | inr (sig, q) ↦
                        elim (Bool-cases
                          (crypto.verify sig user_pubkey (to_le_bytes 8 timestamp))) [
                            | inr wrong ↦
                                refused sig_verification_failed now_fits ts_fits (ground arith)
                            | inl good ↦ inl (
                              user_pubkey,
                              miner,
                              record {
                                sig = sig;
                                key_parses = p;
                                sig_parses = q;
                                found = f;
                                is_enabled = on;
                                verifies = good;
                                past = ground arith;
                                recent = ground arith;
                              },
                              ground arith,
                            )
                          ]
                  ]
                ]
              ]
        ]
      ]
