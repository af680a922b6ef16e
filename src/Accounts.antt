-- ===== src/Accounts.antt =====
-- `get_proof` and `get_proof_and_config_with_busses` of src/bitz_utils.rs: the accounts that an attempt
-- to send a solution reads first.
use bitz_pool.Common.{
  ◌>>=◌, ℕ, zero, suc, ◌+◌, ◌≤◌, ◌<◌, ◌≡◌, refl, arith, Option, none, some, List, [], ◌∷◌,
  get_elem?, drop, length, ltb, if◌then◌else◌, ◌↔◌, ◌⊎◌, inl, inr,
}
use bitz_pool.State.{Proof}

-- How eore_api lays the accounts out: `bytemuck::try_from_bytes` of each type. Of the config only the
-- last reset is read, and of a bus nothing.
pub record Layouts : Type 0 where
  pub proof : List ℕ → Option Proof
  pub config : List ℕ → Option ℕ
  pub bus : List ℕ → Option (Unit {0})

-- `&data.data()[8..]`, which panics (`none`) if there are fewer bytes.
abbrev pub body : List ℕ → Option (List ℕ)
body bytes = if ltb (length bytes) 8 then none else some (drop 8 bytes)

-- `get_proof`: an error of the RPC, or of `Proof::try_from_bytes`, is an error.
unfoldable pub get_proof : (List ℕ → Option Proof) → Option (List ℕ) → Option Proof
get_proof try_from_bytes none = none
get_proof try_from_bytes (some bytes) = try_from_bytes bytes

-- One account of the answer: `some none` is one that does not exist, and `none` is a panic, of the
-- index or of the layout.
unfoldable pub account :
    {A : Type 0} → (List ℕ → Option A) → List (Option (List ℕ)) → ℕ → Option (Option A)
account layout datas i = elim (get_elem? datas i) [
  | none ↦ none
  | some none ↦ some none
  | some (some stored) ↦ do bytes ← body stored; a ← layout bytes; some (some a)
]

-- n busses, from the account i on.
unfoldable pub busses : Layouts → ℕ → ℕ → List (Option (List ℕ)) → Option (List (Option (Unit {0})))
unfolding account
busses layouts i zero datas = some []
busses layouts i (suc n) datas = do
  b ← account layouts.bus datas i
  bs ← busses layouts (suc i) n datas
  some (b ∷ bs)

pub record Loaded : Type 0 where
  pub proof : Option Proof
  pub config : Option ℕ
  pub bus_accounts : Option (List (Option (Unit {0})))

unfoldable pub get_proof_and_config_with_busses :
    Layouts → Option (List (Option (List ℕ))) → Option Loaded
unfolding account busses
get_proof_and_config_with_busses layouts none =
    some (record { proof = none; config = none; bus_accounts = none })
get_proof_and_config_with_busses layouts (some datas) = do
  p ← account layouts.proof datas 0
  c ← account layouts.config datas 1
  bs ← busses layouts 2 8 datas
  some (record { proof = p; config = c; bus_accounts = some bs })

-- `if let (Ok(p), Ok(config), Ok(_busses)) = ..`: what an attempt has of it.
abbrev pub loaded_of : Loaded → Option (Proof × ℕ)
loaded_of l = do p ← l.proof; c ← l.config; _ ← l.bus_accounts; some (p, c)

-- An account that does not exist, or has the layout.
abbrev IsReadable : {A : Type 0} → (List ℕ → Option A) → Option (List ℕ) → Type 0
IsReadable layout none = Unit
IsReadable {A} layout (some stored) =
    (8 ≤ length stored) × (a : A) × (layout (drop 8 stored) ≡ some a)

-- The read account is missing exactly if the account does not exist.
abbrev Agree : {A : Type 0} → Option (List ℕ) → Option A → Type 0
Agree o r = (r ≡ none) ↔ (o ≡ none)

account_readable :
    {A : Type 0} (layout : List ℕ → Option A) (datas : List (Option (List ℕ))) (i : ℕ)
    (o : Option (List ℕ))
    → get_elem? datas i ≡ some o
    → IsReadable layout o
    → (r : Option A) × (account layout datas i ≡ some r) × Agree o r
unfolding account
account_readable layout datas i none at h = (none, ground (arith, at), (λ e. refl, λ e. refl))
account_readable layout datas i (some stored) at (long, a, parsed) =
    (some a, ground (arith, at, parsed), (λ e. absurd cc, λ e. absurd cc))

busses_readable :
    (layouts : Layouts) (i n : ℕ) (datas : List (Option (List ℕ)))
    → ((j : ℕ)
        → i ≤ j
        → j < 10
        → (o : Option (List ℕ)) × (get_elem? datas j ≡ some o) × IsReadable layouts.bus o)
    → i + n ≤ 10
    → (bs : List (Option (Unit {0}))) × (busses layouts i n datas ≡ some bs)
unfolding busses
busses_readable layouts i zero datas h le = ([], refl)
busses_readable layouts i (suc n) datas h le =
    let (o, at, readable) = h i (omega arith) (omega (arith, le)) in
    let (b, first, _) = account_readable layouts.bus datas i o at readable in
    let (bs, rest) =
      busses_readable layouts (suc i) n datas (λ j after below. h j (omega (arith, after)) below)
        (omega (arith, le)) in
    (b ∷ bs, rw (first, rest) refl)

loaded_of-Agree :
    (p c : Option (List ℕ)) (rp : Option Proof) (rc : Option ℕ) (bs : List (Option (Unit {0})))
    → Agree p rp
    → Agree c rc
    → (loaded_of (record { proof = rp; config = rc; bus_accounts = some bs }) ≡ none)
      ↔ ((p ≡ none) ⊎ (c ≡ none))
loaded_of-Agree p c none rc bs h k = (λ e. inl (h.0 refl), λ e. refl)
loaded_of-Agree p c (some a) none bs h k = (λ e. inr (k.0 refl), λ e. refl)
loaded_of-Agree p c (some a) (some b) bs h k = (
  λ e. absurd cc,
  λ e. elim e [
    | inl gone ↦ (let no_proof = h.1 gone in absurd cc)
    | inr gone ↦ (let no_config = k.1 gone in absurd cc)
  ],
)

-- If the RPC answers with ten accounts, each of which is missing or has its layout, nothing panics,
-- and an attempt has nothing to check exactly if the proof or the config is missing: the busses are
-- read and do not matter.
loaded_of-accounts :
    (layouts : Layouts) (datas : List (Option (List ℕ))) (p c : Option (List ℕ))
    → get_elem? datas 0 ≡ some p
    → get_elem? datas 1 ≡ some c
    → IsReadable layouts.proof p
    → IsReadable layouts.config c
    → ((j : ℕ)
        → 2 ≤ j
        → j < 10
        → (o : Option (List ℕ)) × (get_elem? datas j ≡ some o) × IsReadable layouts.bus o)
    → (l : Loaded) × (get_proof_and_config_with_busses layouts (some datas) ≡ some l)
      × ((loaded_of l ≡ none) ↔ ((p ≡ none) ⊎ (c ≡ none)))
unfolding get_proof_and_config_with_busses
loaded_of-accounts layouts datas p c at_p at_c read_p read_c read_b =
    let (rp, first, agree_p) = account_readable layouts.proof datas 0 p at_p read_p in
    let (rc, second, agree_c) = account_readable layouts.config datas 1 c at_c read_c in
    let (bs, rest) = busses_readable layouts 2 8 datas read_b (omega arith) in
    (
      record { proof = rp; config = rc; bus_accounts = some bs },
      rw (first, second, rest) refl,
      loaded_of-Agree p c rp rc bs agree_p agree_c,
    )
