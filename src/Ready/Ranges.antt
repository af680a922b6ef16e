-- ===== src/Ready/Ranges.antt =====
-- The ranges that a round hands out, and what the round does to the list of ready clients, when
-- nothing else runs between its locks.
use bitz_pool.Common.{
  inl, inr, Bool-cases, ◌≢◌, ℕ, zero, suc, ◌+◌, ◌*◌, ◌≤◌, ◌<◌, ◌≡◌, refl, ap, ◌⊎◌, Bool, true,
  false, not, ◌&&◌, ◌||◌, Option, none, some, List, [], ◌∷◌, ◌++◌, arith, length, ◌∙◌,
  length-append, get_elem?,
}
use bitz_pool.Common.Word.{u64_mod}
use bitz_pool.Common.Int.{ℤ, pos, ltb_ℤ}
use bitz_pool.State.{Server}
use bitz_pool.Proofs.{get_cutoff}
use bitz_pool.Tasks.{Task, announce}
use bitz_pool.Client.{in_range}
use bitz_pool.Ready.{
  nonce_range_size, nonce_range, set_remove, serve_client, serve_clients, ready_round,
}

abbrev pub is_none {ℓ} : {A : Type ℓ} → Option A → Bool
is_none none = true
is_none (some a) = false

-- A task holds the block of `nonce_range_size` nonces from n on; the last is outside the range.
abbrev pub Block : ℕ → Task → Type 0
Block n (announce client msg uuid r) = (r.start ≡ n) × (r.end + 1 ≡ n + nonce_range_size)
Block n _ = ⊥

abbrev pub Consecutive : ℕ → List Task → Type 0
Consecutive n [] = Unit
Consecutive n (t ∷ ts) = Block n t × Consecutive (n + nonce_range_size) ts

nonce_range_lem :
    (n : ℕ)
    → n + nonce_range_size < u64_mod
    → let (r, n') = nonce_range n in
      (r.start ≡ n) × (r.end + 1 ≡ n + nonce_range_size) × (n' ≡ n + nonce_range_size)
unfolding nonce_range
nonce_range_lem n h = omega arith

-- One client takes one block if it has a socket, and none otherwise.
serve_client-Consecutive :
    (cutoff : ℤ) (client : ℕ) (s : Server)
    → s.nonce + nonce_range_size < u64_mod
    → let (s', ts) = serve_client cutoff client s in
      Consecutive s.nonce ts × (s'.nonce ≡ s.nonce + nonce_range_size * length ts) × (length ts ≤ 1)
unfolding serve_client
serve_client-Consecutive cutoff client s h = ground (arith, nonce_range_lem s.nonce h)

Consecutive-append :
    (n m : ℕ) (ts us : List Task)
    → m ≡ n + nonce_range_size * length ts
    → Consecutive n ts
    → Consecutive m us
    → Consecutive n (ts ++ us)
Consecutive-append n m [] us e h k = let same : m ≡ n = omega arith in rw same at k
Consecutive-append n m (t ∷ ts) us e h k =
    (h.0, Consecutive-append (n + nonce_range_size) m ts us (omega arith) h.1 k)

-- The clients of a round get consecutive blocks of nonces, in their order, from the nonce at the
-- start of the round on, and the nonce moves past the last of them, as long as a block for every
-- client fits below 2^64.
serve_clients-Consecutive :
    (cutoff : ℤ) (clients : List ℕ) (s : Server)
    → s.nonce + nonce_range_size * length clients < u64_mod
    → let (s', ts) = serve_clients cutoff clients s in
      Consecutive s.nonce ts
      × (s'.nonce ≡ s.nonce + nonce_range_size * length ts)
      × (length ts ≤ length clients)
unfolding serve_clients
serve_clients-Consecutive cutoff [] s h = (tt, omega arith, omega arith)
serve_clients-Consecutive cutoff (client ∷ clients) s h =
    let (s', ts) = serve_client cutoff client s in
    let (s'', us) = serve_clients cutoff clients s' in
    let one = serve_client-Consecutive cutoff client s (omega arith) in
    let rest = serve_clients-Consecutive cutoff clients s' (omega (arith, one.1, one.2)) in
    (
      Consecutive-append s.nonce s'.nonce ts us one.1 one.0 rest.0,
      omega (arith, length-append ts us, one.1, rest.1),
      omega (arith, length-append ts us, one.2, rest.2),
    )

-- The range of a task admits a nonce.
abbrev pub holds : ℕ → Task → Bool
holds nonce (announce client msg uuid r) = in_range nonce r
holds nonce _ = false

Block-holds :
    (n nonce : ℕ) (t : Task)
    → Block n t
    → holds nonce t ≡ true
    → (n ≤ nonce) × (nonce < n + nonce_range_size)
Block-holds n nonce (announce client msg uuid r) b p = ground arith
Block-holds n nonce _ b p = absurd b

holds_above :
    (n k nonce : ℕ) (ts : List Task) (t : Task)
    → Consecutive n ts
    → get_elem? ts k ≡ some t
    → holds nonce t ≡ true
    → (n + nonce_range_size * k ≤ nonce) × (nonce < n + nonce_range_size * suc k)
holds_above n k nonce [] t h e p = cc
holds_above n zero nonce (x ∷ ts) t h e p =
    let same : x ≡ t = cc in
    let b = Block-holds n nonce x h.0 (rw same p) in (omega (arith, b.0), omega (arith, b.1))
holds_above n (suc k) nonce (x ∷ ts) t h e p =
    let b = holds_above (n + nonce_range_size) k nonce ts t h.1 e p in
    (omega (arith, b.0), omega (arith, b.1))

-- In a round that nothing interrupts (no reset of the nonce comes between two clients), a nonce in
-- the range of one client that the round serves is in the range of no other, as long as a block for
-- every client fits below 2^64.
pub serve_clients_disjoint :
    (cutoff : ℤ) (clients : List ℕ) (s : Server) (i j nonce : ℕ) (t u : Task)
    → s.nonce + nonce_range_size * length clients < u64_mod
    → get_elem? (serve_clients cutoff clients s).1 i ≡ some t
    → get_elem? (serve_clients cutoff clients s).1 j ≡ some u
    → holds nonce t ≡ true
    → i ≢ j
    → holds nonce u ≡ false
serve_clients_disjoint cutoff clients s i j nonce t u room ti uj it other =
    elim (Bool-cases (holds nonce u)) [
      | inr out ↦ out
      | inl ju ↦
          let blocks = (serve_clients-Consecutive cutoff clients s room).0 in
          let a = holds_above s.nonce i nonce (serve_clients cutoff clients s).1 t blocks ti it in
          let b = holds_above s.nonce j nonce (serve_clients cutoff clients s).1 u blocks uj ju in
          absurd (other (omega (arith, a.0, a.1, b.0, b.1)))
    ]

serve_client-ready :
    (cutoff : ℤ) (client : ℕ) (s : Server)
    → (serve_client cutoff client s).0.ready_clients ≡ set_remove client s.ready_clients
unfolding serve_client
serve_client-ready cutoff client s = ground arith

abbrev remove_all : List ℕ → List ℕ → List ℕ
remove_all [] l = l
remove_all (c ∷ cs) l = remove_all cs (set_remove c l)

serve_clients-ready :
    (cutoff : ℤ) (clients : List ℕ) (s : Server)
    → (serve_clients cutoff clients s).0.ready_clients ≡ remove_all clients s.ready_clients
unfolding serve_clients
serve_clients-ready cutoff [] s = refl
serve_clients-ready cutoff (c ∷ cs) s =
    serve_clients-ready cutoff cs (serve_client cutoff c s).0
    ∙ ap (remove_all cs) (serve_client-ready cutoff c s)

set_remove_comm :
    (a b : ℕ) (l : List ℕ) → set_remove a (set_remove b l) ≡ set_remove b (set_remove a l)
unfolding set_remove
set_remove_comm a b [] = refl
set_remove_comm a b (x ∷ l) = ground (arith, set_remove_comm a b l)

set_remove_self : (a : ℕ) (l : List ℕ) → set_remove a (a ∷ l) ≡ set_remove a l
unfolding set_remove
set_remove_self a l = ground arith

remove_all-set_remove :
    (cs : List ℕ) (a : ℕ) (l : List ℕ)
    → remove_all cs (set_remove a l) ≡ set_remove a (remove_all cs l)
remove_all-set_remove [] a l = refl
remove_all-set_remove (c ∷ cs) a l =
    ap (remove_all cs) (set_remove_comm c a l) ∙ remove_all-set_remove cs a (set_remove c l)

remove_all_self : (cs : List ℕ) → remove_all cs cs ≡ []
unfolding set_remove
remove_all_self [] = refl
remove_all_self (c ∷ cs) =
    ap (remove_all cs) (set_remove_self c cs)
    ∙ (remove_all-set_remove cs c cs ∙ ap (set_remove c) (remove_all_self cs))

-- A round that nothing interrupts, in which the server is not paused and the window is open, clears the list of ready
-- clients, if ten seconds or more are left or there is no best hash yet. In any other round the
-- list stays and no task is spawned.
pub ready_round_clears :
    (now : ℕ) (s : Server)
    → let (s', ts) = ready_round now s in
      let mines =
        not s.app_state.paused
        && (not s.window_closed
            && (not (ltb_ℤ (get_cutoff s.proof 2 now) (pos 10))
                || is_none s.epoch_hashes.best_hash.solution)) in
      ((mines ≡ true) × (s'.ready_clients ≡ [])) ⊎ ((mines ≡ false) × (s' ≡ s) × (ts ≡ []))
unfolding ready_round
ready_round_clears now s = ground (
  arith,
  serve_clients-ready (get_cutoff s.proof 2 now) s.ready_clients s,
  serve_clients-ready (pos 0) s.ready_clients s,
  remove_all_self s.ready_clients,
)
