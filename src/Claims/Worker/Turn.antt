-- ===== src/Claims/Worker/Turn.antt =====
-- One turn of the worker: its loops end, and which claims leave the queue.
use bitz_pool.Common.{
  ℕ, zero, suc, ◌+◌, ◌≤◌, ◌<◌, ◌≡◌, ◌⊎◌, inl, inr, refl, Bool, true, false, not, ◌&&◌, ◌||◌, Option,
  none, some, List, [], ◌∷◌, length, take, any, if◌then◌else◌, ltb, arith, Bool-cases, Option-cases,
}
use bitz_pool.Common.Map.{remove}
use bitz_pool.State.{ClaimsQueueItem}
use bitz_pool.Rewards.Batches.{Session}
use bitz_pool.Claims.{Queue, needs_ata, ata_fee}
use bitz_pool.Claims.Worker.{
  Ix, instructions, send, confirmed, settle, Outside, Outcome, not_enough, no_blockhash, unsent,
  unconfirmed, paid, finish_claim, claim_turn,
}
use bitz_pool.Claims.Worker.Settled.{instructions_exact}

abbrev pub is_some {ℓ} : {A : Type ℓ} → Option A → Bool
is_some none = false
is_some (some a) = true

-- The attempts to send end, and a transaction is sent if one of the answers that are left is a
-- signature.
send-ends :
    (answers : List (Option ℕ)) (left attempts : ℕ)
    → attempts + left ≡ 5
    → 0 < left
    → left ≤ length answers
    → (r : Option ℕ) × (send attempts answers ≡ some r)
      × (any is_some (take left answers) ≡ is_some r)
unfolding send
send-ends answers zero attempts five more enough = absurd (omega arith)
send-ends [] (suc left) attempts five more enough = absurd (omega arith)
send-ends (some sig ∷ answers) (suc left) attempts five more enough = (some sig, refl, refl)
send-ends (none ∷ answers) (suc zero) attempts five more enough = (none, ground arith, refl)
send-ends (none ∷ answers) (suc (suc left)) attempts five more enough =
    let (r, e, k) =
      send-ends answers (suc left) (suc attempts) (omega arith) (omega arith) (omega arith) in
    (r, ground (arith, e), k)

-- The claim cannot pay for the account that it needs.
abbrev pub lacks_fee : Outside → ClaimsQueueItem → Bool
lacks_fee o item = needs_ata o.token && ltb item.amount ata_fee

-- A transaction goes out: the claim can pay, there is a blockhash, and one of the first five answers
-- is a signature.
abbrev pub is_sent : Outside → ClaimsQueueItem → Bool
is_sent o item = not (lacks_fee o item) && (o.has_blockhash && any is_some (take 5 o.answers))

abbrev pub is_dropped : Outside → ClaimsQueueItem → Bool
is_dropped o item = lacks_fee o item || not o.has_blockhash

-- What a turn leaves, when the transaction is final (`good`) or is not: the claim leaves the queue
-- if it cannot pay, finds no blockhash or is paid, and stays otherwise; no other claim is touched;
-- a claim that is paid is settled, and the database is as it was otherwise.
abbrev pub Leaves :
    ℕ
    → Outside
    → ℕ
    → ClaimsQueueItem
    → Bool
    → Queue
    → Session
    → Option (Outcome × (Queue × Session))
    → Type 0
Leaves authority o miner_pubkey item good queue s turn =
    let is_paid = is_sent o item && good in
    (out : Outcome) × (s' : Session) × (turn
      ≡ some
          (out, ((if is_dropped o item || is_paid then remove miner_pubkey queue else queue), s')))
    × (is_paid ≡ false → s' ≡ s)
    × (is_paid ≡ true → (sig : ℕ) × (settle authority o.now miner_pubkey item sig s ≡ some s'))

module _ (authority : ℕ) (o : Outside) (miner_pubkey : ℕ) (item : ClaimsQueueItem)
    (s : Session) where
  instructions-lacks_fee :
      ((ixs : List Ix) × (instructions o.token item ≡ some ixs) × (lacks_fee o item ≡ false))
      ⊎ ((instructions o.token item ≡ none) × (lacks_fee o item ≡ true))
  instructions-lacks_fee = elim (instructions_exact o.token item) [
    | inl (ixs, e, p, c) ↦ inl (ixs, e, ground (arith, p, c))
    | inr (e, new, low) ↦ inr (e, ground (arith, new, low))
  ]

  -- One turn of the worker on a claim ends, if there are five answers to its attempts to send, the
  -- status is polled until it is final or two minutes have passed, and the database serves a
  -- confirmed claim. A claim that cannot pay for the account that it needs, that finds no blockhash
  -- or that is paid leaves the queue. One that is not sent by the fifth attempt, fails or expires
  -- stays. The other claims stay, and the database changes only by the settlement of a paid claim.
  pub claim_turn-Leaves :
      (rest : Queue) (good : Bool)
      → 5 ≤ length o.answers
      → confirmed o.polls ≡ some good
      → ((sig : ℕ) → (s' : Session) × (settle authority o.now miner_pubkey item sig s ≡ some s'))
      → Leaves authority o miner_pubkey item good
          ((miner_pubkey, item) ∷ rest)
          s
          (claim_turn authority o ((miner_pubkey, item) ∷ rest) s)
  unfolding claim_turn finish_claim
  claim_turn-Leaves rest good enough ends serves =
      let (answer, a, given) = send-ends o.answers 5 0 refl (omega arith) enough in
      elim instructions-lacks_fee [
        | inr (few, low) ↦ (
          not_enough,
          s,
          ground (arith, few, low),
          (λ p. refl),
          λ p. absurd (ground (arith, low)),
        )
        | inl (ixs, i, fee) ↦ elim (Bool-cases o.has_blockhash) [
          | inr missing ↦ (
            no_blockhash,
            s,
            ground (arith, i, missing),
            (λ p. refl),
            (λ p. absurd (ground arith)),
          )
          | inl there ↦ elim (Option-cases answer) [
            | inl lost ↦ (
              unsent,
              s,
              ground (arith, i, there, a, lost, given, fee),
              (λ p. refl),
              λ p. absurd (ground (arith, lost, given)),
            )
            | inr (sig, sent) ↦ elim (Bool-cases good) [
              | inr bad ↦ (
                unconfirmed,
                s,
                ground (arith, i, there, a, sent, given, fee, ends, bad),
                (λ p. refl),
                λ p. absurd (ground (arith, bad)),
              )
              | inl good_one ↦
                  let (s', settles) = serves sig in
                  (
                    paid ixs,
                    s',
                    ground (arith, i, there, a, sent, given, fee, ends, good_one, settles),
                    (λ p. absurd (ground (arith, there, sent, given, fee, good_one))),
                    λ p. (sig, settles),
                  )
            ]
          ]
        ]
      ]
