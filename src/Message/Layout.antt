-- ===== src/Message/Layout.antt =====
-- The wire layout of the two messages, read back by field widths, independently of the order of
-- the writes in src/message.rs.
use mathlib.Core.List.{append-nil}
use bitz_pool.Common.{
  ℕ, ◌<◌, ◌+◌, ◌≡◌, refl, ap, List, [], ◌∷◌, ◌++◌, Option, none, some, arith, length, length-append,
  take, drop, take-append, drop-append, if◌then◌else◌, bytes_eq,
}
use bitz_pool.Common.Word.{
  to_le_bytes, from_le_bytes, length-to_le_bytes, from_le_bytes-to_le_bytes, u64_mod,
}
use bitz_pool.Message.{
  ServerMessageStartMining, start_mining_binary, ServerMessagePoolSubmissionResult,
  submission_result_binary,
}

-- The fields of a byte string, of the given widths; what is left over comes last.
pub cut : List ℕ → List ℕ → List (List ℕ)
cut [] bs = bs ∷ []
cut (w ∷ ws) bs = take w bs ∷ cut ws (drop w bs)

abbrev join : List (List ℕ) → List ℕ
join [] = []
join (f ∷ fs) = f ++ join fs

abbrev HasWidths : List ℕ → List (List ℕ) → Type 0
HasWidths [] [] = Unit
HasWidths [] (f ∷ fs) = ⊥
HasWidths (w ∷ ws) [] = ⊥
HasWidths (w ∷ ws) (f ∷ fs) = (length f ≡ w) × HasWidths ws fs

cut-join : (ws : List ℕ) (fs : List (List ℕ)) → HasWidths ws fs → cut ws (join fs) ≡ fs ++ ([] ∷ [])
unfolding cut
cut-join [] [] h = refl
cut-join [] (f ∷ fs) h = absurd h
cut-join (w ∷ ws) [] h = absurd h
cut-join (w ∷ ws) (f ∷ fs) h =
    rw (take-append w f (join fs) h.0, drop-append w f (join fs) h.0)
      (ap (λ l. f ∷ l) (cut-join ws fs h.1))

abbrev total : List ℕ → ℕ
total [] = 0
total (w ∷ ws) = w + total ws

length-join : (ws : List ℕ) (fs : List (List ℕ)) → HasWidths ws fs → length (join fs) ≡ total ws
length-join [] [] h = refl
length-join [] (f ∷ fs) h = absurd h
length-join (w ∷ ws) [] h = absurd h
length-join (w ∷ ws) (f ∷ fs) h =
    omega (arith, length-append f (join fs), h.0, length-join ws fs h.1)

abbrev start_mining_fields : ServerMessageStartMining → List (List ℕ)
start_mining_fields m =
    (0 ∷ [])
    ∷ m.challenge
    ∷ to_le_bytes 8 m.cutoff
    ∷ to_le_bytes 8 m.nonce_range_start
    ∷ to_le_bytes 8 m.nonce_range_end
    ∷ []

abbrev start_mining_widths : List ℕ
start_mining_widths = 1 ∷ 32 ∷ 8 ∷ 8 ∷ 8 ∷ []

start_mining_of : List (List ℕ) → Option ServerMessageStartMining
start_mining_of (t ∷ c ∷ k ∷ s ∷ e ∷ [] ∷ []) =
    if bytes_eq t (0 ∷ [])
    then some (record {
      challenge = c;
      cutoff = from_le_bytes k;
      nonce_range_start = from_le_bytes s;
      nonce_range_end = from_le_bytes e;
    })
    else none
start_mining_of _ = none

-- A client's reading of a start message: a tag byte 0, 32 bytes, three words of 8 bytes, no more.
pub read_start_mining : List ℕ → Option ServerMessageStartMining
unfolding start_mining_of
read_start_mining bs = start_mining_of (cut start_mining_widths bs)

-- The values that fit their fields.
pub record FitsStartMining (m : ServerMessageStartMining) : Type 0 where
  pub challenge_width : length m.challenge ≡ 32
  pub cutoff_bound : m.cutoff < u64_mod
  pub start_bound : m.nonce_range_start < u64_mod
  pub end_bound : m.nonce_range_end < u64_mod

start_mining_join :
    (m : ServerMessageStartMining) → start_mining_binary m ≡ join (start_mining_fields m)
unfolding start_mining_binary
start_mining_join m = rw append-nil refl

abbrev w8 : (n : ℕ) → length (to_le_bytes 8 n) ≡ 8
w8 = length-to_le_bytes 8

abbrev w4 : (n : ℕ) → length (to_le_bytes 4 n) ≡ 4
w4 = length-to_le_bytes 4

start_mining_HasWidths :
    (m : ServerMessageStartMining)
    → length m.challenge ≡ 32
    → HasWidths start_mining_widths (start_mining_fields m)
start_mining_HasWidths m h =
    (refl, (h, (w8 m.cutoff, (w8 m.nonce_range_start, (w8 m.nonce_range_end, tt)))))

start_mining_cut :
    (m : ServerMessageStartMining)
    → length m.challenge ≡ 32
    → cut start_mining_widths (start_mining_binary m) ≡ start_mining_fields m ++ ([] ∷ [])
start_mining_cut m h =
    rw (start_mining_join m)
      (cut-join start_mining_widths (start_mining_fields m) (start_mining_HasWidths m h))

-- A start message with a challenge of 32 bytes and three 64-bit words is 57 bytes long, and
-- a client that cuts it by the widths 1, 32, 8, 8 and 8 gets the message back.
pub read_start_mining-binary :
    (m : ServerMessageStartMining)
    → FitsStartMining m
    → (read_start_mining (start_mining_binary m) ≡ some m) × (length (start_mining_binary m) ≡ 57)
unfolding read_start_mining
read_start_mining-binary m h = (
  rw (
    start_mining_cut m h.challenge_width,
    from_le_bytes-to_le_bytes 8 m.cutoff h.cutoff_bound,
    from_le_bytes-to_le_bytes 8 m.nonce_range_start h.start_bound,
    from_le_bytes-to_le_bytes 8 m.nonce_range_end h.end_bound,
  ),
  rw (start_mining_join m) (
      length-join start_mining_widths (start_mining_fields m)
        (start_mining_HasWidths m h.challenge_width)),
)

abbrev result_fields : ServerMessagePoolSubmissionResult → List (List ℕ)
result_fields m =
    (1 ∷ [])
    ∷ to_le_bytes 4 m.difficulty
    ∷ m.total_balance
    ∷ m.total_rewards
    ∷ m.top_stake
    ∷ m.multiplier
    ∷ to_le_bytes 4 m.active_miners
    ∷ m.challenge
    ∷ to_le_bytes 8 m.best_nonce
    ∷ to_le_bytes 4 m.miner_supplied_difficulty
    ∷ m.miner_earned_rewards
    ∷ m.miner_percentage
    ∷ []

abbrev result_widths : List ℕ
result_widths = 1 ∷ 4 ∷ 8 ∷ 8 ∷ 8 ∷ 8 ∷ 4 ∷ 32 ∷ 8 ∷ 4 ∷ 8 ∷ 8 ∷ []

result_of : List (List ℕ) → Option ServerMessagePoolSubmissionResult
result_of (t ∷ a ∷ b ∷ c ∷ d ∷ e ∷ f ∷ g ∷ h ∷ i ∷ j ∷ k ∷ [] ∷ []) =
    if bytes_eq t (1 ∷ [])
    then some (record {
      difficulty = from_le_bytes a;
      total_balance = b;
      total_rewards = c;
      top_stake = d;
      multiplier = e;
      active_miners = from_le_bytes f;
      challenge = g;
      best_nonce = from_le_bytes h;
      miner_supplied_difficulty = from_le_bytes i;
      miner_earned_rewards = j;
      miner_percentage = k;
    })
    else none
result_of _ = none

-- A client's reading of a result message: a tag byte 1 and the eleven fields by their widths.
pub read_result : List ℕ → Option ServerMessagePoolSubmissionResult
unfolding result_of
read_result bs = result_of (cut result_widths bs)

-- The values that fit their fields; a float has eight bytes.
pub record FitsResult (m : ServerMessagePoolSubmissionResult) : Type 0 where
  pub difficulty_bound : m.difficulty < 4294967296
  pub balance_width : length m.total_balance ≡ 8
  pub rewards_width : length m.total_rewards ≡ 8
  pub stake_width : length m.top_stake ≡ 8
  pub multiplier_width : length m.multiplier ≡ 8
  pub miners_bound : m.active_miners < 4294967296
  pub challenge_width : length m.challenge ≡ 32
  pub nonce_bound : m.best_nonce < u64_mod
  pub supplied_bound : m.miner_supplied_difficulty < 4294967296
  pub earned_width : length m.miner_earned_rewards ≡ 8
  pub percentage_width : length m.miner_percentage ≡ 8

result_join :
    (m : ServerMessagePoolSubmissionResult) → submission_result_binary m ≡ join (result_fields m)
unfolding submission_result_binary
result_join m = rw append-nil refl

result_HasWidths :
    (m : ServerMessagePoolSubmissionResult)
    → FitsResult m
    → HasWidths result_widths (result_fields m)
result_HasWidths m h = search (
  length-to_le_bytes, h.balance_width, h.rewards_width, h.stake_width, h.multiplier_width,
  h.challenge_width, h.earned_width, h.percentage_width, tt,
)

result_cut :
    (m : ServerMessagePoolSubmissionResult)
    → FitsResult m
    → cut result_widths (submission_result_binary m) ≡ result_fields m ++ ([] ∷ [])
result_cut m h =
    rw (result_join m) (cut-join result_widths (result_fields m) (result_HasWidths m h))

-- A result message whose numbers fit their words, with eight bytes for each float and 32 for the
-- challenge, is 101 bytes long, and a client that cuts it by the field widths gets it back.
read_result-binary :
    (m : ServerMessagePoolSubmissionResult)
    → FitsResult m
    → (read_result (submission_result_binary m) ≡ some m)
      × (length (submission_result_binary m) ≡ 101)
unfolding read_result
read_result-binary m h = (
  rw (
    result_cut m h,
    from_le_bytes-to_le_bytes 4 m.difficulty h.difficulty_bound,
    from_le_bytes-to_le_bytes 4 m.active_miners h.miners_bound,
    from_le_bytes-to_le_bytes 8 m.best_nonce h.nonce_bound,
    from_le_bytes-to_le_bytes 4 m.miner_supplied_difficulty h.supplied_bound,
  ),
  rw (result_join m) (length-join result_widths (result_fields m) (result_HasWidths m h)),
)
