-- ===== src/Message/Tests.antt =====
-- Tests of src/message.rs, and the theorems at concrete messages.
use bitz_pool.Common.{ℕ, ◌≡◌, refl, List, [], ◌∷◌, some, arith, length}
use bitz_pool.Common.Word.{to_le_bytes}
use bitz_pool.Message.{ServerMessageStartMining, start_mining_binary}
use bitz_pool.Message.Layout.{read_start_mining, read_start_mining-binary}

abbrev challenge_bytes : List ℕ
challenge_bytes = to_le_bytes 32 123456789

abbrev first_range : ServerMessageStartMining
first_range = record {
  challenge = challenge_bytes;
  cutoff = 55;
  nonce_range_start = 40000000;
  nonce_range_end = 79999999;
}

start_mining_bytes :
    start_mining_binary (record first_range { challenge = 9 ∷ [] })
    ≡ 0 ∷ 9 ∷ 55 ∷ 0 ∷ 0 ∷ 0 ∷ 0 ∷ 0 ∷ 0 ∷ 0 ∷ 0 ∷ 90 ∷ 98 ∷ 2 ∷ 0 ∷ 0 ∷ 0 ∷ 0 ∷ 255 ∷ 179 ∷ 196 ∷ 4
      ∷ 0 ∷ 0 ∷ 0 ∷ 0 ∷ []
unfolding start_mining_binary to_le_bytes
start_mining_bytes = refl

read_start_mining-binary_example :
    (read_start_mining (start_mining_binary first_range) ≡ some first_range)
    × (length (start_mining_binary first_range) ≡ 57)
unfolding to_le_bytes
read_start_mining-binary_example = read_start_mining-binary first_range (omega arith)

abbrev float_one : List ℕ
float_one = 0 ∷ 0 ∷ 0 ∷ 0 ∷ 0 ∷ 0 ∷ 240 ∷ 63 ∷ []
