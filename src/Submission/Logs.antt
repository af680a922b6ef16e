-- ===== src/Submission/Logs.antt =====
-- The mine event in the log of a final transaction: src/systems/pool_submission_system.rs and the
-- event of src/bitz_utils.rs. Texts are the lists of their bytes.
pub mod RoundTrip
use mathlib.Core.List.{reverse, reverse-cons, reverse-append, append-nil}
use Prim.Native.Char.{code}
use Prim.Native.String.{String}
use bitz_pool.Common.{
  ℕ, zero, suc, ◌+◌, ◌<◌, ◌≡◌, refl, ◌∙◌, sym, ap, Bool, true, false, ◌&&◌, Option, none, some,
  List, [], ◌∷◌, ◌++◌, length, take, drop, take-append, drop-append, length-append, ◌==◌,
  if◌then◌else◌, arith, All,
}
use bitz_pool.Common.Word.{
  u64_mod, to_le_bytes, from_le_bytes, length-to_le_bytes, from_le_bytes-to_le_bytes, pow256,
}
use bitz_pool.Database.Link.{find}

-- `MineEventWithGlobalBoosts`; a signed field is given by its bit pattern.
pub record MineEventWithGlobalBoosts : Type 0 where
  pub balance : ℕ
  pub difficulty : ℕ
  pub last_hash_at : ℕ
  pub timing : ℕ
  pub net_reward : ℕ
  pub net_base_reward : ℕ
  pub net_miner_boost_reward : ℕ
  pub net_staker_boost_reward : ℕ

abbrev pub to_words : MineEventWithGlobalBoosts → List ℕ
to_words e =
    e.balance ∷ e.difficulty ∷ e.last_hash_at ∷ e.timing ∷ e.net_reward ∷ e.net_base_reward
    ∷ e.net_miner_boost_reward ∷ e.net_staker_boost_reward ∷ []

abbrev of_words : List ℕ → Option MineEventWithGlobalBoosts
of_words (a ∷ b ∷ c ∷ d ∷ e ∷ f ∷ g ∷ h ∷ []) = some (record {
  balance = a;
  difficulty = b;
  last_hash_at = c;
  timing = d;
  net_reward = e;
  net_base_reward = f;
  net_miner_boost_reward = g;
  net_staker_boost_reward = h;
})
of_words _ = none

unfoldable pub words_of : ℕ → List ℕ → List ℕ
words_of zero bs = []
words_of (suc n) bs = from_le_bytes (take 8 bs) ∷ words_of n (drop 8 bs)

-- `bytemuck::try_from_bytes` on the memory of the event, where the bytes are aligned: it checks the
-- size.
unfoldable pub try_from_bytes : List ℕ → Option MineEventWithGlobalBoosts
try_from_bytes bytes = if length bytes == 64 then of_words (words_of 8 bytes) else none

-- `str::starts_with`
unfoldable pub starts_with : List ℕ → List ℕ → Bool
starts_with [] s = true
starts_with (c ∷ prefix) [] = false
starts_with (c ∷ prefix) (d ∷ s) = c == d && starts_with prefix s

-- `str::trim_start_matches`, which takes the prefix away as often as it is there; each turn takes a
-- byte at least, so the length of the text is fuel enough.
unfoldable pub trim : ℕ → List ℕ → List ℕ → List ℕ
trim zero prefix s = s
trim (suc fuel) prefix s =
    let rest = trim fuel prefix (drop (length prefix) s) in if starts_with prefix s then rest else s

unfoldable pub trim_start_matches : List ℕ → List ℕ → List ℕ
unfolding trim
trim_start_matches prefix s = trim (length s) prefix s

abbrev codes : String → List ℕ
codes String.[] = []
codes (String.◌∷◌ c s) = code c ∷ codes s

-- `"Program return: {} "`, of the id of the program
abbrev pub prefix_of : List ℕ → List ℕ
prefix_of id = codes "Program return: " ++ (id ++ codes " ")

-- The last line with the prefix, without it; the empty text if there is none.
unfoldable pub mine_event_str : List ℕ → List (List ℕ) → List ℕ
mine_event_str prefix log = elim (find (starts_with prefix) (reverse log)) [
  | none ↦ []
  | some line ↦ trim_start_matches prefix line
]

-- What a log comes to: a panic of `decode(..).unwrap()`, data that is no event, or the event.
pub data Reading : Type 0 where
  panicked : Reading
  unreadable : Reading
  mined : MineEventWithGlobalBoosts → Reading

-- `decode` is that of the base64 engine.
unfoldable pub read_log : (List ℕ → Option (List ℕ)) → List ℕ → List (List ℕ) → Reading
read_log decode id log = elim (decode (mine_event_str (prefix_of id) log)) [
  | none ↦ panicked
  | some bytes ↦ elim (try_from_bytes bytes) [ none ↦ unreadable | some e ↦ mined e ]
]

-- An answer to `get_transaction_with_config`: none, one without metadata, one whose log is `None` or
-- `Skip`, or a log.
pub data TxnAnswer : Type 0 where
  rpc_error : TxnAnswer
  no_meta : TxnAnswer
  no_log : TxnAnswer
  skipped : TxnAnswer
  log_messages : List (List ℕ) → TxnAnswer

-- The loop that asks for the transaction. `none` is a loop that is still running.
unfoldable pub await_log : (List ℕ → Option (List ℕ)) → List ℕ → List TxnAnswer → Option Reading
unfolding read_log
await_log decode id [] = none
await_log decode id (rpc_error ∷ answers) = await_log decode id answers
await_log decode id (no_meta ∷ answers) = some panicked
await_log decode id (no_log ∷ answers) = await_log decode id answers
await_log decode id (skipped ∷ answers) = await_log decode id answers
await_log decode id (log_messages log ∷ answers) = some (read_log decode id log)
