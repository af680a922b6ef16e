-- ===== src/Submission/Logs/RoundTrip.antt =====
-- The event that a program returns is the one that is read from the log.
use mathlib.Core.List.{reverse, reverse-cons, reverse-append, append_assoc}
use bitz_pool.Common.{
  ℕ, zero, suc, ◌*◌, ◌<◌, ◌≡◌, refl, ◌∙◌, ap, Bool, true, false, Option, some, List, [], ◌∷◌, ◌++◌,
  length, take-append, drop-append, length-append, arith, All, All-append,
}
use bitz_pool.Common.Word.{u64_mod, to_le_bytes, length-to_le_bytes, from_le_bytes-to_le_bytes}
use bitz_pool.Database.Link.{find}
use bitz_pool.Submission.Logs.{
  MineEventWithGlobalBoosts, to_words, words_of, try_from_bytes, starts_with, trim,
  trim_start_matches, prefix_of, mine_event_str, mined, read_log, TxnAnswer, log_messages,
  rpc_error, no_log, no_meta, skipped, await_log,
}

-- The memory of a record of words.
abbrev words_le : List ℕ → List ℕ
words_le [] = []
words_le (w ∷ ws) = to_le_bytes 8 w ++ words_le ws

words_of-words_le :
    (ws : List ℕ) → All (λ w. w < u64_mod) ws → words_of (length ws) (words_le ws) ≡ ws
unfolding words_of
words_of-words_le [] h = refl
words_of-words_le (w ∷ ws) h =
    let len = length-to_le_bytes 8 w in
    rw
      (
        take-append 8 (to_le_bytes 8 w) (words_le ws) len,
        drop-append 8 (to_le_bytes 8 w) (words_le ws) len,
        from_le_bytes-to_le_bytes 8 w h.0,
        words_of-words_le ws h.1,
      )
      refl

length-words_le : (ws : List ℕ) → length (words_le ws) ≡ 8 * length ws
length-words_le [] = omega arith
length-words_le (w ∷ ws) = omega (
  arith,
  length-append (to_le_bytes 8 w) (words_le ws),
  length-to_le_bytes 8 w,
  length-words_le ws,
)

-- The bytes that the program returns for an event.
abbrev pub event_bytes : MineEventWithGlobalBoosts → List ℕ
event_bytes e = words_le (to_words e)

-- All of its words fit.
abbrev pub IsEvent : MineEventWithGlobalBoosts → Type 0
IsEvent e = All (λ w. w < u64_mod) (to_words e)

try_from_bytes_lem :
    (bytes : List ℕ) (e : MineEventWithGlobalBoosts)
    → length bytes ≡ 64
    → words_of 8 bytes ≡ to_words e
    → try_from_bytes bytes ≡ some e
unfolding try_from_bytes
try_from_bytes_lem bytes e len words = rw (len, words) refl

try_from_bytes-event_bytes :
    (e : MineEventWithGlobalBoosts) → IsEvent e → try_from_bytes (event_bytes e) ≡ some e
try_from_bytes-event_bytes e h =
    try_from_bytes_lem (event_bytes e) e (length-words_le (to_words e))
      (words_of-words_le (to_words e) h)

find-append_miss :
    (p : List ℕ → Bool) (xs ys : List (List ℕ))
    → All (λ l. p l ≡ false) xs
    → find p (xs ++ ys) ≡ find p ys
find-append_miss p [] ys h = refl
find-append_miss p (x ∷ xs) ys h = ground (arith, find-append_miss p xs ys h.1)

All-reverse :
    (p : List ℕ → Bool) (xs : List (List ℕ))
    → All (λ l. p l ≡ false) xs
    → All (λ l. p l ≡ false) (reverse xs)
All-reverse p [] h = tt
All-reverse p (x ∷ xs) h =
    rw (reverse-cons x xs)
      (All-append (λ l. p l ≡ false) (reverse xs) (x ∷ []) (All-reverse p xs h.1) (h.0, tt))

-- An answer after which the loop asks again.
abbrev pub IsEarly : TxnAnswer → Type 0
IsEarly rpc_error = Unit
IsEarly no_log = Unit
IsEarly skipped = Unit
IsEarly _ = ⊥

-- The last line that matches.
find-reverse_last :
    (p : List ℕ → Bool) (before after : List (List ℕ)) (line : List ℕ)
    → p line ≡ true
    → All (λ l. p l ≡ false) after
    → find p (reverse (before ++ (line ∷ after))) ≡ some line
find-reverse_last p before after line hit miss =
    rw
      (
        reverse-append before (line ∷ after),
        reverse-cons line after,
        append_assoc (reverse after) (line ∷ []) (reverse before),
        find-append_miss p (reverse after) (line ∷ reverse before) (All-reverse p after miss),
      )
      (ground arith)

starts_with-append : (prefix s : List ℕ) → starts_with prefix (prefix ++ s) ≡ true
unfolding starts_with
starts_with-append [] s = refl
starts_with-append (c ∷ prefix) s = ground (arith, starts_with-append prefix s)

trim_none : (fuel : ℕ) (prefix s : List ℕ) → starts_with prefix s ≡ false → trim fuel prefix s ≡ s
unfolding trim
trim_none zero prefix s h = refl
trim_none (suc fuel) prefix s h = rw h refl

trim_once :
    (prefix s : List ℕ)
    → 0 < length prefix
    → starts_with prefix s ≡ false
    → trim_start_matches prefix (prefix ++ s) ≡ s
unfolding trim_start_matches
trim_once [] s full no_more = absurd (omega arith)
trim_once (c ∷ prefix) s full no_more =
    rw
      (
        starts_with-append (c ∷ prefix) s,
        drop-append (length (c ∷ prefix)) (c ∷ prefix) s refl,
        trim_none (length (prefix ++ s)) (c ∷ prefix) s no_more,
      )
      refl

mine_event_str-last :
    (prefix encoded : List ℕ) (before after : List (List ℕ))
    → 0 < length prefix
    → starts_with prefix encoded ≡ false
    → All (λ l. starts_with prefix l ≡ false) after
    → mine_event_str prefix (before ++ ((prefix ++ encoded) ∷ after)) ≡ encoded
unfolding mine_event_str
mine_event_str-last prefix encoded before after full no_more miss =
    let found =
      find-reverse_last (starts_with prefix) before after (prefix ++ encoded)
        (starts_with-append prefix encoded) miss in
    let trimmed = trim_once prefix encoded full no_more in rw (found, mine_event_str) trimmed

read_log-event :
    (decode : List ℕ → Option (List ℕ)) (id encoded : List ℕ) (e : MineEventWithGlobalBoosts)
    (before after : List (List ℕ))
    → IsEvent e
    → decode encoded ≡ some (event_bytes e)
    → starts_with (prefix_of id) encoded ≡ false
    → All (λ l. starts_with (prefix_of id) l ≡ false) after
    → read_log decode id (before ++ ((prefix_of id ++ encoded) ∷ after)) ≡ mined e
unfolding read_log
read_log-event decode id encoded e before after fits decoded no_more miss =
    let str = mine_event_str-last (prefix_of id) encoded before after (omega arith) no_more miss in
    ground (arith, str, try_from_bytes-event_bytes e fits)

await_log-early :
    (decode : List ℕ → Option (List ℕ)) (id : List ℕ) (early rest : List TxnAnswer)
    → All IsEarly early
    → await_log decode id (early ++ rest) ≡ await_log decode id rest
unfolding await_log
await_log-early decode id [] rest h = refl
await_log-early decode id (rpc_error ∷ early) rest h = await_log-early decode id early rest h.1
await_log-early decode id (no_meta ∷ early) rest h = absurd h.0
await_log-early decode id (no_log ∷ early) rest h = await_log-early decode id early rest h.1
await_log-early decode id (skipped ∷ early) rest h = await_log-early decode id early rest h.1
await_log-early decode id (log_messages log ∷ early) rest h = absurd h.0

-- The event of the last line that the program returned is read back, whatever else is in the log and
-- however often the RPC had no log before: the encoding is one that `decode` undoes, and does not
-- start like the line itself.
pub await_log-event :
    (decode : List ℕ → Option (List ℕ)) (id encoded : List ℕ) (e : MineEventWithGlobalBoosts)
    (before after : List (List ℕ)) (early late : List TxnAnswer)
    → IsEvent e
    → decode encoded ≡ some (event_bytes e)
    → starts_with (prefix_of id) encoded ≡ false
    → All (λ l. starts_with (prefix_of id) l ≡ false) after
    → All IsEarly early
    → await_log decode id
        (early ++ (log_messages (before ++ ((prefix_of id ++ encoded) ∷ after)) ∷ late))
      ≡ some (mined e)
unfolding await_log
await_log-event decode id encoded e before after early late fits decoded no_more miss early_ok =
    await_log-early decode id early
      (log_messages (before ++ ((prefix_of id ++ encoded) ∷ after)) ∷ late) early_ok
    ∙ ap some (read_log-event decode id encoded e before after fits decoded no_more miss)
