-- ===== src/Context/Sentences.antt =====
-- crates/hansa/src/context.rs: `split_sentences`, `dedup_sentences` and `blake3_normalised`. The
-- splitter's indexes are the text passed since the last cut; its tests are on ASCII bytes, which no
-- other character contains, so bytes and chars cut at the same places.
use hansa.Prelude.{
  ℕ, ◌+◌, Bool, true, false, not, ◌&&◌, ◌||◌, List, [], ◌∷◌, ◌++◌, ◌==◌, if◌then◌else◌,
}
use hansa.Prelude.Bytes.{Bytes, eq_bytes}
use hansa.Text.{
  Chars, codes, Externals, as_bytes, is_whitespace, is_empty, trim, trim_end, join, ends_with,
}

abbrev pub is_stop : ℕ → Bool
is_stop b = b == b'.' || (b == b'!' || b == b'?')

abbrev pub is_break : ℕ → Bool
is_break b = b == b' ' || b == b'\n'

-- `current` is `content[start..i]`.
unfoldable pub split_from : Chars → Chars → List Chars
split_from current [] = if is_empty current then [] else current ∷ []
split_from current (b ∷ []) = (current ++ (b ∷ [])) ∷ []
split_from current (b ∷ c ∷ rest) =
    let cut = split_from (c ∷ []) rest in
    let on = split_from (current ++ (b ∷ [])) (c ∷ rest) in
    if is_stop b && is_break c then (current ++ (b ∷ [])) ∷ cut else on

unfoldable pub split_sentences : Chars → List Chars
unfolding split_from
split_sentences content = split_from [] content

-- `seen.contains(&key)`
unfoldable pub contains : Bytes → List Bytes → Bool
contains key [] = false
contains key (k ∷ seen) = eq_bytes k key || contains key seen

unfoldable pub normalise : Externals → Bool → Chars → Chars → Chars
unfolding is_whitespace
normalise x prev_space normalised [] = normalised
normalise x prev_space normalised (c ∷ content) =
    if is_whitespace c
    then normalise x true
        (if not prev_space && not (is_empty normalised)
          then normalised ++ (b' ' ∷ [])
          else normalised)
        content
    else normalise x false (normalised ++ x.to_lowercase c) content

unfoldable pub blake3_normalised : Externals → Chars → Bytes
unfolding normalise trim_end as_bytes
blake3_normalised x content = x.blake3 (as_bytes (trim_end (normalise x false [] content)))

pub record Kept : Type 0 where
  pub kept_parts : List Chars
  pub dropped : ℕ
  pub seen : List Bytes

-- One round of the loop of `dedup_sentences`.
unfoldable pub keep_sentence : Externals → Chars → Kept → Kept
unfolding trim blake3_normalised contains
keep_sentence x s k =
    let trimmed = trim s in
    let key = blake3_normalised x trimmed in
    if is_empty trimmed
    then k
    else if contains key k.seen
    then record k { dropped = k.dropped + 1 }
    else record k { seen = k.seen ++ (key ∷ []); kept_parts = k.kept_parts ++ (trimmed ∷ []) }

unfoldable pub keep_sentences : Externals → List Chars → Kept → Kept
unfolding keep_sentence
keep_sentences x [] k = k
keep_sentences x (s ∷ sentences) k = keep_sentences x sentences (keep_sentence x s k)

-- Kept sentences joined with `. `, and a full stop where the last has no stop.
unfoldable pub rebuild : List Chars → Chars
unfolding join ends_with
rebuild kept_parts =
    let rebuilt = join (codes ". ") kept_parts in
    if is_empty rebuilt
    then []
    else if ends_with is_stop rebuilt
    then rebuilt
    else rebuilt ++ (b'.' ∷ [])

-- The text, the count of dropped sentences, and `seen` as it is left.
unfoldable pub dedup_sentences : Externals → Chars → List Bytes → (Chars × ℕ) × List Bytes
unfolding split_sentences keep_sentences rebuild
dedup_sentences x content seen =
    let none_yet : Kept = record { kept_parts = []; dropped = 0; seen = seen } in
    let k = keep_sentences x (split_sentences content) none_yet in
    ((rebuild k.kept_parts, k.dropped), k.seen)
