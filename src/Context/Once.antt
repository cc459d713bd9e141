-- ===== src/Context/Once.antt =====
-- The text that `dedup_sentences` gives back, and the keys that it leaves.
use hansa.Prelude.{
  ℕ, ◌+◌, ◌≡◌, refl, sym, ◌≢◌, ◌⊎◌, inl, inr, true, false, List, [], ◌∷◌, ◌++◌, arith,
  if◌then◌else◌, Bool-cases, length, length-append, All, All-append, neither, or_true, or_false,
  subst,
}
use hansa.Prelude.Bytes.{Bytes, eq_bytes, eq_bytes_iff, eq_bytes_refl}
use hansa.Text.{Chars, Externals, is_empty, trim}
use hansa.Context.Firsts.{
  IsRebuilt, rebuild-IsRebuilt, keep_sentence_cases, firsts, keep_sentences-firsts,
}
use hansa.Context.Split.{IsSplit, split_sentences-IsSplit}
use hansa.Context.Sentences.{
  rebuild, split_sentences, contains, blake3_normalised, Kept, keep_sentence, keep_sentences,
  dedup_sentences,
}

-- No key stands in the list twice.
abbrev pub IsUnique : List Bytes → Type 0
IsUnique [] = Unit
IsUnique (key ∷ keys) = All (λ k. k ≢ key) keys × IsUnique keys

contains_none :
    (key : Bytes) (seen : List Bytes) → contains key seen ≡ false → All (λ k. k ≢ key) seen
unfolding contains
contains_none key [] h = tt
contains_none key (k ∷ seen) h =
    let (apart, rest) = neither (eq_bytes k key) (contains key seen) h in
    ((λ same. let equal = (eq_bytes_iff k key).1 same in absurd (cc)), contains_none key seen rest)

append-IsUnique :
    (seen : List Bytes) (key : Bytes)
    → IsUnique seen
    → All (λ k. k ≢ key) seen
    → IsUnique (seen ++ (key ∷ []))
append-IsUnique [] key h new = (tt, tt)
append-IsUnique (k ∷ seen) key h new = (
  All-append (λ other. other ≢ k) seen (key ∷ []) h.0 ((λ same. new.0 (sym same)), tt),
  append-IsUnique seen key h.1 new.1,
)

contains_last : (key : Bytes) (seen : List Bytes) → contains key (seen ++ (key ∷ [])) ≡ true
unfolding contains
contains_last key [] = rw (eq_bytes_refl key) refl
contains_last key (k ∷ seen) = rw (contains_last key seen) (or_true (eq_bytes k key))

contains_stays :
    (key new : Bytes) (seen : List Bytes)
    → contains key seen ≡ true
    → contains key (seen ++ (new ∷ [])) ≡ true
unfolding contains
contains_stays key new [] h = absurd (cc)
contains_stays key new (k ∷ seen) h = elim (Bool-cases (eq_bytes k key)) [
  | inl e ↦ rw e refl
  | inr e ↦ rw e (contains_stays key new seen (rw e at h))
]

module _ (x : Externals) where
  -- The sentence is blank, or its key has been seen.
  abbrev pub IsKnown : List Bytes → Chars → Type 0
  IsKnown seen s =
      (is_empty (trim s) ≡ true) ⊎ (contains (blake3_normalised x (trim s)) seen ≡ true)

  -- How many sentences are not blank.
  abbrev pub filled : List Chars → ℕ
  filled [] = 0
  filled (s ∷ sentences) = (if is_empty (trim s) then 0 else 1) + filled sentences

  IsKnown-stays : (t s : Chars) (k : Kept) → IsKnown k.seen t → IsKnown (keep_sentence x s k).seen t
  IsKnown-stays t s k (inl blank) = inl blank
  IsKnown-stays t s k (inr met) = inr (
      keep_sentence_cases x (λ after. contains (blake3_normalised x (trim t)) after.seen ≡ true) s k
        (λ blank. met) (λ e again. met)
        (λ e new.
          contains_stays (blake3_normalised x (trim t)) (blake3_normalised x (trim s)) k.seen met))

  keep_sentence-IsKnown : (s : Chars) (k : Kept) → IsKnown (keep_sentence x s k).seen s
  keep_sentence-IsKnown s k =
      keep_sentence_cases x (λ after. IsKnown after.seen s) s k (λ blank. inl blank)
        (λ e met. inr met) (λ e new. inr (contains_last (blake3_normalised x (trim s)) k.seen))

  IsKnown-through :
      (t : Chars) (sentences : List Chars) (k : Kept)
      → IsKnown k.seen t
      → IsKnown (keep_sentences x sentences k).seen t
  unfolding keep_sentences
  IsKnown-through t [] k h = h
  IsKnown-through t (s ∷ sentences) k h =
      IsKnown-through t sentences (keep_sentence x s k) (IsKnown-stays t s k h)

  keep_sentences-IsKnown :
      (sentences : List Chars) (k : Kept)
      → All (IsKnown (keep_sentences x sentences k).seen) sentences
  unfolding keep_sentences
  keep_sentences-IsKnown [] k = tt
  keep_sentences-IsKnown (s ∷ sentences) k = (
    IsKnown-through s sentences (keep_sentence x s k) (keep_sentence-IsKnown s k),
    keep_sentences-IsKnown sentences (keep_sentence x s k),
  )

  keep_sentences-IsUnique :
      (sentences : List Chars) (k : Kept)
      → IsUnique k.seen
      → IsUnique (keep_sentences x sentences k).seen
  unfolding keep_sentences
  keep_sentences-IsUnique [] k h = h
  keep_sentences-IsUnique (s ∷ sentences) k h =
      keep_sentences-IsUnique sentences (keep_sentence x s k) (
        keep_sentence_cases x (λ after. IsUnique after.seen) s k (λ blank. h) (λ e met. h)
          (λ e new.
            let key = blake3_normalised x (trim s) in
            append-IsUnique k.seen key h (contains_none key k.seen new)))

  abbrev counted : Kept → ℕ
  counted k = length k.seen + k.dropped

  keep_sentences-counted :
      (sentences : List Chars) (k : Kept)
      → counted (keep_sentences x sentences k) ≡ counted k + filled sentences
  unfolding keep_sentences
  keep_sentences-counted [] k = omega arith
  keep_sentences-counted (s ∷ sentences) k =
      let one =
        keep_sentence_cases x
          (λ after. counted after ≡ counted k + (if is_empty (trim s) then 0 else 1)) s k
          (λ blank. rw blank (omega arith)) (λ e met. rw e (omega arith))
          (λ e new.
            rw e (omega (arith, length-append k.seen (blake3_normalised x (trim s) ∷ [])))) in
      omega (arith, one, keep_sentences-counted sentences (keep_sentence x s k))

  -- `dedup_sentences` gives back, in their order, the sentences that are not blank and whose key neither
  -- was seen nor is that of an earlier sentence of the text, trimmed, joined by a full stop and a blank,
  -- and with one more full stop just where they do not end in a stop. The sentences put together are the
  -- text, none is empty, and the text is cut exactly after the stops that stand before a blank or a line
  -- break. From keys that are all different, it leaves keys that are all different; every sentence is
  -- blank or has its key among those left; and the new keys and the dropped sentences together are as
  -- many as the sentences that are not blank.
  pub dedup_sentences_lem :
      (content : Chars) (seen : List Bytes)
      → IsUnique seen
      → IsRebuilt (firsts x seen [] (split_sentences content)) (dedup_sentences x content seen).0.0
        × IsSplit content (split_sentences content)
        × IsUnique (dedup_sentences x content seen).1
        × All (IsKnown (dedup_sentences x content seen).1) (split_sentences content)
        × (length (dedup_sentences x content seen).1 + (dedup_sentences x content seen).0.1
            ≡ length seen + filled (split_sentences content))
  unfolding dedup_sentences
  dedup_sentences_lem content seen unique =
      let none_yet : Kept = record { kept_parts = []; dropped = 0; seen = seen } in
      let sentences = split_sentences content in
      let kept =
        keep_sentences-firsts x seen [] sentences none_yet
          (λ key. sym (or_false (contains key seen))) in
      (
        subst (λ parts. IsRebuilt parts (rebuild (keep_sentences x sentences none_yet).kept_parts))
            kept (rebuild-IsRebuilt (keep_sentences x sentences none_yet).kept_parts),
        split_sentences-IsSplit content,
        keep_sentences-IsUnique sentences none_yet unique,
        keep_sentences-IsKnown sentences none_yet,
        omega (arith, keep_sentences-counted sentences none_yet),
      )
