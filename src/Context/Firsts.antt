-- ===== src/Context/Firsts.antt =====
-- `dedup_sentences`: which sentences it keeps, and the text that it makes of them.
use hansa.Prelude.{
  ◌+◌, ◌≡◌, refl, sym, ◌≢◌, ◌⊎◌, inl, inr, true, false, List, [], ◌∷◌, ◌++◌, if◌then◌else◌,
  Bool-cases, or_true, or_false, or_assoc, Bool, not, ◌&&◌, ◌||◌, ap, ◌∙◌, append-nil, append_assoc,
}
use hansa.Prelude.Bytes.{Bytes, eq_bytes, eq_bytes_sound}
use hansa.Text.{Chars, Externals, is_empty, trim, join, codes, ends_with}
use hansa.Context.Sentences.{
  is_stop, rebuild, contains, blake3_normalised, Kept, keep_sentence, keep_sentences,
}

ends_in_stop : (s : Chars) → ends_with is_stop (s ++ (b'.' ∷ [])) ≡ true
unfolding ends_with
ends_in_stop [] = refl
ends_in_stop (c ∷ []) = refl
ends_in_stop (c ∷ d ∷ s) = ends_in_stop (d ∷ s)

empty_lem : (s : Chars) → is_empty s ≡ true → s ≡ []
empty_lem [] h = refl
empty_lem (c ∷ s) h = absurd (cc)

if_append :
    (test : Bool) (s : Chars) (later : List Chars)
    → (if test then s ∷ [] else []) ++ later ≡ (if test then s ∷ later else later)
if_append true s later = refl
if_append false s later = refl

-- The text is the parts, joined by a full stop and a blank, with one more full stop just where they are not
-- empty and do not end in a stop.
abbrev pub IsRebuilt : List Chars → Chars → Type 0
IsRebuilt parts text =
    let joined = join (codes ". ") parts in
    ((text ≡ joined) × ((joined ≡ []) ⊎ (ends_with is_stop joined ≡ true)))
    ⊎ ((text ≡ joined ++ codes ".") × (joined ≢ []) × (ends_with is_stop joined ≡ false))

pub rebuild-IsRebuilt : (parts : List Chars) → IsRebuilt parts (rebuild parts)
unfolding rebuild
rebuild-IsRebuilt parts =
    let joined = join (codes ". ") parts in
    elim (Bool-cases (is_empty joined)) [
      | inl none_left ↦
          rw none_left (inl (sym (empty_lem joined none_left), inl (empty_lem joined none_left)))
      | inr some_left ↦ elim (Bool-cases (ends_with is_stop joined)) [
        | inl stops ↦ rw (some_left, stops) (inl (refl, inr refl))
        | inr goes_on ↦
            rw (some_left, goes_on)
              (inr (refl, λ e. absurd (cc (sym some_left ∙ ap is_empty e)), refl))
      ]
    ]

module _ (x : Externals) where
  pub keep_sentence_cases {κ} :
      (Holds : Kept → Type κ) (s : Chars) (k : Kept)
      → (is_empty (trim s) ≡ true → Holds k)
      → (is_empty (trim s) ≡ false
          → contains (blake3_normalised x (trim s)) k.seen ≡ true
          → Holds (record k { dropped = k.dropped + 1 }))
      → (is_empty (trim s) ≡ false
          → contains (blake3_normalised x (trim s)) k.seen ≡ false
          → Holds (record k {
            seen = k.seen ++ (blake3_normalised x (trim s) ∷ []);
            kept_parts = k.kept_parts ++ (trim s ∷ []);
          }))
      → Holds (keep_sentence x s k)
  unfolding keep_sentence
  keep_sentence_cases Holds s k blank again new = elim (Bool-cases (is_empty (trim s))) [
    | inl e ↦ rw e (blank e)
    | inr e ↦ rw e (elim (Bool-cases (contains (blake3_normalised x (trim s)) k.seen)) [
      | inl met ↦ rw met (again e met)
      | inr unmet ↦ rw unmet (new e unmet)
    ])
  ]

  -- A sentence of the list that is not blank has the key.
  abbrev pub said : Bytes → List Chars → Bool
  said key [] = false
  said key (t ∷ before) =
      (not (is_empty (trim t)) && eq_bytes (blake3_normalised x (trim t)) key) || said key before

  abbrev pub is_first : List Bytes → List Chars → Chars → Bool
  is_first seen before s =
      let key = blake3_normalised x (trim s) in
      not (is_empty (trim s)) && not (contains key seen || said key before)

  -- The sentences, trimmed, that are not blank and whose key neither was seen nor is that of a sentence
  -- before them.
  abbrev pub firsts : List Bytes → List Chars → List Chars → List Chars
  firsts seen before [] = []
  firsts seen before (s ∷ sentences) =
      let rest = firsts seen (before ++ (s ∷ [])) sentences in
      if is_first seen before s then trim s ∷ rest else rest

  said-append :
      (key : Bytes) (before : List Chars) (s : Chars)
      → said key (before ++ (s ∷ [])) ≡ (
          said key before
          || (not (is_empty (trim s)) && eq_bytes (blake3_normalised x (trim s)) key))
  said-append key [] s = or_false _
  said-append key (t ∷ before) s = rw (said-append key before s) (
      or_assoc (not (is_empty (trim t)) && eq_bytes (blake3_normalised x (trim t)) key)
        (said key before) _)

  contains-append :
      (key : Bytes) (seen : List Bytes) (new : Bytes)
      → contains key (seen ++ (new ∷ [])) ≡ (contains key seen || eq_bytes new key)
  unfolding contains
  contains-append key [] new = or_false _
  contains-append key (k ∷ seen) new =
      rw (contains-append key seen new) (or_assoc (eq_bytes k key) (contains key seen) _)

  -- The keys that the loop has are those that were seen before it and those of the sentences so far.
  abbrev HasMet : List Bytes → List Chars → Kept → Type 0
  HasMet seen before k =
      (key : Bytes) → contains key k.seen ≡ (contains key seen || said key before)

  keep_sentence-HasMet :
      (seen : List Bytes) (before : List Chars) (s : Chars) (k : Kept)
      → HasMet seen before k
      → HasMet seen (before ++ (s ∷ [])) (keep_sentence x s k)
  keep_sentence-HasMet seen before s k met key =
      let old = met key in
      let further = said-append key before s in
      keep_sentence_cases
        (λ after. contains key after.seen ≡ (contains key seen || said key (before ++ (s ∷ [])))) s
        k (λ blank. rw (further, blank, or_false (said key before)) old)
        (λ e again. elim (Bool-cases (eq_bytes (blake3_normalised x (trim s)) key)) [
          | inl same ↦
              let there : contains key k.seen ≡ true =
                ap (λ j. contains j k.seen) (sym (eq_bytes_sound _ key same)) ∙ again in
              rw (there, further, e, same, or_true (said key before), or_true (contains key seen))
                refl
          | inr other ↦ rw (further, e, other, or_false (said key before)) old
        ])
        (λ e new.
          rw (contains-append key k.seen (blake3_normalised x (trim s)), further, e, old)
            (sym (or_assoc (contains key seen) (said key before) _)))

  keep_sentence-kept :
      (seen : List Bytes) (before : List Chars) (s : Chars) (k : Kept)
      → HasMet seen before k
      → (keep_sentence x s k).kept_parts
        ≡ k.kept_parts ++ (if is_first seen before s then trim s ∷ [] else [])
  keep_sentence-kept seen before s k met =
      let old = met (blake3_normalised x (trim s)) in
      keep_sentence_cases
        (λ after.
          after.kept_parts ≡ k.kept_parts ++ (if is_first seen before s then trim s ∷ [] else []))
        s k (λ blank. rw blank (sym (append-nil k.kept_parts)))
        (λ e again. rw (e, sym old ∙ again) (sym (append-nil k.kept_parts)))
        (λ e new. rw (e, sym old ∙ new) refl)

  pub keep_sentences-firsts :
      (seen : List Bytes) (before sentences : List Chars) (k : Kept)
      → HasMet seen before k
      → (keep_sentences x sentences k).kept_parts ≡ k.kept_parts ++ firsts seen before sentences
  unfolding keep_sentences
  keep_sentences-firsts seen before [] k met = sym (append-nil k.kept_parts)
  keep_sentences-firsts seen before (s ∷ sentences) k met =
      let rest =
        keep_sentences-firsts seen (before ++ (s ∷ [])) sentences (keep_sentence x s k)
          (keep_sentence-HasMet seen before s k met) in
      let later = firsts seen (before ++ (s ∷ [])) sentences in
      rest
      ∙ ap (λ parts. parts ++ later) (keep_sentence-kept seen before s k met)
      ∙ append_assoc k.kept_parts (if is_first seen before s then trim s ∷ [] else []) later
      ∙ ap (λ parts. k.kept_parts ++ parts) (if_append (is_first seen before s) (trim s) later)
