-- ===== src/Context/Split.antt =====
-- What `split_sentences` does to a text.
use hansa.Prelude.{
  ℕ, ◌≡◌, refl, inl, inr, true, false, ◌&&◌, List, [], ◌∷◌, ◌++◌, append_assoc, append-nil,
  Bool-cases, if_both, All, and_left, and_right, arith,
}
use hansa.Text.{Chars, is_empty}
use hansa.Context.Sentences.{is_stop, is_break, split_from, split_sentences}

abbrev concat : List Chars → Chars
concat [] = []
concat (s ∷ parts) = s ++ concat parts

split_from-concat :
    (current content : Chars) → concat (split_from current content) ≡ current ++ content
unfolding split_from
split_from-concat [] [] = refl
split_from-concat (c ∷ current) [] = refl
split_from-concat current (b ∷ []) = append-nil (current ++ (b ∷ []))
split_from-concat current (b ∷ c ∷ rest) = elim (Bool-cases (is_stop b && is_break c)) [
  | inl cut ↦ rw (cut, split_from-concat (c ∷ []) rest) (append_assoc current (b ∷ []) (c ∷ rest))
  | inr on ↦
      rw (on, split_from-concat (current ++ (b ∷ [])) (c ∷ rest))
        (append_assoc current (b ∷ []) (c ∷ rest))
]

-- No sentence is empty.
abbrev IsFilled : Chars → Type 0
IsFilled s = is_empty s ≡ false

append-IsFilled : (current : Chars) (b : ℕ) → IsFilled (current ++ (b ∷ []))
append-IsFilled [] b = refl
append-IsFilled (c ∷ current) b = refl

split_from-IsFilled : (current content : Chars) → All IsFilled (split_from current content)
unfolding split_from
split_from-IsFilled [] [] = tt
split_from-IsFilled (c ∷ current) [] = (refl, tt)
split_from-IsFilled current (b ∷ []) = (append-IsFilled current b, tt)
split_from-IsFilled current (b ∷ c ∷ rest) =
    if_both (All IsFilled) (is_stop b && is_break c)
      (append-IsFilled current b, split_from-IsFilled (c ∷ []) rest)
      (split_from-IsFilled (current ++ (b ∷ [])) (c ∷ rest))

-- A cut comes only after a stop: each sentence but the last ends in one.
abbrev EndsInStop : Chars → Type 0
EndsInStop [] = ⊥
EndsInStop (b ∷ []) = is_stop b ≡ true
EndsInStop (b ∷ c ∷ s) = EndsInStop (c ∷ s)

abbrev EndsInStops : List Chars → Type 0
EndsInStops [] = Unit
EndsInStops (s ∷ []) = Unit
EndsInStops (s ∷ t ∷ parts) = EndsInStop s × EndsInStops (t ∷ parts)

append-EndsInStop : (current : Chars) (b : ℕ) → is_stop b ≡ true → EndsInStop (current ++ (b ∷ []))
append-EndsInStop [] b stop = stop
append-EndsInStop (c ∷ []) b stop = stop
append-EndsInStop (c ∷ d ∷ current) b stop = append-EndsInStop (d ∷ current) b stop

cons-EndsInStops :
    (s : Chars) (parts : List Chars) → EndsInStop s → EndsInStops parts → EndsInStops (s ∷ parts)
cons-EndsInStops s [] ends rest = tt
cons-EndsInStops s (t ∷ parts) ends rest = (ends, rest)

split_from-EndsInStops : (current content : Chars) → EndsInStops (split_from current content)
unfolding split_from
split_from-EndsInStops [] [] = tt
split_from-EndsInStops (c ∷ current) [] = tt
split_from-EndsInStops current (b ∷ []) = tt
split_from-EndsInStops current (b ∷ c ∷ rest) = elim (Bool-cases (is_stop b && is_break c)) [
  | inl cut ↦ rw cut (
      cons-EndsInStops (current ++ (b ∷ [])) (split_from (c ∷ []) rest)
        (append-EndsInStop current b (and_left (is_stop b) (is_break c) cut))
        (split_from-EndsInStops (c ∷ []) rest))
  | inr on ↦ rw on (split_from-EndsInStops (current ++ (b ∷ [])) (c ∷ rest))
]

-- No stop in the sentence stands before a blank or a line break.
abbrev HasNoCut : Chars → Type 0
HasNoCut [] = Unit
HasNoCut (b ∷ []) = Unit
HasNoCut (b ∷ c ∷ s) = (is_stop b && is_break c ≡ false) × HasNoCut (c ∷ s)

append-HasNoCut :
    (current : Chars) (b c : ℕ)
    → HasNoCut (current ++ (b ∷ []))
    → is_stop b && is_break c ≡ false
    → HasNoCut ((current ++ (b ∷ [])) ++ (c ∷ []))
append-HasNoCut [] b c h on = (on, tt)
append-HasNoCut (a ∷ []) b c h on = (h.0, (on, tt))
append-HasNoCut (a ∷ d ∷ current) b c h on = (h.0, append-HasNoCut (d ∷ current) b c h.1 on)

-- A blank is no stop.
break_is_no_stop : (c : ℕ) → is_break c ≡ true → is_stop c ≡ false
break_is_no_stop c h = ground (arith, h)

-- `current` with the character that the splitter looks at.
abbrev looked_at : Chars → Chars → Chars
looked_at current [] = current
looked_at current (b ∷ rest) = current ++ (b ∷ [])

break-HasNoCut : (c : ℕ) (rest : Chars) → is_break c ≡ true → HasNoCut (looked_at (c ∷ []) rest)
break-HasNoCut c [] h = tt
break-HasNoCut c (d ∷ rest) h = (rw (break_is_no_stop c h) refl, tt)

split_from-HasNoCut :
    (current content : Chars)
    → HasNoCut (looked_at current content)
    → All HasNoCut (split_from current content)
unfolding split_from
split_from-HasNoCut [] [] h = tt
split_from-HasNoCut (c ∷ current) [] h = (h, tt)
split_from-HasNoCut current (b ∷ []) h = (h, tt)
split_from-HasNoCut current (b ∷ c ∷ rest) h = elim (Bool-cases (is_stop b && is_break c)) [
  | inl cut ↦
      let blank = and_right (is_stop b) (is_break c) cut in
      rw cut (h, split_from-HasNoCut (c ∷ []) rest (break-HasNoCut c rest blank))
  | inr on ↦
      rw on
        (split_from-HasNoCut (current ++ (b ∷ [])) (c ∷ rest) (append-HasNoCut current b c h on))
]

-- A cut comes only before a blank or a line break: each sentence but the first starts with one.
abbrev StartsInBreak : Chars → Type 0
StartsInBreak [] = ⊥
StartsInBreak (b ∷ s) = is_break b ≡ true

abbrev AfterFirst : List Chars → Type 0
AfterFirst [] = Unit
AfterFirst (s ∷ parts) = All StartsInBreak parts

append-StartsInBreak :
    (current : Chars) (b : ℕ) → StartsInBreak current → StartsInBreak (current ++ (b ∷ []))
append-StartsInBreak [] b h = absurd h
append-StartsInBreak (c ∷ current) b h = h

split_from-StartsInBreak :
    (current content : Chars)
    → StartsInBreak current
    → All StartsInBreak (split_from current content)
unfolding split_from
split_from-StartsInBreak [] content h = absurd h
split_from-StartsInBreak (c ∷ current) [] h = (h, tt)
split_from-StartsInBreak (a ∷ current) (b ∷ []) h = (h, tt)
split_from-StartsInBreak (a ∷ current) (b ∷ c ∷ rest) h =
    elim (Bool-cases (is_stop b && is_break c)) [
      | inl cut ↦
          rw cut
            (h, split_from-StartsInBreak (c ∷ []) rest (and_right (is_stop b) (is_break c) cut))
      | inr on ↦ rw on (split_from-StartsInBreak (a ∷ current ++ (b ∷ [])) (c ∷ rest) h)
    ]

split_from-AfterFirst : (current content : Chars) → AfterFirst (split_from current content)
unfolding split_from
split_from-AfterFirst [] [] = tt
split_from-AfterFirst (c ∷ current) [] = tt
split_from-AfterFirst current (b ∷ []) = tt
split_from-AfterFirst current (b ∷ c ∷ rest) = elim (Bool-cases (is_stop b && is_break c)) [
  | inl cut ↦
      rw cut (split_from-StartsInBreak (c ∷ []) rest (and_right (is_stop b) (is_break c) cut))
  | inr on ↦ rw on (split_from-AfterFirst (current ++ (b ∷ [])) (c ∷ rest))
]

start-HasNoCut : (content : Chars) → HasNoCut (looked_at [] content)
start-HasNoCut [] = tt
start-HasNoCut (b ∷ content) = tt

-- The sentences put together again are the text, none of them is empty, and the cuts are exactly after the
-- stops that stand before a blank or a line break: each sentence but the last ends in a stop, each but
-- the first starts with a blank or a line break, and no sentence has such a place inside.
abbrev pub IsSplit : Chars → List Chars → Type 0
IsSplit content sentences =
    (concat sentences ≡ content)
    × All IsFilled sentences
    × EndsInStops sentences
    × AfterFirst sentences
    × All HasNoCut sentences

pub split_sentences-IsSplit : (content : Chars) → IsSplit content (split_sentences content)
unfolding split_sentences
split_sentences-IsSplit content = (
  split_from-concat [] content,
  split_from-IsFilled [] content,
  split_from-EndsInStops [] content,
  split_from-AfterFirst [] content,
  split_from-HasNoCut [] content (start-HasNoCut content),
)
