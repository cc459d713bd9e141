-- ===== src/Context/Toon.antt =====
-- What `render_toon` writes is read back: a reader of CSV rows, and the contents that it finds.
use hansa.Prelude.{
  ℕ, zero, suc, ◌≡◌, refl, sym, ap, ◌∙◌, inl, inr, false, ◌||◌, List, [], ◌∷◌, ◌++◌, map,
  append_assoc, arith, ◌==◌, if◌then◌else◌, ==_iff, Bool-cases, length, All, All-append, neither,
}
use hansa.Floats.{Floats}
use hansa.Text.{Chars, codes}
use hansa.Hex.{hex_digit}
use hansa.HeadCache.{decimal}
use hansa.HeadCache.Decimal.{IsDigit, decimal-IsDigit}
use hansa.Membrane.Query.{HitOrigin, local, remote}
use hansa.Context.Bundle.{ContextItem, ContextBundle}
use hansa.Context.Render.{
  peer_mark, mark, has_char, escape, csv_field, render_each, toon_row, render_toon,
}

-- The text after the first `stop`, and what comes before.
unfoldable pub until : ℕ → Chars → Chars × Chars
until stop [] = ([], [])
until stop (c ∷ s) =
    let (before, after) = until stop s in if c == stop then ([], s) else (c ∷ before, after)

-- A quoted field, after its opening quote: two quotes are one, one quote ends it.
unfoldable pub read_quoted : Chars → Chars × Chars
read_quoted [] = ([], [])
read_quoted (c ∷ []) = if c == b'"' then ([], []) else (c ∷ [], [])
read_quoted (c ∷ d ∷ s) =
    let (after_pair, end_pair) = read_quoted s in
    let (after_one, end_one) = read_quoted (d ∷ s) in
    if c == b'"'
    then if d == b'"' then (b'"' ∷ after_pair, end_pair) else ([], d ∷ s)
    else (c ∷ after_one, end_one)

-- The last field of a row, to the end of its line.
unfoldable pub read_field : Chars → Chars × Chars
unfolding until read_quoted
read_field [] = ([], [])
read_field (c ∷ s) =
    let (field, rest) = read_quoted s in
    if c == b'"' then (field, (until b'\n' rest).1) else until b'\n' (c ∷ s)

-- The third field of each of `n` rows.
unfoldable pub read_rows : ℕ → Chars → List Chars
unfolding until read_field
read_rows zero s = []
read_rows (suc n) s =
    let (field, rest) = read_field (until b',' (until b',' s).1).1 in field ∷ read_rows n rest

-- The texts of the rows below the two lines of the head.
unfoldable pub read_toon : ℕ → Chars → List Chars
unfolding until read_rows
read_toon n s = read_rows n (until b'\n' (until b'\n' s).1).1

abbrev pub Lacks : ℕ → Chars → Type 0
Lacks c s = All (λ d. (d == c) ≡ false) s

until-append :
    (stop : ℕ) (s rest : Chars) → Lacks stop s → until stop (s ++ (stop ∷ rest)) ≡ (s, rest)
unfolding until
until-append stop [] rest h = rw ((==_iff stop stop).1 refl) refl
until-append stop (c ∷ s) rest h = rw (h.0, until-append stop s rest h.1) refl

has_char-Lacks : (c : ℕ) (s : Chars) → has_char c s ≡ false → Lacks c s
unfolding has_char
has_char-Lacks c [] h = tt
has_char-Lacks c (d ∷ s) h =
    let (other, rest) = neither (d == c) (has_char c s) h in (other, has_char-Lacks c s rest)

read_quoted_other :
    (c : ℕ) (s : Chars)
    → (c == b'"') ≡ false
    → read_quoted (c ∷ s) ≡ (c ∷ (read_quoted s).0, (read_quoted s).1)
unfolding read_quoted
read_quoted_other c [] other = rw other refl
read_quoted_other c (d ∷ s) other = rw other refl

read_quoted-escape :
    (s rest : Chars) → read_quoted (escape s ++ (b'"' ∷ (b'\n' ∷ rest))) ≡ (s, b'\n' ∷ rest)
unfolding escape read_quoted
read_quoted-escape [] rest = refl
read_quoted-escape (c ∷ s) rest = elim (Bool-cases (c == b'"')) [
  | inl quote ↦
      rw (quote, read_quoted-escape s rest)
        (ap (λ q. (q ∷ s, b'\n' ∷ rest)) (sym ((==_iff c b'"').0 quote)))
  | inr other ↦
      rw
        (
          other,
          read_quoted_other c (escape s ++ (b'"' ∷ (b'\n' ∷ rest))) other,
          read_quoted-escape s rest,
        )
        refl
]

read_field_bare :
    (s rest : Chars)
    → has_char b'"' s ≡ false
    → has_char b'\n' s ≡ false
    → read_field (s ++ (b'\n' ∷ rest)) ≡ (s, rest)
unfolding read_field
read_field_bare [] rest no_quote no_line = until-append b'\n' [] rest tt
read_field_bare (c ∷ s) rest no_quote no_line =
    rw ((has_char-Lacks b'"' (c ∷ s) no_quote).0)
      (until-append b'\n' (c ∷ s) rest (has_char-Lacks b'\n' (c ∷ s) no_line))

read_field_quoted :
    (s rest : Chars) → read_field (b'"' ∷ (escape s ++ (b'"' ∷ (b'\n' ∷ rest)))) ≡ (s, rest)
unfolding read_field until
read_field_quoted s rest = rw (read_quoted-escape s rest) refl

read_field-csv_field : (s rest : Chars) → read_field (csv_field s ++ (b'\n' ∷ rest)) ≡ (s, rest)
unfolding csv_field
read_field-csv_field s rest =
    elim (Bool-cases (has_char b',' s || (has_char b'"' s || has_char b'\n' s))) [
      | inl special ↦
          rw (special, append_assoc (escape s) (b'"' ∷ []) (b'\n' ∷ rest))
            (read_field_quoted s rest)
      | inr plain ↦
          let (no_comma, others) = neither _ _ plain in
          let (no_quote, no_line) = neither _ _ others in
          rw plain (read_field_bare s rest no_quote no_line)
    ]

module _ (f : Floats) where
  open f use {F32, decimals}

  mark_is_no_comma : (o : HitOrigin) → (mark o == b',') ≡ false
  unfolding mark peer_mark hex_digit
  mark_is_no_comma local = refl
  mark_is_no_comma (remote []) = refl
  mark_is_no_comma (remote (b ∷ id)) = ground arith

  -- The text of a similarity has no comma.
  abbrev pub IsPlain : Type 0
  IsPlain = (similarity : F32) → Lacks b',' (decimals 2 similarity)

  rows_step :
      (n : ℕ) (s src after_src sim after_sim field rest : Chars)
      → until b',' s ≡ (src, after_src)
      → until b',' after_src ≡ (sim, after_sim)
      → read_field after_sim ≡ (field, rest)
      → read_rows (suc n) s ≡ field ∷ read_rows n rest
  unfolding read_rows
  rows_step n s src after_src sim after_sim field rest h k l = rw (h, k, l) refl

  toon_row-append :
      (item : ContextItem f) (rest : Chars)
      → toon_row f item ++ rest
        ≡ (b' ' ∷ (b' ' ∷ (mark item.origin ∷ [])))
          ++ (b','
              ∷ (decimals 2 item.similarity ++ (b',' ∷ (csv_field item.content ++ (b'\n' ∷ rest)))))
  unfolding toon_row
  toon_row-append item rest =
      rw
        (
          append_assoc (decimals 2 item.similarity)
              (b',' ∷ (csv_field item.content ++ (b'\n' ∷ []))) rest,
          append_assoc (csv_field item.content) (b'\n' ∷ []) rest,
        )
        refl

  read_rows-toon_row :
      (item : ContextItem f) (n : ℕ) (rest : Chars)
      → Lacks b',' (decimals 2 item.similarity)
      → read_rows (suc n) (toon_row f item ++ rest) ≡ item.content ∷ read_rows n rest
  read_rows-toon_row item n rest plain =
      let src = b' ' ∷ (b' ' ∷ (mark item.origin ∷ [])) in
      let sim = decimals 2 item.similarity in
      let last = csv_field item.content ++ (b'\n' ∷ rest) in
      rw (toon_row-append item rest) (
        rows_step n (src ++ (b',' ∷ (sim ++ (b',' ∷ last)))) src (sim ++ (b',' ∷ last)) sim last
          item.content rest
          (until-append b',' src (sim ++ (b',' ∷ last))
            (refl, (refl, (mark_is_no_comma item.origin, tt))))
          (until-append b',' sim last plain) (read_field-csv_field item.content rest))

  read_rows-render_each :
      IsPlain
      → (items : List (ContextItem f))
      → read_rows (length items) (render_each f (toon_row f) items)
        ≡ map (λ item. item.content) items
  unfolding render_each
  read_rows-render_each plain [] = unfold read_rows in refl
  read_rows-render_each plain (item ∷ items) =
      read_rows-toon_row item (length items) (render_each f (toon_row f) items)
        (plain item.similarity)
      ∙ ap (◌∷◌ item.content) (read_rows-render_each plain items)

  digits_Lack : (s : Chars) → All IsDigit s → Lacks b'\n' s
  digits_Lack [] h = tt
  digits_Lack (c ∷ s) h = (ground (arith, h.0), digits_Lack s h.1)

  read_toon_head :
      (n : ℕ) (first second rows : Chars)
      → Lacks b'\n' first
      → Lacks b'\n' second
      → read_toon n (first ++ (b'\n' ∷ (second ++ (b'\n' ∷ rows)))) ≡ read_rows n rows
  unfolding read_toon
  read_toon_head n first second rows h k =
      rw (until-append b'\n' first (second ++ (b'\n' ∷ rows)) h, until-append b'\n' second rows k)
        refl

  -- The rows that `render_toon` writes are read back as the contents of the items, whatever commas, quotes
  -- and line breaks they hold, where the texts of similarities have no comma.
  pub read_toon-render_toon :
      IsPlain
      → (bundle : ContextBundle f)
      → read_toon (length bundle.items) (render_toon f bundle)
        ≡ map (λ item. item.content) bundle.items
  unfolding render_toon
  read_toon-render_toon plain bundle =
      let n = decimal (length bundle.items) in
      let rows = render_each f (toon_row f) bundle.items in
      let first = codes "items[" ++ (n ++ codes "]:") in
      let second = codes "  src,sim,text" in
      let shape : render_toon f bundle ≡ first ++ (b'\n' ∷ (second ++ (b'\n' ∷ rows))) =
        ap (λ s. codes "items[" ++ s)
          (sym (append_assoc n (codes "]:") (b'\n' ∷ (second ++ (b'\n' ∷ rows))))) in
      let digits = digits_Lack n (decimal-IsDigit (length bundle.items)) in
      let lacks =
        All-append (λ d. (d == b'\n') ≡ false) (codes "items[") (n ++ codes "]:")
          (refl, (refl, (refl, (refl, (refl, (refl, tt))))))
          (All-append (λ d. (d == b'\n') ≡ false) n (codes "]:") digits (refl, (refl, tt))) in
      ap (read_toon (length bundle.items)) shape
      ∙ read_toon_head (length bundle.items) first second rows lacks (
        refl,
        (
          refl,
          (
            refl,
            (
              refl,
              (refl, (refl, (refl, (refl, (refl, (refl, (refl, (refl, (refl, (refl, tt)))))))))),
            ),
          ),
        ),
      )
      ∙ read_rows-render_each plain bundle.items
