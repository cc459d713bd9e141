-- ===== src/HeadCache/Text.antt =====
-- A `.head` file that `store` wrote is read back by `load`.
use hansa.Prelude.{
  ℕ, ◌^◌, ◌<◌, ◌≡◌, refl, ap, ◌∙◌, subst, ◌≢◌, true, false, some, [], ◌∷◌, ◌++◌, arith, ◌==◌,
  if◌then◌else◌, length, All,
}
use hansa.Prelude.Bytes.{Bytes, IsByte, eq_bytes}
use hansa.Prelude.Assoc.{lookup-insert}
use hansa.Error.{registry_malformed}
use hansa.Hex.{returned, hex, unhex_from}
use hansa.Hex.Codec.{unhex_from-hex, length-hex, hex_above_blank}
use hansa.HeadCache.{
  HeadCache, decimal, parse_u64, is_blank, skip_blanks, word, next_part, parse_hash, parse_rest,
  parse_seq, load_text, load, head_line, store,
}
use hansa.HeadCache.Decimal.{IsDigit, decimal-IsDigit, decimal_not_empty, parse_u64-decimal}

abbrev IsVisible : Bytes → Type 0
IsVisible = All (λ c. is_blank c ≡ false)

word-append :
    (w : Bytes) (b : ℕ) (rest : Bytes)
    → IsVisible w
    → is_blank b ≡ true
    → word (w ++ b ∷ rest) ≡ (w, b ∷ rest)
unfolding word
word-append [] b rest h blank = rw blank refl
word-append (c ∷ w) b rest h blank = rw (h.0, word-append w b rest h.1 blank) refl

next_part-append :
    (c : ℕ) (w : Bytes) (b : ℕ) (rest : Bytes)
    → IsVisible (c ∷ w)
    → is_blank b ≡ true
    → next_part (c ∷ w ++ b ∷ rest) ≡ some (c ∷ w, b ∷ rest)
unfolding next_part
next_part-append c w b rest h blank =
    let here : skip_blanks (c ∷ w ++ b ∷ rest) ≡ c ∷ w ++ b ∷ rest =
      unfold skip_blanks in rw h.0 refl in
    rw (here, word-append (c ∷ w) b rest h blank) refl

next_part-blank : (s : Bytes) (b : ℕ) → is_blank b ≡ true → next_part (b ∷ s) ≡ next_part s
unfolding next_part skip_blanks
next_part-blank s b blank = rw blank refl

digits-IsVisible : (s : Bytes) → All IsDigit s → IsVisible s
unfolding is_blank
digits-IsVisible [] h = tt
digits-IsVisible (c ∷ s) h = (ground (arith, h.0), digits-IsVisible s h.1)

above-IsVisible : (s : Bytes) → All (λ c. 32 < c) s → IsVisible s
unfolding is_blank
above-IsVisible [] h = tt
above-IsVisible (c ∷ s) h = (ground (arith, h.0), above-IsVisible s h.1)

next_part-word :
    (w : Bytes) (b : ℕ) (rest : Bytes)
    → w ≢ []
    → IsVisible w
    → is_blank b ≡ true
    → next_part (w ++ b ∷ rest) ≡ some (w, b ∷ rest)
next_part-word [] b rest ne h blank = absurd (ne refl)
next_part-word (c ∷ w) b rest ne h blank = next_part-append c w b rest h blank

hex_not_empty : (hash : Bytes) → length hash ≡ 32 → hex hash ≢ []
hex_not_empty hash size e = absurd (omega (arith, length-hex hash, size, ap length e))

parsed :
    (seq : ℕ) (digits rest : Bytes)
    → parse_u64 digits ≡ some seq
    → parse_seq (some (digits, rest)) ≡ parse_hash seq (next_part rest)
unfolding parse_seq parse_rest
parsed seq digits rest e = ap (λ o. parse_rest o rest) e

hashed :
    (seq : ℕ) (text rest : Bytes) {hash : Bytes}
    → (length text == 64) ≡ true
    → unhex_from registry_malformed 32 text ≡ returned hash
    → parse_hash seq (some (text, rest)) ≡ returned (some (seq, hash))
unfolding parse_hash
hashed seq text rest wide e = rw (wide, e) refl

pub load_text-head_line :
    (seq : ℕ) (hash : Bytes)
    → seq < 2 ^ 64
    → length hash ≡ 32
    → All IsByte hash
    → load_text (some (head_line seq hash)) ≡ returned (some (seq, hash))
unfolding load_text head_line
load_text-head_line seq hash b size h =
    let space : is_blank 32 ≡ true = unfold is_blank in refl in
    let line_end : is_blank 10 ≡ true = unfold is_blank in refl in
    let first =
      next_part-word (decimal seq) 32 (hex hash ++ 10 ∷ []) (decimal_not_empty seq)
        (digits-IsVisible (decimal seq) (decimal-IsDigit seq)) space in
    let second =
      next_part-blank (hex hash ++ 10 ∷ []) 32 space
      ∙ next_part-word (hex hash) 10 [] (hex_not_empty hash size)
          (above-IsVisible (hex hash) (hex_above_blank hash h)) line_end in
    let wide : (length (hex hash) == 64) ≡ true = ground (arith, length-hex hash, size) in
    let bytes : unhex_from registry_malformed 32 (hex hash) ≡ returned hash =
      subst (λ n. unhex_from registry_malformed n (hex hash) ≡ returned hash) size
        (unhex_from-hex registry_malformed hash h) in
    ap parse_seq first
    ∙ parsed seq (decimal seq) (32 ∷ (hex hash ++ 10 ∷ [])) (parse_u64-decimal seq b)
    ∙ ap (parse_hash seq) second
    ∙ hashed seq (hex hash) (10 ∷ []) wide bytes

-- What `store` records `load` returns, and `store` leaves the heads of the other hansas alone.
pub load-store :
    (hansa other : Bytes) (seq : ℕ) (hash : Bytes) (cache : HeadCache)
    → seq < 2 ^ 64
    → length hash ≡ 32
    → All IsByte hash
    → load other (store hansa seq hash cache)
      ≡ (if eq_bytes hansa other then returned (some (seq, hash)) else load other cache)
unfolding load store
load-store hansa other seq hash cache b size h = ground (
  arith,
  lookup-insert hansa other (head_line seq hash) cache,
  load_text-head_line seq hash b size h,
)
