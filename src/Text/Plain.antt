-- ===== src/Text/Plain.antt =====
-- Printable ASCII: UTF-8 keeps it byte for byte, and trimming leaves it alone.
use hansa.Prelude.{ℕ, ◌<◌, ◌≡◌, refl, ap, ◌∙◌, Bool, true, false, ◌&&◌, [], ◌∷◌, arith, lt→ltb, All}
use hansa.Text.{
  Chars, ready, decode, next_byte, first_byte, encode_char, from_utf8_lossy, as_bytes,
  is_whitespace, trim_start, trim_end, trim, is_empty,
}

abbrev pub IsPlain : Chars → Type 0
IsPlain = All (λ c. (32 < c) × (c < 128))

pub as_bytes-IsPlain : (s : Chars) → IsPlain s → as_bytes s ≡ s
unfolding as_bytes encode_char
as_bytes-IsPlain [] h = refl
as_bytes-IsPlain (c ∷ s) h = rw (lt→ltb c 128 h.0.1, as_bytes-IsPlain s h.1) refl

decode-IsPlain : (s : Chars) → IsPlain s → decode ready s ≡ s
unfolding decode next_byte first_byte
decode-IsPlain [] h = refl
decode-IsPlain (c ∷ s) h = rw (lt→ltb c 128 h.0.1) (ap (◌∷◌ c) (decode-IsPlain s h.1))

pub from_utf8_lossy-IsPlain : (s : Chars) → IsPlain s → from_utf8_lossy s ≡ s
unfolding from_utf8_lossy
from_utf8_lossy-IsPlain s h = decode-IsPlain s h

plain_is_no_space : (c : ℕ) → 32 < c → c < 128 → is_whitespace c ≡ false
unfolding is_whitespace
plain_is_no_space c low high = ground arith

trim_start-IsPlain : (s : Chars) → IsPlain s → trim_start s ≡ s
unfolding trim_start
trim_start-IsPlain [] h = refl
trim_start-IsPlain (c ∷ s) h = rw (plain_is_no_space c h.0.0 h.0.1) refl

and_false : (a : Bool) → a && false ≡ false
and_false true = refl
and_false false = refl

trim_end-IsPlain : (s : Chars) → IsPlain s → trim_end s ≡ s
unfolding trim_end
trim_end-IsPlain [] h = refl
trim_end-IsPlain (c ∷ s) h =
    rw (trim_end-IsPlain s h.1, plain_is_no_space c h.0.0 h.0.1, and_false (is_empty s)) refl

pub trim-IsPlain : (s : Chars) → IsPlain s → trim s ≡ s
unfolding trim
trim-IsPlain s h = ap trim_end (trim_start-IsPlain s h) ∙ trim_end-IsPlain s h
