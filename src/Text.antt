-- ===== src/Text.antt =====
-- What the sources use of Rust's `str` and `char`, a `String` as the list of its chars: UTF-8 read and
-- written, white space, trimming and joining. The Unicode table of `char::to_lowercase` and the
-- `blake3` crate are parameters.
pub mod Plain
use hansa.Prelude.{
  ℕ, zero, suc, ◌+◌, ◌-◌, ◌*◌, ◌/◌, ◌%◌, Bool, true, false, ◌&&◌, ◌||◌, List, [], ◌∷◌, ◌++◌, ltb,
  leb, ◌==◌, if◌then◌else◌,
}
use hansa.Prelude.Bytes.{Bytes}
use Prim.Native.Char.{code}
use Prim.Native.String.{String}

abbrev pub Chars : Type 0
Chars = List ℕ

abbrev pub codes : String → Chars
codes String.[] = []
codes (String.◌∷◌ c s) = code c ∷ codes s

pub record Externals : Type 0 where
  pub to_lowercase : ℕ → Chars
  pub blake3 : Bytes → Bytes

abbrev within : ℕ → ℕ → ℕ → Bool
within low high b = leb low b && leb b high

-- Where `String::from_utf8_lossy` stands: before a character, or inside one, with the range of the
-- next byte, how many bytes follow it, and the bits read.
pub data Decoding : Type 0 where
  ready : Decoding
  expecting : ℕ → ℕ → ℕ → ℕ → Decoding

abbrev replacement : ℕ
replacement = 65_533

unfoldable first_byte : ℕ → Chars × Decoding
first_byte b =
    if ltb b 128
    then (b ∷ [], ready)
    else if within 194 223 b
    then ([], expecting 128 191 0 (b - 192))
    else if b == 224
    then ([], expecting 160 191 1 0)
    else if b == 237
    then ([], expecting 128 159 1 13)
    else if within 225 239 b
    then ([], expecting 128 191 1 (b - 224))
    else if b == 240
    then ([], expecting 144 191 2 0)
    else if within 241 243 b
    then ([], expecting 128 191 2 (b - 240))
    else if b == 244
    then ([], expecting 128 143 2 4)
    else (replacement ∷ [], ready)

abbrev last_or_more : ℕ → ℕ → Chars × Decoding
last_or_more zero c = (c ∷ [], ready)
last_or_more (suc more) c = ([], expecting 128 191 more c)

-- A byte out of range ends the broken character, and is read as a first byte.
unfoldable next_byte : Decoding → ℕ → Chars × Decoding
unfolding first_byte
next_byte ready b = first_byte b
next_byte (expecting low high more c) b =
    if within low high b
    then last_or_more more (64 * c + (b - 128))
    else let (out, state) = first_byte b in (replacement ∷ out, state)

unfoldable decode : Decoding → Bytes → Chars
unfolding next_byte
decode ready [] = []
decode (expecting low high more c) [] = replacement ∷ []
decode state (b ∷ bytes) = let (out, state') = next_byte state b in out ++ decode state' bytes

-- `String::from_utf8_lossy`
unfoldable pub from_utf8_lossy : Bytes → Chars
unfolding decode
from_utf8_lossy bytes = decode ready bytes

unfoldable encode_char : ℕ → Bytes
encode_char c =
    if ltb c 128
    then c ∷ []
    else if ltb c 2048
    then (192 + c / 64) ∷ (128 + c % 64) ∷ []
    else if ltb c 65_536
    then (224 + c / 4096) ∷ (128 + c / 64 % 64) ∷ (128 + c % 64) ∷ []
    else (240 + c / 262_144) ∷ (128 + c / 4096 % 64) ∷ (128 + c / 64 % 64) ∷ (128 + c % 64) ∷ []

-- `str::as_bytes`
unfoldable pub as_bytes : Chars → Bytes
unfolding encode_char
as_bytes [] = []
as_bytes (c ∷ s) = encode_char c ++ as_bytes s

-- `char::is_whitespace`
unfoldable pub is_whitespace : ℕ → Bool
is_whitespace c =
    within 9 13 c
    || (c == 32
        || (c == 133
            || (c == 160
                || (c == 5760
                    || (within 8192 8202 c
                        || (c == 8232
                            || (c == 8233 || (c == 8239 || (c == 8287 || c == 12_288)))))))))

abbrev pub is_empty {ℓ} : {A : Type ℓ} → List A → Bool
is_empty [] = true
is_empty (x ∷ xs) = false

unfoldable pub trim_start : Chars → Chars
unfolding is_whitespace
trim_start [] = []
trim_start (c ∷ s) = let rest = trim_start s in if is_whitespace c then rest else c ∷ s

unfoldable pub trim_end : Chars → Chars
unfolding is_whitespace
trim_end [] = []
trim_end (c ∷ s) =
    let rest = trim_end s in if is_empty rest && is_whitespace c then [] else c ∷ rest

unfoldable pub trim : Chars → Chars
unfolding trim_start trim_end
trim s = trim_end (trim_start s)

-- `[&str]::join`
unfoldable pub join : Chars → List Chars → Chars
join sep [] = []
join sep (s ∷ []) = s
join sep (s ∷ t ∷ parts) = s ++ sep ++ join sep (t ∷ parts)

-- `str::ends_with` of a set of chars.
unfoldable pub ends_with : (ℕ → Bool) → Chars → Bool
ends_with test [] = false
ends_with test (c ∷ []) = test c
ends_with test (c ∷ d ∷ s) = ends_with test (d ∷ s)
