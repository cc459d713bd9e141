-- ===== src/Keystore.antt =====
-- crates/hansa/src/keystore.rs and the key of crates/hansa/src/key.rs. A `HansaKey` is its bytes. The
-- environment and the directory tree are maps, of variables by name and of file contents by path;
-- creating the directory and writing a file succeed. Paths are those of Unix.
pub mod Env
pub mod File
pub mod Memory
pub mod Kept
use hansa.Prelude.{
  ℕ, zero, suc, ◌+◌, ◌-◌, ◌*◌, ◌/◌, ◌%◌, ◌^◌, ◌≤◌, ◌<◌, min, max, ◌≡◌, refl, sym, ap, ap₂, ◌∙◌,
  subst, ◌≢◌, ◌↔◌, ◌⊎◌, inl, inr, Bool, true, false, not, ◌&&◌, ◌||◌, Option, none, some, List, [],
  ◌∷◌, ◌++◌, map, append_assoc, append-nil, arith, ltb, leb, ◌==◌, if◌then◌else◌, ltb→lt, lt→ltb,
  leb→le, le→leb, ==_iff, Bool-cases, Option-cases, if_both, length, get_elem?, take, drop, modify,
  length-append, All, All-append, length-take, length-drop, length-map, length-modify,
  take-append-drop, take-append, drop-append, All-take,
}
use hansa.Prelude.Bytes.{Bytes, IsByte, eq_bytes, eq_bytes_iff, eq_bytes_refl, lt_bytes}
use hansa.Error.{
  Result, ok, err, guard, map_err, ok_or, guard-eq-ok, >>=-eq-ok, ◌>>=◌, ◌>>◌, invalid_key_length,
  invariant,
}
use hansa.Text.{codes, from_utf8_lossy, as_bytes, trim}
use hansa.Hex.{hex}
use hansa.Sign.{Crypto}

-- b"hansa-id-v1"
abbrev pub hansa_id_domain : Bytes
hansa_id_domain = codes "hansa-id-v1"

-- `HansaKey::from_slice`
unfoldable pub from_slice : Bytes → Result Bytes
from_slice slice =
    if not (length slice == 32) then err (invalid_key_length (length slice)) else ok slice

-- `HansaKey::hansa_id`
unfoldable pub hansa_id : Crypto → Bytes → Bytes
hansa_id c key = c.blake3 (key ++ hansa_id_domain)

unfoldable pub hex_nibble : ℕ → Result ℕ
hex_nibble b =
    if leb b'0' b && leb b b'9'
    then ok (b - b'0')
    else if leb b'a' b && leb b b'f'
    then ok (10 + b - b'a')
    else if leb b'A' b && leb b b'F'
    then ok (10 + b - b'A')
    else err invariant

-- The loop of `decode_hex` over `chunks_exact(2)`, at what is read so far.
unfoldable pub decode_chunks : Bytes → Bytes → Result Bytes
unfolding hex_nibble
decode_chunks out [] = ok out
decode_chunks out (last ∷ []) = ok out
decode_chunks out (a ∷ b ∷ input) = do
  hi ← hex_nibble a
  lo ← hex_nibble b
  decode_chunks (out ++ ((16 * hi + lo) ∷ [])) input

unfoldable pub decode_hex : Bytes → Result Bytes
unfolding decode_chunks
decode_hex input = if not (length input % 2 == 0) then err invariant else decode_chunks [] input

-- `encode_hex`
unfoldable pub encode_hex : Bytes → Bytes
unfolding hex
encode_hex bytes = hex bytes

-- Whether bytes are UTF-8: reading them changes nothing.
unfoldable pub is_utf8 : Bytes → Bool
unfolding from_utf8_lossy as_bytes
is_utf8 bytes = eq_bytes (as_bytes (from_utf8_lossy bytes)) bytes

-- `str::trim`, on the bytes of the text.
unfoldable pub trim_text : Bytes → Bytes
unfolding from_utf8_lossy as_bytes trim
trim_text text = as_bytes (trim (from_utf8_lossy text))

-- The end of both `load`s that read a text.
unfoldable pub read_key : Bytes → Result Bytes
unfolding decode_hex trim_text from_slice
read_key text = do bytes ← decode_hex (trim_text text); from_slice bytes

-- `u8::to_ascii_uppercase`
unfoldable pub ascii_uppercase : ℕ → ℕ
ascii_uppercase c = if leb b'a' c && leb c b'z' then c - 32 else c
