-- ===== src/Hex.antt =====
-- Hex text: `hex` and `unhex` of crates/hansa/src/sign.rs, `hash_hex` of chain.rs, `tenant_id_hex` of
-- member.rs, the serde of `HansaId` in key.rs and `parse_tenant_hex` of hybrid_registry.rs.
-- A `&str` is its UTF-8 bytes, and slicing it inside a character panics, as in Rust.
pub mod Codec
use hansa.Prelude.{
  ℕ, zero, suc, ◌+◌, ◌-◌, ◌*◌, ◌/◌, ◌%◌, ◌^◌, ◌≤◌, ◌<◌, min, max, ◌≡◌, refl, sym, ap, ap₂, ◌∙◌,
  subst, ◌≢◌, ◌↔◌, ◌⊎◌, inl, inr, Bool, true, false, not, ◌&&◌, ◌||◌, Option, none, some, List, [],
  ◌∷◌, ◌++◌, map, append_assoc, append-nil, arith, ltb, leb, ◌==◌, if◌then◌else◌, ltb→lt, lt→ltb,
  leb→le, le→leb, ==_iff, Bool-cases, Option-cases, if_both, length, get_elem?, take, drop, modify,
  length-append, All, All-append, length-take, length-drop, length-map, length-modify,
  take-append-drop, take-append, drop-append, All-take,
}
use hansa.Prelude.Bytes.{Bytes, IsByte, eq_bytes, eq_bytes_iff, eq_bytes_refl, lt_bytes}
use hansa.Error.{HansaError, json}

pub data Outcome {ℓ} (A : Type ℓ) : Type ℓ where
  returned : A → Outcome A
  failed : HansaError → Outcome A
  panicked : Outcome A

-- A digit of `{:x}`.
unfoldable pub hex_digit : ℕ → ℕ
hex_digit d = if ltb d 10 then 48 + d else 87 + d

-- `format!("{b:02x}")` for each byte.
unfoldable pub hex : Bytes → Bytes
unfolding hex_digit
hex [] = []
hex (b ∷ bytes) = hex_digit (b / 16) ∷ hex_digit (b % 16) ∷ hex bytes

-- `char::to_digit(16)`
unfoldable pub digit : ℕ → Option ℕ
digit c =
    if leb 48 c && leb c 57
    then some (c - 48)
    else if leb 97 c && leb c 102
    then some (c - 87)
    else if leb 65 c && leb c 70
    then some (c - 55)
    else none

-- `u8::from_str_radix(s, 16)` on two bytes: digits, or a `+` before a digit.
unfoldable pub from_str_radix : ℕ → ℕ → Option ℕ
unfolding digit
from_str_radix a b = if a == 43 then digit b else elim (digit a) [
  | none ↦ none
  | some x ↦ elim (digit b) [ none ↦ none | some y ↦ some (16 * x + y) ]
]

-- Whether a character starts here, or the text ends: not inside a character.
unfoldable pub is_char_boundary : Bytes → Bool
is_char_boundary [] = true
is_char_boundary (c ∷ s) = not (leb 128 c && leb c 191)

abbrev pub push_byte : Option ℕ → HansaError → Outcome Bytes → Outcome Bytes
push_byte none e rest = failed e
push_byte (some x) e (returned out) = returned (x ∷ out)
push_byte (some x) e (failed e') = failed e'
push_byte (some x) e panicked = panicked

-- The loop over the `n` bytes of the result, at the text that is left.
unfoldable pub unhex_from : HansaError → ℕ → Bytes → Outcome Bytes
unfolding from_str_radix is_char_boundary
unhex_from e zero s = returned []
unhex_from e (suc n) [] = panicked
unhex_from e (suc n) (a ∷ []) = panicked
unhex_from e (suc n) (a ∷ b ∷ s) =
    let rest = unhex_from e n s in
    if is_char_boundary (a ∷ b ∷ s) && is_char_boundary s
    then push_byte (from_str_radix a b) e rest
    else panicked

-- `unhex::<N>`, whose error texts serde carries.
unfoldable pub unhex : ℕ → Bytes → Outcome Bytes
unfolding unhex_from
unhex n s = if not (length s == n * 2) then failed json else unhex_from json n s

-- `hash_hex`
unfoldable pub serialize_hash : Bytes → Bytes
unfolding hex
serialize_hash h = hex h

unfoldable pub deserialize_hash : Bytes → Outcome Bytes
unfolding unhex_from
deserialize_hash s = if not (length s == 64) then failed json else unhex_from json 32 s

-- `tenant_id_hex`
unfoldable pub serialize_tenant_id : Bytes → Bytes
unfolding hex
serialize_tenant_id id = hex id

unfoldable pub deserialize_tenant_id : Bytes → Outcome Bytes
unfolding unhex_from
deserialize_tenant_id s = if not (length s == 32) then failed json else unhex_from json 16 s

-- `HansaId`
unfoldable pub as_hex : Bytes → Bytes
unfolding hex
as_hex id = hex id

unfoldable pub deserialize_hansa_id : Bytes → Outcome Bytes
unfolding unhex_from
deserialize_hansa_id s = if not (length s == 64) then failed json else unhex_from json 32 s

-- `parse_tenant_hex`, whose `None` is the failure.
unfoldable pub parse_tenant_hex : Bytes → Outcome Bytes
unfolding unhex_from
parse_tenant_hex s = if not (length s == 32) then failed json else unhex_from json 16 s
