-- ===== src/Hex/Codec.antt =====
-- Hex text of bytes reads back as those bytes, and only text outside ASCII makes a reader panic.
use hansa.Prelude.{
  ℕ, zero, suc, ◌*◌, ◌/◌, ◌%◌, ◌≤◌, ◌<◌, ◌≡◌, refl, ap, subst, ◌≢◌, inl, inr, true, false, not,
  Option, none, some, [], ◌∷◌, arith, ◌==◌, if◌then◌else◌, Bool-cases, length, All,
}
use hansa.Prelude.Bytes.{Bytes, IsByte}
use hansa.Error.{HansaError, json}
use hansa.Hex.{
  Outcome, returned, failed, panicked, hex_digit, hex, digit, from_str_radix, is_char_boundary,
  push_byte, unhex_from, unhex, serialize_hash, deserialize_hash, serialize_tenant_id,
  deserialize_tenant_id, as_hex, deserialize_hansa_id, parse_tenant_hex,
}

abbrev pub IsAscii : Bytes → Type 0
IsAscii = All (λ c. c < 128)

digit-hex_digit : (d : ℕ) → d < 16 → digit (hex_digit d) ≡ some d
unfolding digit hex_digit
digit-hex_digit d h = ground arith

hex_digit_range : (d : ℕ) → d < 16 → (47 < hex_digit d) × (hex_digit d < 128)
unfolding hex_digit
hex_digit_range d h = ground arith

from_str_radix-hex :
    (b : ℕ) → b < 256 → from_str_radix (hex_digit (b / 16)) (hex_digit (b % 16)) ≡ some b
unfolding from_str_radix
from_str_radix-hex b h =
    let high = digit-hex_digit (b / 16) (omega arith) in
    let low = digit-hex_digit (b % 16) (omega arith) in
    let plain : (hex_digit (b / 16) == 43) ≡ false =
      ground (arith, hex_digit_range (b / 16) (omega arith)) in
    rw (plain, high, low) (ap some (omega arith))

pub hex-IsAscii : (bytes : Bytes) → All IsByte bytes → IsAscii (hex bytes)
unfolding hex
hex-IsAscii [] h = tt
hex-IsAscii (b ∷ bytes) h = (
  (hex_digit_range (b / 16) (omega (arith, h.0))).1,
  ((hex_digit_range (b % 16) (omega arith)).1, hex-IsAscii bytes h.1),
)

pub hex_above_blank : (bytes : Bytes) → All IsByte bytes → All (λ c. 32 < c) (hex bytes)
unfolding hex
hex_above_blank [] h = tt
hex_above_blank (b ∷ bytes) h = (
  omega (arith, (hex_digit_range (b / 16) (omega (arith, h.0))).0),
  (omega (arith, (hex_digit_range (b % 16) (omega arith)).0), hex_above_blank bytes h.1),
)

ascii_boundary : (s : Bytes) → IsAscii s → is_char_boundary s ≡ true
unfolding is_char_boundary
ascii_boundary [] h = refl
ascii_boundary (c ∷ s) h = ground (arith, h.0)

pub length-hex : (bytes : Bytes) → length (hex bytes) ≡ length bytes * 2
unfolding hex
length-hex [] = refl
length-hex (b ∷ bytes) = omega (arith, length-hex bytes)

pub unhex_from-hex :
    (e : HansaError) (bytes : Bytes)
    → All IsByte bytes
    → unhex_from e (length bytes) (hex bytes) ≡ returned bytes
unfolding unhex_from hex
unhex_from-hex e [] h = refl
unhex_from-hex e (b ∷ bytes) h =
    let ascii : IsAscii (hex (b ∷ bytes)) = hex-IsAscii (b ∷ bytes) h in
    rw
      (
        ascii_boundary (hex (b ∷ bytes)) ascii,
        ascii_boundary (hex bytes) ascii.1.1,
        from_str_radix-hex b h.0,
        unhex_from-hex e bytes h.1,
      )
      refl

sized :
    (n k : ℕ) (bytes : Bytes)
    → All IsByte bytes
    → length bytes ≡ n
    → n * 2 ≡ k
    → (if not (length (hex bytes) == k) then failed json else unhex_from json n (hex bytes))
      ≡ returned bytes
sized n k bytes h size twice =
    let same : (length (hex bytes) == k) ≡ true = ground (arith, length-hex bytes, size, twice) in
    rw same (
      subst (λ m. unhex_from json m (hex bytes) ≡ returned bytes) size
        (unhex_from-hex json bytes h))

-- Every codec of the crate reads back what it wrote: keys and signatures of any size, hashes and
-- hansa ids of 32 bytes, and tenant ids of 16.
pub codecs_read_back :
    (n : ℕ) (key hash tenant : Bytes)
    → All IsByte key
    → All IsByte hash
    → All IsByte tenant
    → length key ≡ n
    → length hash ≡ 32
    → length tenant ≡ 16
    → (unhex n (hex key) ≡ returned key)
      × (deserialize_hash (serialize_hash hash) ≡ returned hash)
      × (deserialize_hansa_id (as_hex hash) ≡ returned hash)
      × (deserialize_tenant_id (serialize_tenant_id tenant) ≡ returned tenant)
      × (parse_tenant_hex (serialize_tenant_id tenant) ≡ returned tenant)
unfolding unhex deserialize_hash serialize_hash deserialize_hansa_id as_hex deserialize_tenant_id
    serialize_tenant_id parse_tenant_hex
codecs_read_back n key hash tenant hk hh ht nk nh nt = (
  sized n (n * 2) key hk nk refl,
  sized 32 64 hash hh nh refl,
  sized 32 64 hash hh nh refl,
  sized 16 32 tenant ht nt refl,
  sized 16 32 tenant ht nt refl,
)

push_byte-calm :
    (x : Option ℕ) (e : HansaError) (r : Outcome Bytes) → r ≢ panicked → push_byte x e r ≢ panicked
push_byte-calm none e r h k = absurd (cc k)
push_byte-calm (some x) e (returned out) h k = absurd (cc k)
push_byte-calm (some x) e (failed e') h k = absurd (cc k)
push_byte-calm (some x) e panicked h k = h refl

pub unhex_from-calm :
    (e : HansaError) (n : ℕ) (s : Bytes)
    → IsAscii s
    → n * 2 ≤ length s
    → unhex_from e n s ≢ panicked
unfolding unhex_from
unhex_from-calm e zero s a h k = absurd (cc k)
unhex_from-calm e (suc n) [] a h k = absurd (omega arith)
unhex_from-calm e (suc n) (x ∷ []) a h k = absurd (omega arith)
unhex_from-calm e (suc n) (x ∷ y ∷ s) a h k =
    push_byte-calm (from_str_radix x y) e (unhex_from e n s)
      (unhex_from-calm e n s a.1.1 (omega arith))
      (rw (ascii_boundary (x ∷ y ∷ s) a, ascii_boundary s a.1.1) at k)

calm_if :
    (n k : ℕ) (s : Bytes)
    → IsAscii s
    → n * 2 ≡ k
    → (if not (length s == k) then failed json else unhex_from json n s) ≢ panicked
calm_if n k s a twice bad = elim (Bool-cases (length s == k)) [
  | inl same ↦ unhex_from-calm json n s a (ground (arith, same, twice)) (rw same at bad)
  | inr other ↦ absurd (cc (rw other at bad))
]

-- On ASCII text no reader panics, whatever the text says and however long it is.
pub readers_are_calm :
    (n : ℕ) (s : Bytes)
    → IsAscii s
    → (unhex n s ≢ panicked)
      × (deserialize_hash s ≢ panicked)
      × (deserialize_hansa_id s ≢ panicked)
      × (deserialize_tenant_id s ≢ panicked)
      × (parse_tenant_hex s ≢ panicked)
unfolding unhex deserialize_hash deserialize_hansa_id deserialize_tenant_id parse_tenant_hex
readers_are_calm n s a = (
  calm_if n (n * 2) s a refl,
  calm_if 32 64 s a refl,
  calm_if 32 64 s a refl,
  calm_if 16 32 s a refl,
  calm_if 16 32 s a refl,
)

-- A text of 32 bytes with a character that starts at its second byte makes the readers of tenant ids
-- panic, whatever stands after that.
pub parse_tenant_hex_panics :
    (a b c : ℕ) (rest : Bytes)
    → length rest ≡ 29
    → 128 ≤ c
    → c ≤ 191
    → (parse_tenant_hex (a ∷ b ∷ c ∷ rest) ≡ panicked)
      × (deserialize_tenant_id (a ∷ b ∷ c ∷ rest) ≡ panicked)
unfolding parse_tenant_hex deserialize_tenant_id unhex_from is_char_boundary
parse_tenant_hex_panics a b c rest size low high =
    let inside : is_char_boundary (c ∷ rest) ≡ false = ground (arith, low, high) in
    let whole : (length (a ∷ b ∷ c ∷ rest) == 32) ≡ true = ground (arith, size) in
    (ground (arith, inside, whole), ground (arith, inside, whole))
