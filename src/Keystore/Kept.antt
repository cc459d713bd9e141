-- ===== src/Keystore/Kept.antt =====
-- A key that a store took is read back, and a key that was removed is not found.
use hansa.Prelude.{
  ℕ, ◌+◌, ◌*◌, ◌/◌, ◌%◌, ◌<◌, ◌≡◌, refl, sym, ap, ◌∙◌, true, none, some, [], ◌∷◌, ◌++◌,
  append_assoc, append-nil, arith, ◌==◌, ==_iff, length, All,
}
use hansa.Prelude.Bytes.{Bytes, IsByte, eq_bytes_refl}
use hansa.Prelude.Assoc
use hansa.Prelude.Assoc.{Assoc, lookup, insert, lookup-insert, lookup-remove}
use hansa.Error.{ok, err, key_not_found}
use hansa.Text.Plain.{IsPlain, as_bytes-IsPlain, from_utf8_lossy-IsPlain, trim-IsPlain}
use hansa.Hex.{hex, hex_digit}
use hansa.Hex.Codec.{hex-IsAscii, hex_above_blank, length-hex, IsAscii}
use hansa.Keystore.{
  from_slice, hex_nibble, decode_chunks, decode_hex, encode_hex, is_utf8, trim_text, read_key,
}
use hansa.Keystore.Env
use hansa.Keystore.File
use hansa.Keystore.Memory

both-IsPlain : (s : Bytes) → All (λ c. 32 < c) s → IsAscii s → IsPlain s
both-IsPlain [] h k = tt
both-IsPlain (c ∷ s) h k = ((h.0, k.0), both-IsPlain s h.1 k.1)

hex_nibble-hex_digit : (d : ℕ) → d < 16 → hex_nibble (hex_digit d) ≡ ok d
unfolding hex_nibble hex_digit
hex_nibble-hex_digit d h = ground arith

decode_chunks-hex :
    (out bytes : Bytes) → All IsByte bytes → decode_chunks out (hex bytes) ≡ ok (out ++ bytes)
unfolding decode_chunks hex
decode_chunks-hex out [] h = ap ok (sym (append-nil out))
decode_chunks-hex out (b ∷ bytes) h =
    let high = hex_nibble-hex_digit (b / 16) (omega (arith, h.0)) in
    let low = hex_nibble-hex_digit (b % 16) (omega arith) in
    let whole : 16 * (b / 16) + b % 16 ≡ b = omega arith in
    rw
      (
        high,
        low,
        whole,
        decode_chunks-hex (out ++ (b ∷ [])) bytes h.1,
        append_assoc out (b ∷ []) bytes,
      )
      refl

-- The text of a key is UTF-8 and reads as the key.
encode_hex-is_utf8 : (key : Bytes) → All IsByte key → is_utf8 (encode_hex key) ≡ true
unfolding is_utf8 encode_hex
encode_hex-is_utf8 key h =
    let plain = both-IsPlain (hex key) (hex_above_blank key h) (hex-IsAscii key h) in
    rw (from_utf8_lossy-IsPlain (hex key) plain, as_bytes-IsPlain (hex key) plain)
      (eq_bytes_refl (hex key))

read_key-encode_hex :
    (key : Bytes) → length key ≡ 32 → All IsByte key → read_key (encode_hex key) ≡ ok key
unfolding read_key encode_hex trim_text decode_hex from_slice
read_key-encode_hex key size h =
    let plain = both-IsPlain (hex key) (hex_above_blank key h) (hex-IsAscii key h) in
    let same : trim_text (hex key) ≡ hex key =
      rw (from_utf8_lossy-IsPlain (hex key) plain, trim-IsPlain (hex key) plain)
        (as_bytes-IsPlain (hex key) plain) in
    let even : (length (hex key) % 2 == 0) ≡ true =
      (==_iff (length (hex key) % 2) 0).1 (omega (arith, length-hex key)) in
    let full : (length key == 32) ≡ true = (==_iff (length key) 32).1 size in
    rw (same, even, decode_chunks-hex [] key h, full) refl

found_again : (k : Bytes) (v : Bytes) (m : Assoc Bytes) → lookup k (insert k v m) ≡ some v
found_again k v m = lookup-insert k k v m ∙ rw (eq_bytes_refl k) refl

lost : (k : Bytes) (m : Assoc Bytes) → lookup k (Assoc.remove k m) ≡ none
lost k m = lookup-remove k k m ∙ rw (eq_bytes_refl k) refl

-- Every keystore gives back a key of 32 bytes: the file and memory stores what `store` took, with success, and
-- the environment store a key whose hex text is the value of the slot's variable. After `remove`, which
-- succeeds whether or not the slot was filled, the file and memory stores report that the key is not found.
pub keystores_keep_keys :
    (root slot key : Bytes) (m : Assoc Bytes)
    → length key ≡ 32
    → All IsByte key
    → ((File.store root slot key m).0 ≡ ok tt)
      × (File.load root slot (File.store root slot key m).1 ≡ ok key)
      × ((File.remove root slot m).0 ≡ ok tt)
      × (File.load root slot (File.remove root slot m).1 ≡ err key_not_found)
      × ((Memory.store slot key m).0 ≡ ok tt)
      × (Memory.load slot (Memory.store slot key m).1 ≡ ok key)
      × ((Memory.remove slot m).0 ≡ ok tt)
      × (Memory.load slot (Memory.remove slot m).1 ≡ err key_not_found)
      × (Env.load slot (insert (Env.env_name slot) (encode_hex key) m) ≡ ok key)
unfolding File.load File.store File.remove Memory.load Memory.store Memory.remove Env.load
keystores_keep_keys root slot key m size h =
    let path = File.path_for root slot in
    let var = Env.env_name slot in
    let read = read_key-encode_hex key size h in
    let text = encode_hex-is_utf8 key h in
    (
      refl,
      rw (found_again path (encode_hex key) m, text) read,
      refl,
      rw (lost path m) refl,
      refl,
      rw (found_again slot key m) refl,
      refl,
      rw (lost slot m) refl,
      rw (found_again var (encode_hex key) m, text) read,
    )
