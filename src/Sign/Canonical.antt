-- ===== src/Sign/Canonical.antt =====
-- `sign::canonical::Writer`: the deterministic, length-prefixed encoding of what is signed.
-- A writer is the bytes that it holds, and `finish` hands them out.
use hansa.Prelude.{ℕ, zero, suc, ◌/◌, ◌%◌, ◌^◌, [], ◌∷◌, ◌++◌, length}
use hansa.Prelude.Bytes.{Bytes}

abbrev pub Writer : Type 0
Writer = Bytes

-- `x.to_le_bytes()` of an integer of `n` bytes.
unfoldable pub to_le_bytes : ℕ → ℕ → Bytes
to_le_bytes zero x = []
to_le_bytes (suc n) x = x % 256 ∷ to_le_bytes n (x / 256)

unfoldable pub new : Writer
new = []

unfoldable pub u8 : Writer → ℕ → Writer
u8 w x = w ++ x ∷ []

unfoldable pub u32 : Writer → ℕ → Writer
u32 w x = w ++ to_le_bytes 4 x

unfoldable pub u64 : Writer → ℕ → Writer
u64 w x = w ++ to_le_bytes 8 x

-- An `i64` is its 64-bit pattern.
unfoldable pub i64 : Writer → ℕ → Writer
i64 w x = w ++ to_le_bytes 8 x

unfoldable pub fixed : Writer → Bytes → Writer
fixed w b = w ++ b

-- `b.len() as u32` keeps the low 32 bits.
unfoldable pub bytes : Writer → Bytes → Writer
bytes w b = w ++ to_le_bytes 4 (length b % 2 ^ 32) ++ b

unfoldable pub str : Writer → Bytes → Writer
unfolding bytes
str w s = bytes w s
