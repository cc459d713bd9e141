-- ===== src/Sign/Prefix.antt =====
-- The pieces that `sign::canonical::Writer` appends can be told apart: each of them, with whatever
-- comes after it, determines its value and the rest.
use hansa.Prelude.{
  ℕ, zero, suc, ◌*◌, ◌/◌, ◌%◌, ◌^◌, ◌<◌, ◌≡◌, refl, sym, ap, ◌∙◌, List, [], ◌∷◌, ◌++◌, append_assoc,
  arith, length,
}
use hansa.Prelude.Bytes.{Bytes}
use hansa.Sign.Canonical.{to_le_bytes}

module _ {ℓ} {A : Type ℓ} where
  pub append-inj : (a b r s : List A) → length a ≡ length b → a ++ r ≡ b ++ s → (a ≡ b) × (r ≡ s)
  append-inj [] [] r s e h = (refl, h)
  append-inj [] (y ∷ ys) r s e h = absurd (omega arith)
  append-inj (x ∷ xs) [] r s e h = absurd (omega arith)
  append-inj (x ∷ xs) (y ∷ ys) r s e h =
      let (same, rest) = append-inj xs ys r s (omega arith) (ground (arith, h)) in
      (ground (arith, h, same), rest)

-- 256 ^ n, in the form that the recursion takes apart.
abbrev pub limit : ℕ → ℕ
limit zero = 1
limit (suc n) = 256 * limit n

pub length-to_le_bytes : (n x : ℕ) → length (to_le_bytes n x) ≡ n
unfolding to_le_bytes
length-to_le_bytes zero x = refl
length-to_le_bytes (suc n) x = ap suc (length-to_le_bytes n (x / 256))

to_le_bytes-injective :
    (n x y : ℕ) → x < limit n → y < limit n → to_le_bytes n x ≡ to_le_bytes n y → x ≡ y
unfolding to_le_bytes
to_le_bytes-injective zero x y hx hy e = omega arith
to_le_bytes-injective (suc n) x y hx hy e =
    let low : x % 256 ≡ y % 256 = ground (arith, e) in
    let tails : to_le_bytes n (x / 256) ≡ to_le_bytes n (y / 256) = ground (arith, e) in
    let high = to_le_bytes-injective n (x / 256) (y / 256) (omega arith) (omega arith) tails in
    omega (arith, low, high)

pub to_le_bytes-inj :
    (n x y : ℕ) (r s : Bytes)
    → x < limit n
    → y < limit n
    → to_le_bytes n x ++ r ≡ to_le_bytes n y ++ s
    → (x ≡ y) × (r ≡ s)
to_le_bytes-inj n x y r s hx hy h =
    let same = length-to_le_bytes n x ∙ sym (length-to_le_bytes n y) in
    let (e, rest) = append-inj (to_le_bytes n x) (to_le_bytes n y) r s same h in
    (to_le_bytes-injective n x y hx hy e, rest)

-- A length-prefixed string, as `Writer::bytes` appends it.
abbrev pub prefixed : Bytes → Bytes
prefixed b = to_le_bytes 4 (length b % 2 ^ 32) ++ b

pub prefixed-inj :
    (a b r s : Bytes)
    → length a < 2 ^ 32
    → length b < 2 ^ 32
    → prefixed a ++ r ≡ prefixed b ++ s
    → (a ≡ b) × (r ≡ s)
prefixed-inj a b r s ha hb h =
    let regrouped : to_le_bytes 4 (length a % 2 ^ 32) ++ (a ++ r)
        ≡ to_le_bytes 4 (length b % 2 ^ 32) ++ (b ++ s) =
      sym (append_assoc (to_le_bytes 4 (length a % 2 ^ 32)) a r)
      ∙ h
      ∙ append_assoc (to_le_bytes 4 (length b % 2 ^ 32)) b s in
    let (n, rest) =
      to_le_bytes-inj 4 (length a % 2 ^ 32) (length b % 2 ^ 32) (a ++ r) (b ++ s) (omega arith)
        (omega arith) regrouped in
    append-inj a b r s (omega (arith, n)) rest
