-- ===== src/HeadCache/Decimal.antt =====
-- A `u64` reads back from its decimal digits.
use hansa.Prelude.{
  ℕ, zero, suc, ◌+◌, ◌/◌, ◌%◌, ◌^◌, ◌≤◌, ◌<◌, ◌≡◌, refl, ap, ◌∙◌, ◌≢◌, inl, inr, Option, some, [],
  ◌∷◌, ◌++◌, arith, ltb, Bool-cases, if_both, length, length-append, All, All-append,
}
use hansa.Prelude.Bytes.{Bytes}
use hansa.HeadCache.{decimal_from, decimal, parse_digit, parse_digits, parse_u64}

abbrev pub IsDigit : ℕ → Type 0
IsDigit c = (48 ≤ c) × (c ≤ 57)

parse_digits-append :
    (acc : Option ℕ) (s : Bytes) (c : ℕ)
    → parse_digits acc (s ++ c ∷ []) ≡ parse_digit (parse_digits acc s) c
unfolding parse_digits
parse_digits-append acc [] c = refl
parse_digits-append acc (d ∷ s) c = parse_digits-append (parse_digit acc d) s c

parse_digits-decimal :
    (fuel n : ℕ) → n < fuel → n < 2 ^ 64 → parse_digits (some 0) (decimal_from fuel n) ≡ some n
unfolding decimal_from
parse_digits-decimal zero n h b = absurd (omega arith)
parse_digits-decimal (suc fuel) n h b = elim (Bool-cases (ltb n 10)) [
  | inl small ↦ rw small (unfold parse_digits parse_digit in ground (arith, small))
  | inr big ↦
      let front = parse_digits-decimal fuel (n / 10) (ground (arith, big, h)) (omega arith) in
      rw (big, parse_digits-append (some 0) (decimal_from fuel (n / 10)) (48 + n % 10), front)
        (unfold parse_digit in ground arith)
]

decimal_from-IsDigit : (fuel n : ℕ) → All IsDigit (decimal_from fuel n)
unfolding decimal_from
decimal_from-IsDigit zero n = tt
decimal_from-IsDigit (suc fuel) n = elim (Bool-cases (ltb n 10)) [
  | inl small ↦ rw small (ground (arith, small), tt)
  | inr big ↦ rw big (
      All-append IsDigit (decimal_from fuel (n / 10)) _ (decimal_from-IsDigit fuel (n / 10))
        (omega arith, tt))
]

pub decimal-IsDigit : (n : ℕ) → All IsDigit (decimal n)
unfolding decimal
decimal-IsDigit n = decimal_from-IsDigit (suc n) n

parse_u64-digits : (s : Bytes) → All IsDigit s → s ≢ [] → parse_u64 s ≡ parse_digits (some 0) s
unfolding parse_u64
parse_u64-digits [] h ne = absurd (ne refl)
parse_u64-digits (c ∷ []) h ne = refl
parse_u64-digits (c ∷ d ∷ s) h ne = ground (arith, h.0)

length-decimal_from : (fuel n : ℕ) → 0 < length (decimal_from (suc fuel) n)
unfolding decimal_from
length-decimal_from fuel n =
    if_both (λ (s : Bytes). 0 < length s) (ltb n 10) (omega arith)
      (omega (arith, length-append (decimal_from fuel (n / 10)) ((48 + n % 10) ∷ [])))

pub decimal_not_empty : (n : ℕ) → decimal n ≢ []
unfolding decimal
decimal_not_empty n e = absurd (omega (arith, length-decimal_from n n, ap length e))

pub parse_u64-decimal : (n : ℕ) → n < 2 ^ 64 → parse_u64 (decimal n) ≡ some n
parse_u64-decimal n b =
    parse_u64-digits (decimal n) (decimal-IsDigit n) (decimal_not_empty n)
    ∙ unfold decimal in parse_digits-decimal (suc n) n (omega arith) b
