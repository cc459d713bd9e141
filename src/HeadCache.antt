-- ===== src/HeadCache.antt =====
-- crates/hansa/src/head_cache.rs: `HeadCache`. The directory is a map from hansa ids to the texts of
-- their `.head` files; the writes are taken to succeed. Of the blanks that `split_whitespace` knows,
-- the ASCII ones are told apart.
pub mod Decimal
pub mod Text
pub mod Regress
use hansa.Prelude.{
  ℕ, zero, suc, ◌+◌, ◌-◌, ◌*◌, ◌/◌, ◌%◌, ◌^◌, ◌≤◌, ◌<◌, min, max, ◌≡◌, refl, sym, ap, ap₂, ◌∙◌,
  subst, ◌≢◌, ◌↔◌, ◌⊎◌, inl, inr, Bool, true, false, not, ◌&&◌, ◌||◌, Option, none, some, List, [],
  ◌∷◌, ◌++◌, map, append_assoc, append-nil, arith, ltb, leb, ◌==◌, if◌then◌else◌, ltb→lt, lt→ltb,
  leb→le, le→leb, ==_iff, Bool-cases, Option-cases, if_both, length, get_elem?, take, drop, modify,
  length-append, All, All-append, length-take, length-drop, length-map, length-modify,
  take-append-drop, take-append, drop-append, All-take,
}
use hansa.Prelude.Bytes.{Bytes, IsByte, eq_bytes, eq_bytes_iff, eq_bytes_refl, lt_bytes}
use hansa.Prelude.Assoc.{Assoc, lookup, insert}
use hansa.Error.{HansaError, registry_malformed, chain_regressed}
use hansa.Hex.{Outcome, returned, failed, panicked, hex, unhex_from}

abbrev pub HeadCache : Type 0
HeadCache = Assoc Bytes

-- `format!("{seq}")`, on fuel: one more than the number is enough.
unfoldable pub decimal_from : ℕ → ℕ → Bytes
decimal_from zero n = []
decimal_from (suc fuel) n =
    let front = decimal_from fuel (n / 10) in
    if ltb n 10 then (48 + n) ∷ [] else front ++ (48 + n % 10) ∷ []

unfoldable pub decimal : ℕ → Bytes
unfolding decimal_from
decimal n = decimal_from (suc n) n

-- One digit of `str::parse::<u64>`.
unfoldable pub parse_digit : Option ℕ → ℕ → Option ℕ
parse_digit none c = none
parse_digit (some acc) c =
    if leb 48 c && leb c 57 && ltb (10 * acc + (c - 48)) (2 ^ 64)
    then some (10 * acc + (c - 48))
    else none

unfoldable pub parse_digits : Option ℕ → Bytes → Option ℕ
unfolding parse_digit
parse_digits acc [] = acc
parse_digits acc (c ∷ s) = parse_digits (parse_digit acc c) s

-- `str::parse::<u64>`: digits, after a `+` or not.
unfoldable pub parse_u64 : Bytes → Option ℕ
unfolding parse_digits
parse_u64 [] = none
parse_u64 (c ∷ []) = parse_digits (some 0) (c ∷ [])
parse_u64 (c ∷ d ∷ s) =
    if c == 43 then parse_digits (some 0) (d ∷ s) else parse_digits (some 0) (c ∷ d ∷ s)

unfoldable pub is_blank : ℕ → Bool
is_blank c = c == 32 || (leb 9 c && leb c 13)

-- The next part of `split_whitespace`: the text after leading blanks, up to the next one.
unfoldable pub skip_blanks : Bytes → Bytes
unfolding is_blank
skip_blanks [] = []
skip_blanks (c ∷ s) = let rest = skip_blanks s in if is_blank c then rest else c ∷ s

unfoldable pub word : Bytes → Bytes × Bytes
unfolding is_blank
word [] = ([], [])
word (c ∷ s) = let (w, rest) = word s in if is_blank c then ([], c ∷ s) else (c ∷ w, rest)

abbrev pub nonempty : Bytes × Bytes → Option (Bytes × Bytes)
nonempty ([], rest) = none
nonempty (c ∷ w, rest) = some (c ∷ w, rest)

unfoldable pub next_part : Bytes → Option (Bytes × Bytes)
unfolding skip_blanks word
next_part s = nonempty (word (skip_blanks s))

abbrev pub with_hash : ℕ → Outcome Bytes → Outcome (Option (ℕ × Bytes))
with_hash seq (returned hash) = returned (some (seq, hash))
with_hash seq (failed e) = failed e
with_hash seq panicked = panicked

-- The closure `parse` of `load` and what is made of it, in its steps.
unfoldable pub parse_hash : ℕ → Option (Bytes × Bytes) → Outcome (Option (ℕ × Bytes))
unfolding unhex_from
parse_hash seq none = failed registry_malformed
parse_hash seq (some (hex, rest)) =
    if not (length hex == 64)
    then failed registry_malformed
    else with_hash seq (unhex_from registry_malformed 32 hex)

unfoldable pub parse_rest : Option ℕ → Bytes → Outcome (Option (ℕ × Bytes))
unfolding next_part parse_hash
parse_rest none rest = failed registry_malformed
parse_rest (some seq) rest = parse_hash seq (next_part rest)

unfoldable pub parse_seq : Option (Bytes × Bytes) → Outcome (Option (ℕ × Bytes))
unfolding parse_u64 parse_rest
parse_seq none = failed registry_malformed
parse_seq (some (digits, rest)) = parse_rest (parse_u64 digits) rest

unfoldable pub load_text : Option Bytes → Outcome (Option (ℕ × Bytes))
unfolding next_part parse_seq
load_text none = returned none
load_text (some text) = parse_seq (next_part text)

unfoldable pub load : Bytes → HeadCache → Outcome (Option (ℕ × Bytes))
unfolding load_text
load hansa cache = load_text (lookup hansa cache)

-- `format!("{seq} {hex}\n")`
unfoldable pub head_line : ℕ → Bytes → Bytes
unfolding decimal
head_line seq hash = decimal seq ++ (32 ∷ (hex hash ++ 10 ∷ []))

unfoldable pub store : Bytes → ℕ → Bytes → HeadCache → HeadCache
unfolding head_line
store hansa seq hash cache = insert hansa (head_line seq hash) cache

-- `seq < cseq || (seq == cseq && hash != chash)`
unfoldable pub has_regressed : ℕ → Bytes → ℕ → Bytes → Bool
has_regressed seq hash cseq chash = ltb seq cseq || (seq == cseq && not (eq_bytes hash chash))

unfoldable pub check_loaded :
    Outcome (Option (ℕ × Bytes)) → Bytes → ℕ → Bytes → HeadCache → Outcome (Unit {0}) × HeadCache
unfolding store has_regressed
check_loaded (failed e) hansa seq hash cache = (failed e, cache)
check_loaded panicked hansa seq hash cache = (panicked, cache)
check_loaded (returned none) hansa seq hash cache = (returned tt, store hansa seq hash cache)
check_loaded (returned (some (cseq, chash))) hansa seq hash cache =
    if has_regressed seq hash cseq chash
    then (failed chain_regressed, cache)
    else (returned tt, store hansa seq hash cache)

unfoldable pub check_and_record : Bytes → ℕ → Bytes → HeadCache → Outcome (Unit {0}) × HeadCache
unfolding load check_loaded
check_and_record hansa seq hash cache = check_loaded (load hansa cache) hansa seq hash cache
