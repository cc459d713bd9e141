-- ===== src/HeadCache/Regress.antt =====
-- `check_and_record` over any sequence of checks: a head that was recorded is never undone.
use hansa.Prelude.{
  ℕ, ◌^◌, ◌≤◌, ◌<◌, ◌≡◌, refl, sym, ap, ◌∙◌, ◌≢◌, ◌⊎◌, inl, inr, true, false, Option, none, some,
  List, [], ◌∷◌, arith, ltb, ◌==◌, if◌then◌else◌, ltb→lt, lt→ltb, ==_iff, Bool-cases, length, All,
}
use hansa.Prelude.Bytes.{Bytes, IsByte, eq_bytes, eq_bytes_iff, eq_bytes_sound}
use hansa.Hex.{Outcome, returned, failed, panicked}
use hansa.HeadCache.{HeadCache, load, store, check_and_record, check_loaded, has_regressed}
use hansa.HeadCache.Text.{load-store}
use hansa.Error.{chain_regressed}

has_regressed-true :
    (t s : ℕ) (g h : Bytes) → has_regressed t g s h ≡ true → (t < s) ⊎ ((t ≡ s) × (g ≢ h))
unfolding has_regressed
has_regressed-true t s g h e = elim (Bool-cases (ltb t s)) [
  | inl low ↦ inl (ltb→lt t s low)
  | inr high ↦ elim (Bool-cases (eq_bytes g h)) [
    | inl same ↦ absurd (ground (arith, e, high, same))
    | inr differ ↦
        inr (ground (arith, e, high), λ both. absurd (cc (sym differ ∙ (eq_bytes_iff g h).1 both)))
  ]
]

has_regressed-false :
    (t s : ℕ) (g h : Bytes) → has_regressed t g s h ≡ false → (s < t) ⊎ ((t ≡ s) × (g ≡ h))
unfolding has_regressed
has_regressed-false t s g h e = elim (Bool-cases (eq_bytes g h)) [
  | inl same ↦ elim (Bool-cases (t == s)) [
    | inl at ↦ inr ((==_iff t s).0 at, eq_bytes_sound g h same)
    | inr off ↦ inl (ground (arith, e, off))
  ]
  | inr differ ↦ inl (ground (arith, e, differ))
]

has_regressed-below : (t s : ℕ) (g h : Bytes) → t < s → has_regressed t g s h ≡ true
unfolding has_regressed
has_regressed-below t s g h below = rw (lt→ltb t s below) refl

-- One call of `check_and_record`, with numbers and a hash of the Rust types' widths.
pub record Check : Type 0 where
  pub hansa : Bytes
  pub seq : ℕ
  pub hash : Bytes
  pub seq_fits : seq < 2 ^ 64
  pub hash_fits : length hash ≡ 32
  pub hash_bytes : All IsByte hash

unfoldable pub check_all : List Check → HeadCache → HeadCache
check_all [] cache = cache
check_all (k ∷ ks) cache = check_all ks (check_and_record k.hansa k.seq k.hash cache).1

-- The cache knows a head of the hansa that is at `seq` or later.
abbrev Knows : Bytes → ℕ → HeadCache → Type 0
Knows hansa seq cache =
    (s : ℕ) × (h : Bytes) × (load hansa cache ≡ returned (some (s, h))) × (seq ≤ s)

store-Knows :
    (hansa : Bytes) (seq : ℕ) (k : Check) (cache : HeadCache)
    → (eq_bytes k.hansa hansa ≡ true → seq ≤ k.seq)
    → Knows hansa seq cache
    → Knows hansa seq (store k.hansa k.seq k.hash cache)
store-Knows hansa seq k cache later known =
    let after = load-store k.hansa hansa k.seq k.hash cache k.seq_fits k.hash_fits k.hash_bytes in
    elim (Bool-cases (eq_bytes k.hansa hansa)) [
      | inl same ↦ (k.seq, k.hash, after ∙ rw same refl, later same)
      | inr other ↦
          let (s, h, loaded, above) = known in (s, h, after ∙ rw (other, loaded) refl, above)
    ]

check_loaded-Knows :
    (hansa : Bytes) (seq : ℕ) (k : Check) (cache : HeadCache) (o : Outcome (Option (ℕ × Bytes)))
    → load k.hansa cache ≡ o
    → Knows hansa seq cache
    → Knows hansa seq (check_loaded o k.hansa k.seq k.hash cache).1
unfolding check_loaded
check_loaded-Knows hansa seq k cache (failed e) at known = known
check_loaded-Knows hansa seq k cache panicked at known = known
check_loaded-Knows hansa seq k cache (returned none) at (s, h, loaded, above) =
    store-Knows hansa seq k cache
      (λ same.
        let e = eq_bytes_sound k.hansa hansa same in
        absurd (cc (sym at ∙ ap (λ i. load i cache) e ∙ loaded)))
      (s, h, loaded, above)
check_loaded-Knows hansa seq k cache (returned (some (c, ch))) at (s, h, loaded, above) =
    elim (Bool-cases (has_regressed k.seq k.hash c ch)) [
      | inl back ↦ rw back (s, h, loaded, above)
      | inr forth ↦ rw forth (
          store-Knows hansa seq k cache
            (λ same.
              let e = eq_bytes_sound k.hansa hansa same in
              let found : c ≡ s = cc (sym at ∙ ap (λ i. load i cache) e ∙ loaded) in
              unfold has_regressed in ground (arith, forth, found, above))
            (s, h, loaded, above))
    ]

check_all-Knows :
    (hansa : Bytes) (seq : ℕ) (ks : List Check) (cache : HeadCache)
    → Knows hansa seq cache
    → Knows hansa seq (check_all ks cache)
unfolding check_all check_and_record
check_all-Knows hansa seq [] cache known = known
check_all-Knows hansa seq (k ∷ ks) cache known =
    check_all-Knows hansa seq ks (check_and_record k.hansa k.seq k.hash cache).1
      (check_loaded-Knows hansa seq k cache (load k.hansa cache) refl known)

-- On the heads that the cache knows, `check_and_record` refuses a lower sequence number and a second
-- hash at the same one, and changes nothing then; any other head is accepted and is what `load`
-- gives from then on, and what `load` gives for the other hansas stays as it was.
pub check_and_record-result :
    (k : Check) (cache : HeadCache) (s : ℕ) (h : Bytes)
    → load k.hansa cache ≡ returned (some (s, h))
    → ((k.seq < s) ⊎ ((k.seq ≡ s) × (k.hash ≢ h)))
        × (check_and_record k.hansa k.seq k.hash cache ≡ (failed chain_regressed, cache))
      ⊎ ((s < k.seq) ⊎ ((k.seq ≡ s) × (k.hash ≡ h)))
        × ((check_and_record k.hansa k.seq k.hash cache).0 ≡ returned tt)
        × ((other : Bytes)
            → load other (check_and_record k.hansa k.seq k.hash cache).1 ≡ (
                if eq_bytes k.hansa other
                then returned (some (k.seq, k.hash))
                else load other cache))
unfolding check_and_record check_loaded
check_and_record-result k cache s h loaded = elim (Bool-cases (has_regressed k.seq k.hash s h)) [
  | inl back ↦ inl (has_regressed-true k.seq s k.hash h back, rw (loaded, back) refl)
  | inr forth ↦ inr (
    has_regressed-false k.seq s k.hash h forth,
    rw (loaded, forth) refl,
    λ other.
        rw (loaded, forth)
          (load-store k.hansa other k.seq k.hash cache k.seq_fits k.hash_fits k.hash_bytes),
  )
]

-- Once a head at `seq` has been recorded for a hansa, no sequence of checks, of whatever hansas and
-- accepted or not, makes a head below `seq` acceptable: it is refused, and the cache is unchanged.
pub no_rollback :
    (hansa : Bytes) (seq : ℕ) (hash : Bytes) (ks : List Check) (cache : HeadCache)
    → (low : ℕ) (other_hash : Bytes) → load hansa cache ≡ returned (some (seq, hash))
    → low < seq
    → check_and_record hansa low other_hash (check_all ks cache)
      ≡ (failed chain_regressed, check_all ks cache)
unfolding check_and_record check_loaded
no_rollback hansa seq hash ks cache low other_hash loaded below =
    let (s, h, now, above) = check_all-Knows hansa seq ks cache (seq, hash, loaded, omega arith) in
    let back : has_regressed low other_hash s h ≡ true =
      has_regressed-below low s other_hash h (omega (arith, below, above)) in
    rw (now, back) refl
