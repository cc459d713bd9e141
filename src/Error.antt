-- ===== src/Error.antt =====
-- crates/hansa/src/error.rs, and `Result` with the `?` operator. The texts inside an error are left
-- out; the numbers that callers match on are kept.
use hansa.Prelude.{
  ℕ, ◌≡◌, refl, ◌⊎◌, inl, inr, Bool, true, false, Option, none, some, if◌then◌else◌,
}

pub data HansaError : Type 0 where
  io hull opening query json key_not_found : HansaError
  invalid_key_length : ℕ → HansaError
  dim_mismatch : ℕ → ℕ → HansaError
  registry_malformed invariant bad_signature weak_key malformed_crypto : HansaError
  chain_broken : ℕ → HansaError
  chain_regressed id_mismatch unauthorized : HansaError

pub data Result {ℓ} (A : Type ℓ) : Type ℓ where
  ok : A → Result A
  err : HansaError → Result A

pub Result-cases {ℓ} :
    {A : Type ℓ} (r : Result A) → ((a : A) × (r ≡ ok a)) ⊎ ((e : HansaError) × (r ≡ err e))
Result-cases (ok a) = inl (a, refl)
Result-cases (err e) = inr (e, refl)

-- `r.map_err(|_| e)`
abbrev pub map_err {ℓ} : {A : Type ℓ} → HansaError → Result A → Result A
map_err e (ok a) = ok a
map_err e (err _) = err e

-- The `?` operator: what follows runs on success only.
infixl 5 ◌>>=◌ ◌>>◌
abbrev pub ◌>>=◌ {ℓ κ} : {A : Type ℓ} {B : Type κ} → Result A → (A → Result B) → Result B
err failure >>= next = err failure
ok value >>= next = next value

-- `o.ok_or(e)`
abbrev pub ok_or {ℓ} : {A : Type ℓ} → HansaError → Option A → Result A
ok_or e none = err e
ok_or e (some a) = ok a

abbrev pub ◌>>◌ {ℓ} : {A : Type ℓ} → Result (Unit {0}) → Result A → Result A
first >> rest = first >>= λ _. rest

-- `if !test { return Err(e) }`
abbrev pub guard : Bool → HansaError → Result (Unit {0})
guard test failure = if test then ok tt else err failure

-- A successful `guard` has a true test.
pub guard-eq-ok : (b : Bool) (e : HansaError) {u : Unit {0}} → guard b e ≡ ok u → b ≡ true
guard-eq-ok true e h = refl
guard-eq-ok false e h = cc

-- A bind that succeeds has two parts that do.
pub >>=-eq-ok {ℓ κ} :
    {B : Type κ} {A : Type ℓ} (first : Result A) (next : A → Result B) {result : B}
    → (first >>= next) ≡ ok result
    → (value : A) × (first ≡ ok value) × (next value ≡ ok result)
>>=-eq-ok (err failure) next h = cc
>>=-eq-ok (ok value) next h = (value, refl, h)
