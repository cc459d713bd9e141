-- ===== src/Prelude/Tests.antt =====
-- Boolean tests on the native numbers, the conditional, and splits that keep an equation.
use Prim.Native.Nat.{ℕ, ◌≤◌, ◌<◌, compare, Ordering}
use mathlib.Core.Path.{◌≡◌, refl}
use mathlib.Core.Logic.{◌↔◌, ◌⊎◌, inl, inr}
use mathlib.Core.Bool.{Bool, true, false, ◌||◌, ◌&&◌}
use mathlib.Core.Option.{Option, none, some}
use native.Mathlib.Omega.{arith}

abbrev pub ltb : ℕ → ℕ → Bool
ltb a b = elim (compare a b) [ Ordering.lt ↦ true | _ ↦ false ]

abbrev pub leb : ℕ → ℕ → Bool
leb a b = elim (compare a b) [ Ordering.gt ↦ false | _ ↦ true ]

infix 50 ◌==◌
abbrev pub ◌==◌ : ℕ → ℕ → Bool
a == b = elim (compare a b) [ Ordering.eq ↦ true | _ ↦ false ]

infix 1 if◌then◌else◌
abbrev pub if◌then◌else◌ {ℓ} : {A : Type ℓ} → Bool → A → A → A
if true then x else y = x
if false then x else y = y

pub ltb→lt : (a b : ℕ) → ltb a b ≡ true → a < b
ltb→lt a b h = ground arith

pub lt→ltb : (a b : ℕ) → a < b → ltb a b ≡ true
lt→ltb a b h = ground arith

pub leb→le : (a b : ℕ) → leb a b ≡ true → a ≤ b
leb→le a b h = ground arith

pub le→leb : (a b : ℕ) → a ≤ b → leb a b ≡ true
le→leb a b h = ground arith

pub ==_iff : (a b : ℕ) → ((a == b) ≡ true) ↔ (a ≡ b)
==_iff a b = ground arith

pub Bool-cases : (b : Bool) → (b ≡ true) ⊎ (b ≡ false)
Bool-cases true = inl refl
Bool-cases false = inr refl

pub Option-cases {ℓ} : {A : Type ℓ} (o : Option A) → (o ≡ none) ⊎ ((a : A) × (o ≡ some a))
Option-cases none = inl refl
Option-cases (some a) = inr (a, refl)

-- What holds of both branches holds of the conditional.
pub if_both {ℓ κ} :
    {R : Type ℓ} (Holds : R → Type κ) (test : Bool) {yes no : R}
    → Holds yes
    → Holds no
    → Holds (if test then yes else no)
if_both Holds false on_yes on_no = on_no
if_both Holds true on_yes on_no = on_yes

pub neither : (a c : Bool) → a || c ≡ false → (a ≡ false) × (c ≡ false)
neither false false h = (refl, refl)
neither true c h = absurd (cc)
neither false true h = absurd (cc)

pub either_true : (a c : Bool) → a || c ≡ true → (a ≡ true) ⊎ (c ≡ true)
either_true true c h = inl refl
either_true false c h = inr h

pub or_false : (a : Bool) → a || false ≡ a
or_false true = refl
or_false false = refl

pub or_assoc : (a c d : Bool) → a || (c || d) ≡ (a || c) || d
or_assoc true c d = refl
or_assoc false c d = refl

pub or_true : (a : Bool) → a || true ≡ true
or_true true = refl
or_true false = refl

pub and_right : (a c : Bool) → a && c ≡ true → c ≡ true
and_right true c h = h
and_right false c h = absurd (cc)

pub and_left : (a c : Bool) → a && c ≡ true → a ≡ true
and_left true c h = refl
and_left false c h = h
