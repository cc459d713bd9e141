-- ===== src/Panics.antt =====
-- Code that can panic: `none` is a panic, and ends what follows.
use hansa.Prelude.{
  ℕ, zero, suc, ◌+◌, ◌<◌, ◌≡◌, refl, ap, Option, none, some, List, [], ◌∷◌, arith, length,
  get_elem?, All,
}

infixl 5 ◌>>=◌
abbrev pub ◌>>=◌ {ℓ κ} : {A : Type ℓ} {B : Type κ} → Option A → (A → Option B) → Option B
none >>= next = none
some value >>= next = next value

abbrev pub returning {ℓ κ} : {A : Type ℓ} {B : Type κ} → (A → B) → Option A → Option B
returning g none = none
returning g (some value) = some (g value)

pub returning_ext {ℓ κ} :
    {A : Type ℓ} {B : Type κ} (g h : A → B) (first : Option A)
    → ((a : A) → g a ≡ h a)
    → returning g first ≡ returning h first
returning_ext g h none same = refl
returning_ext g h (some a) same = ap some (same a)

-- The code does not panic, and what it returns satisfies the predicate.
abbrev pub Returns : {A : Type 0} → (A → Type 0) → Option A → Type 0
Returns P none = ⊥
Returns P (some a) = P a

pub Returns-some :
    {A : Type 0} (P : A → Type 0) (o : Option A) → Returns P o → (a : A) × (o ≡ some a) × P a
Returns-some P none h = absurd h
Returns-some P (some a) h = (a, refl, h)

pub Returns-bind :
    {A B : Type 0} (P : A → Type 0) (Q : B → Type 0) (first : Option A) (next : A → Option B)
    → Returns P first
    → ((a : A) → P a → Returns Q (next a))
    → Returns Q (first >>= next)
Returns-bind P Q none next h k = h
Returns-bind P Q (some a) next h k = k a h

pub Returns-get_elem? :
    {A : Type 0} (P : A → Type 0) (xs : List A) (i : ℕ)
    → All P xs
    → i < length xs
    → Returns P (get_elem? xs i)
Returns-get_elem? P [] i h lt = absurd (omega arith)
Returns-get_elem? P (x ∷ xs) zero h lt = h.0
Returns-get_elem? P (x ∷ xs) (suc i) h lt = Returns-get_elem? P xs i h.1 (omega arith)

module _ {ℓ} {A : Type ℓ} where
  -- `v[i] = f(v[i])`, where `f` can panic as the index can.
  unfoldable pub update_at : ℕ → (A → Option A) → List A → Option (List A)
  update_at i f [] = none
  update_at zero f (x ∷ xs) = do y ← f x; some (y ∷ xs)
  update_at (suc i) f (x ∷ xs) = do ys ← update_at i f xs; some (x ∷ ys)

  abbrev pub replicate : ℕ → A → List A
  replicate zero x = []
  replicate (suc n) x = x ∷ replicate n x

  pub length-replicate : (n : ℕ) (x : A) → length (replicate n x) ≡ n
  length-replicate zero x = refl
  length-replicate (suc n) x = ap suc (length-replicate n x)

  pub All-replicate {κ} : (P : A → Type κ) (n : ℕ) (x : A) → P x → All P (replicate n x)
  All-replicate P zero x h = tt
  All-replicate P (suc n) x h = (h, All-replicate P n x h)

module _ {A : Type 0} where
  pub Returns-update_at :
      (P : A → Type 0) (i : ℕ) (f : A → Option A) (xs : List A)
      → ((x : A) → P x → Returns P (f x))
      → All P xs
      → i < length xs
      → Returns (λ ys. (length ys ≡ length xs) × All P ys) (update_at i f xs)
  unfolding update_at
  Returns-update_at P i f [] h k lt = absurd (omega arith)
  Returns-update_at P zero f (x ∷ xs) h k lt =
      Returns-bind P (λ ys. (length ys ≡ length (x ∷ xs)) × All P ys) (f x) (λ y. some (y ∷ xs))
        (h x k.0) (λ y good. (refl, (good, k.1)))
  Returns-update_at P (suc i) f (x ∷ xs) h k lt =
      Returns-bind (λ ys. (length ys ≡ length xs) × All P ys)
        (λ ys. (length ys ≡ length (x ∷ xs)) × All P ys) (update_at i f xs) (λ ys. some (x ∷ ys))
        (Returns-update_at P i f xs h k.1 (omega arith)) (λ ys good. (ap suc good.0, (k.0, good.1)))

pub Returns-imp :
    {A : Type 0} (P Q : A → Type 0) (o : Option A)
    → ((a : A) → P a → Q a)
    → Returns P o
    → Returns Q o
Returns-imp P Q none imp h = h
Returns-imp P Q (some a) imp h = imp a h

abbrev pub sum : List ℕ → ℕ
sum [] = 0
sum (n ∷ ns) = n + sum ns

pub sum-replicate : (n : ℕ) → sum (replicate n 0) ≡ 0
sum-replicate zero = refl
sum-replicate (suc n) = omega (arith, sum-replicate n)

-- `counts[i] += 1`
pub Returns-count_at :
    (i : ℕ) (counts : List ℕ)
    → i < length counts
    → Returns
        (λ ys. (length ys ≡ length counts) × (sum ys ≡ sum counts + 1))
        (update_at i (λ n. some (n + 1)) counts)
unfolding update_at
Returns-count_at i [] lt = absurd (omega arith)
Returns-count_at zero (n ∷ counts) lt = (refl, omega arith)
Returns-count_at (suc i) (n ∷ counts) lt =
    Returns-bind (λ ys. (length ys ≡ length counts) × (sum ys ≡ sum counts + 1))
      (λ ys. (length ys ≡ length (n ∷ counts)) × (sum ys ≡ sum (n ∷ counts) + 1))
      (update_at i (λ m. some (m + 1)) counts) (λ ys. some (n ∷ ys))
      (Returns-count_at i counts (omega arith)) (λ ys good. (ap suc good.0, omega (arith, good.1)))
