-- ===== src/Cache/Bounds.antt =====
-- `BundleCache` never holds more than its capacity, and every centre has its dimension.
use hansa.Prelude.{
  ℕ, zero, suc, ◌≤◌, ◌<◌, ◌≡◌, refl, ap, ◌∙◌, inl, inr, Bool, true, false, not, Option, none, some,
  List, [], ◌∷◌, arith, ◌==◌, if◌then◌else◌, ==_iff, Bool-cases, Option-cases, if_both, length,
  length-append, All, All-append, length-map,
}
use hansa.Floats.{Floats}
use hansa.Cache
use hansa.Cache.{
  Entry, BundleCache, with_config, unit_normalise, expire_entries, expire, remove_at, touch, evict,
  move_to_back, look_up, push,
}

some_else {ℓ} :
    {A : Type ℓ} (b : Bool) (x : A) {u : A} → (if b then none else some x) ≡ some u → u ≡ x
some_else true x h = absurd (cc h)
some_else false x h = cc h

module _ (f : Floats) (Bundle : Type 0) where
  open f use {F32}

  pub record IsBounded (c : BundleCache f Bundle) : Type 0 where
    pub room : 1 ≤ c.capacity
    pub held : length c.entries ≤ c.capacity
    pub centres : All (λ (e : Entry f Bundle). length e.centre_unit ≡ c.dim) c.entries

  -- The operations of the cache, each with what it reads from the clock.
  pub data Operation : Type 0 where
    len is_empty : ℕ → Operation
    get : ℕ → List F32 → Operation
    insert : ℕ → ℕ → List F32 → Bundle → Operation
    invalidate_all : Operation

  unfoldable pub run : Operation → BundleCache f Bundle → BundleCache f Bundle
  unfolding Cache.len Cache.is_empty Cache.get Cache.insert Cache.invalidate_all
  run (len now) c = (Cache.len f Bundle now c).1
  run (is_empty now) c = (Cache.is_empty f Bundle now c).1
  run (get now v) c = (Cache.get f Bundle now v c).1
  run (insert now stamp v b) c = Cache.insert f Bundle now stamp v b c
  run invalidate_all c = Cache.invalidate_all f Bundle c

  unfoldable pub run_all : List Operation → BundleCache f Bundle → BundleCache f Bundle
  run_all [] c = c
  run_all (o ∷ os) c = run_all os (run o c)

  module _ (P : Entry f Bundle → Type 0) where
    All-expire :
        (ttl now : ℕ) (es : List (Entry f Bundle))
        → All P es
        → All P (expire_entries f Bundle ttl now es)
    unfolding expire_entries
    All-expire ttl now [] h = tt
    All-expire ttl now (e ∷ es) h = ground (arith, All-expire ttl now es h.1)

    All-evict :
        (capacity : ℕ) (es : List (Entry f Bundle)) → All P es → All P (evict f Bundle capacity es)
    unfolding evict
    All-evict capacity [] h = tt
    All-evict capacity (e ∷ es) h = ground (arith, All-evict capacity es h.1)

    All-remove_at :
        (idx : ℕ) (es : List (Entry f Bundle)) {e : Entry f Bundle} {rest : List (Entry f Bundle)}
        → remove_at f Bundle idx es ≡ some (e, rest)
        → All P es
        → P e × All P rest × (length es ≡ suc (length rest))
    unfolding remove_at
    All-remove_at idx [] h a = absurd (cc h)
    All-remove_at zero (x ∷ es) h a = ground (arith, h)
    All-remove_at (suc idx) (x ∷ es) h a = elim (Option-cases (remove_at f Bundle idx es)) [
      | inl e ↦ absurd (ground (arith, h, e))
      | inr ((y, rest), e) ↦ let t = All-remove_at idx es e a.1 in ground (arith, h, e, t)
    ]

  length-expire :
      (ttl now : ℕ) (es : List (Entry f Bundle))
      → length (expire_entries f Bundle ttl now es) ≤ length es
  unfolding expire_entries
  length-expire ttl now [] = omega arith
  length-expire ttl now (e ∷ es) = ground (arith, length-expire ttl now es)

  length-evict :
      (capacity : ℕ) (es : List (Entry f Bundle))
      → 1 ≤ capacity
      → length (evict f Bundle capacity es) < capacity
  unfolding evict
  length-evict capacity [] h = omega arith
  length-evict capacity (e ∷ es) h = ground (arith, length-evict capacity es h)

  length-unit_normalise :
      (v : List F32) {u : List F32} → unit_normalise f Bundle v ≡ some u → length u ≡ length v
  unfolding unit_normalise
  length-unit_normalise v h = ap length (some_else _ _ h) ∙ length-map v _

  expire-IsBounded :
      (now : ℕ) (c : BundleCache f Bundle) → IsBounded c → IsBounded (expire f Bundle now c)
  unfolding expire
  expire-IsBounded now c w = record {
    room = w.room;
    held = omega (arith, w.held, length-expire c.ttl now c.entries);
    centres = All-expire _ c.ttl now c.entries w.centres;
  }

  touch-IsBounded :
      (c : BundleCache f Bundle) (best : Option (ℕ × F32))
      → IsBounded c
      → IsBounded (touch f Bundle c best).1
  unfolding touch move_to_back
  touch-IsBounded c none w = w
  touch-IsBounded c (some (idx, score)) w = go (remove_at f Bundle idx c.entries) refl
    where
      go :
          (taken : Option (Entry f Bundle × List (Entry f Bundle)))
          → remove_at f Bundle idx c.entries ≡ taken
          → IsBounded (move_to_back f Bundle c taken).1
      go none e = w
      go (some (y, rest)) e =
          let (hy, hrest, size) = All-remove_at _ idx c.entries e w.centres in
          record {
            room = w.room;
            held = omega (arith, w.held, size, length-append rest (y ∷ []));
            centres = All-append _ rest (y ∷ []) hrest (hy, tt);
          }

  look_up-IsBounded :
      (now : ℕ) (c : BundleCache f Bundle) (unit : Option (List F32))
      → IsBounded c
      → IsBounded (look_up f Bundle now c unit).1
  unfolding look_up
  look_up-IsBounded now c none w = w
  look_up-IsBounded now c (some unit) w =
      touch-IsBounded (expire f Bundle now c) _ (expire-IsBounded now c w)

  push-IsBounded :
      (now stamp : ℕ) (b : Bundle) (c : BundleCache f Bundle) (unit : Option (List F32))
      → ((u : List F32) → unit ≡ some u → length u ≡ c.dim)
      → IsBounded c
      → IsBounded (push f Bundle now stamp b c unit)
  unfolding push
  push-IsBounded now stamp b c none size w = w
  push-IsBounded now stamp b c (some unit) size w =
      let w' = expire-IsBounded now c w in
      unfold expire in
      record {
        room = w'.room;
        held = omega (
          arith,
          length-evict c.capacity (expire f Bundle now c).entries w.room,
          length-append (evict f Bundle c.capacity (expire f Bundle now c).entries) (_ ∷ []),
        );
        centres = All-append _ _ _ (All-evict _ c.capacity _ w'.centres) (size unit refl, tt);
      }

  insert-IsBounded :
      (now stamp : ℕ) (v : List F32) (b : Bundle) (c : BundleCache f Bundle)
      → IsBounded c
      → IsBounded (Cache.insert f Bundle now stamp v b c)
  unfolding Cache.insert
  insert-IsBounded now stamp v b c w = elim (Bool-cases (length v == c.dim)) [
    | inl e ↦ rw e (
        push-IsBounded now stamp b c (unit_normalise f Bundle v)
          (λ u h. length-unit_normalise v h ∙ (==_iff (length v) c.dim).0 e) w)
    | inr e ↦ rw e w
  ]

  run-IsBounded : (o : Operation) (c : BundleCache f Bundle) → IsBounded c → IsBounded (run o c)
  unfolding run Cache.len Cache.is_empty Cache.get Cache.invalidate_all
  run-IsBounded (len now) c w = expire-IsBounded now c w
  run-IsBounded (is_empty now) c w = expire-IsBounded now c w
  run-IsBounded (get now v) c w =
      if_both {R = Option Bundle × BundleCache f Bundle} (λ r. IsBounded r.1)
        (not (length v == c.dim)) w (look_up-IsBounded now c (unit_normalise f Bundle v) w)
  run-IsBounded (insert now stamp v b) c w = insert-IsBounded now stamp v b c w
  run-IsBounded invalidate_all c w = record {
    room = w.room;
    held = omega (arith, w.room);
    centres = tt;
  }

  -- Whatever is done to a cache made by `with_config`, it holds at most its capacity, which is at
  -- least one, and only centres of its dimension.
  pub run_all-IsBounded :
      (os : List Operation) (dim capacity ttl : ℕ) (threshold : F32)
      → IsBounded (run_all os (with_config f Bundle dim capacity ttl threshold))
  unfolding with_config run_all
  run_all-IsBounded os dim capacity ttl threshold =
      go os (with_config f Bundle dim capacity ttl threshold)
        (record { room = omega arith; held = omega arith; centres = tt })
    where
      go : (os : List Operation) (c : BundleCache f Bundle) → IsBounded c → IsBounded (run_all os c)
      go [] c w = w
      go (o ∷ os) c w = go os (run o c) (run-IsBounded o c w)
