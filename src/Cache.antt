-- ===== src/Cache.antt =====
-- crates/hansa/src/cache.rs: `BundleCache`, over any type of bundles. `Instant::now()` is an
-- argument of the operations that read it, in seconds; `duration_since` stops at zero, as the
-- subtraction here does.
pub mod Bounds
pub mod Lookup
pub mod Answers
use hansa.Prelude.{
  ℕ, zero, suc, ◌+◌, ◌-◌, ◌*◌, ◌/◌, ◌%◌, ◌^◌, ◌≤◌, ◌<◌, min, max, ◌≡◌, refl, sym, ap, ap₂, ◌∙◌,
  subst, ◌≢◌, ◌↔◌, ◌⊎◌, inl, inr, Bool, true, false, not, ◌&&◌, ◌||◌, Option, none, some, List, [],
  ◌∷◌, ◌++◌, map, append_assoc, append-nil, arith, ltb, leb, ◌==◌, if◌then◌else◌, ltb→lt, lt→ltb,
  leb→le, le→leb, ==_iff, Bool-cases, Option-cases, if_both, length, get_elem?, take, drop, modify,
  length-append, All, All-append, length-take, length-drop, length-map, length-modify,
  take-append-drop, take-append, drop-append, All-take,
}
use hansa.Floats.{Floats}

module _ (f : Floats) (Bundle : Type 0) where
  open f use {F32, lt, ge, is_zero, is_finite, of_u64, add, mul, div, sqrt}

  pub record Entry : Type 0 where
    pub centre_unit : List F32
    pub bundle : Bundle
    pub inserted_at : ℕ

  pub record BundleCache : Type 0 where
    pub dim : ℕ
    pub capacity : ℕ
    pub ttl : ℕ
    pub hit_threshold : F32
    pub entries : List Entry

  unfoldable pub with_config : ℕ → ℕ → ℕ → F32 → BundleCache
  with_config dim capacity ttl hit_threshold = record {
    dim = dim;
    capacity = max capacity 1;
    ttl = ttl;
    hit_threshold = hit_threshold;
    entries = [];
  }

  -- The sum of squares, on its accumulator.
  unfoldable pub squares : F32 → List F32 → F32
  squares norm [] = norm
  squares norm (x ∷ v) = squares (add norm (mul x x)) v

  unfoldable pub unit_normalise : List F32 → Option (List F32)
  unfolding squares
  unit_normalise v =
      let norm = sqrt (squares (of_u64 0) v) in
      if not (is_finite norm) || is_zero norm then none else some (map (λ x. div x norm) v)

  unfoldable pub dot_from : F32 → List F32 → List F32 → F32
  dot_from acc [] b = acc
  dot_from acc (x ∷ a) [] = acc
  dot_from acc (x ∷ a) (y ∷ b) = dot_from (add acc (mul x y)) a b

  unfoldable pub dot : List F32 → List F32 → F32
  unfolding dot_from
  dot a b = dot_from (of_u64 0) a b

  -- `now.duration_since(front.inserted_at) > self.ttl`
  unfoldable pub is_stale : ℕ → ℕ → Entry → Bool
  is_stale ttl now e = ltb ttl (now - e.inserted_at)

  -- `expire`, on the entries.
  unfoldable pub expire_entries : ℕ → ℕ → List Entry → List Entry
  unfolding is_stale
  expire_entries ttl now [] = []
  expire_entries ttl now (e ∷ es) =
      let rest = expire_entries ttl now es in if is_stale ttl now e then rest else e ∷ es

  unfoldable pub expire : ℕ → BundleCache → BundleCache
  unfolding expire_entries
  expire now c = record c { entries = expire_entries c.ttl now c.entries }

  unfoldable pub len : ℕ → BundleCache → ℕ × BundleCache
  unfolding expire
  len now c = let c' = expire now c in (length c'.entries, c')

  unfoldable pub is_empty : ℕ → BundleCache → Bool × BundleCache
  unfolding len
  is_empty now c = let (n, c') = len now c in (n == 0, c')

  -- `best.map(|(_, s)| score > s).unwrap_or(true)`
  unfoldable pub is_better : F32 → Option (ℕ × F32) → Bool
  is_better score none = true
  is_better score (some (idx, s)) = lt s score

  -- The loop of `get`, at the entries from position `idx` on.
  unfoldable pub find_best : F32 → List F32 → ℕ → List Entry → Option (ℕ × F32) → Option (ℕ × F32)
  unfolding dot is_better
  find_best threshold unit idx [] best = best
  find_best threshold unit idx (e ∷ es) best =
      let score = dot unit e.centre_unit in
      find_best threshold unit (idx + 1) es
        (if ge score threshold && is_better score best then some (idx, score) else best)

  -- `VecDeque::remove`
  unfoldable pub remove_at : ℕ → List Entry → Option (Entry × List Entry)
  remove_at idx [] = none
  remove_at zero (e ∷ es) = some (e, es)
  remove_at (suc idx) (e ∷ es) = elim (remove_at idx es) [
    | none ↦ none
    | some (found, rest) ↦ some (found, e ∷ rest)
  ]

  -- The end of `get`: the entry that `remove` gave goes to the back.
  unfoldable pub move_to_back :
      BundleCache → Option (Entry × List Entry) → Option Bundle × BundleCache
  move_to_back c none = (none, c)
  move_to_back c (some (e, rest)) = (some e.bundle, record c { entries = rest ++ e ∷ [] })

  unfoldable pub touch : BundleCache → Option (ℕ × F32) → Option Bundle × BundleCache
  unfolding remove_at move_to_back
  touch c none = (none, c)
  touch c (some (idx, score)) = move_to_back c (remove_at idx c.entries)

  -- `get` with the normalised embedding.
  unfoldable pub look_up : ℕ → BundleCache → Option (List F32) → Option Bundle × BundleCache
  unfolding expire find_best touch
  look_up now c none = (none, c)
  look_up now c (some unit) =
      let c' = expire now c in touch c' (find_best c'.hit_threshold unit 0 c'.entries none)

  unfoldable pub get : ℕ → List F32 → BundleCache → Option Bundle × BundleCache
  unfolding unit_normalise look_up
  get now embedding c =
      if not (length embedding == c.dim)
      then (none, c)
      else look_up now c (unit_normalise embedding)

  -- `while self.entries.len() >= self.capacity { self.entries.pop_front(); }`
  unfoldable pub evict : ℕ → List Entry → List Entry
  evict capacity [] = []
  evict capacity (e ∷ es) =
      let rest = evict capacity es in if leb capacity (length (e ∷ es)) then rest else e ∷ es

  -- `insert` with the normalised embedding. `expire` reads the clock first, and the new entry is
  -- stamped after it.
  unfoldable pub push : ℕ → ℕ → Bundle → BundleCache → Option (List F32) → BundleCache
  unfolding expire evict
  push now stamp bundle c none = c
  push now stamp bundle c (some unit) =
      let c' = expire now c in
      let e : Entry = record { centre_unit = unit; bundle = bundle; inserted_at = stamp } in
      record c' { entries = evict c'.capacity c'.entries ++ e ∷ [] }

  unfoldable pub insert : ℕ → ℕ → List F32 → Bundle → BundleCache → BundleCache
  unfolding unit_normalise push
  insert now stamp embedding bundle c =
      if not (length embedding == c.dim)
      then c
      else push now stamp bundle c (unit_normalise embedding)

  unfoldable pub invalidate_all : BundleCache → BundleCache
  invalidate_all c = record c { entries = [] }
