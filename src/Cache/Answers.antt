-- ===== src/Cache/Answers.antt =====
-- `BundleCache::get` as a whole, and `get` after `insert`.
use hansa.Prelude.{
  ℕ, ◌+◌, ◌≤◌, ◌≡◌, refl, sym, ap, ◌≢◌, ◌⊎◌, inl, inr, true, false, Option, none, some, List, [],
  ◌∷◌, ◌++◌, arith, ◌==◌, Bool-cases, length, All,
}
use hansa.Floats.{Floats, IsOrdered}
use hansa.Cache
use hansa.Cache.{
  Entry, BundleCache, unit_normalise, is_stale, expire, expire_entries, evict, find_best, dot,
  remove_at, touch, move_to_back, look_up, push,
}
use hansa.Cache.Lookup.{IsFar, IsBest, find_best-Choice, Choice}

module _ (f : Floats) (Bundle : Type 0) where
  open f use {F32, lt, ge}

  remove_at-append :
      (before behind : List (Entry f Bundle)) (e : Entry f Bundle)
      → remove_at f Bundle (length before) (before ++ e ∷ behind) ≡ some (e, before ++ behind)
  unfolding remove_at
  remove_at-append [] behind e = refl
  remove_at-append (x ∷ before) behind e = rw (remove_at-append before behind e) refl

  -- What a lookup leaves, and what it returns: nothing where every entry is too far; else the bundle
  -- of a best match, which is now the last entry, the others in their order before it.
  pub record IsServed (c : BundleCache f Bundle) (unit : List F32)
      (r : Option Bundle × BundleCache f Bundle) : Type 0 where
    pub idx : ℕ
    pub score : F32
    pub best : IsBest f Bundle c.hit_threshold unit c.entries idx score
    pub returned : r.0 ≡ some best.found.bundle
    pub moved : r.1 ≡ record c { entries = (best.before ++ best.behind) ++ best.found ∷ [] }

  pub record IsMissed (c : BundleCache f Bundle) (unit : List F32)
      (r : Option Bundle × BundleCache f Bundle) : Type 0 where
    pub far : All (IsFar f Bundle c.hit_threshold unit) c.entries
    pub returned : r.0 ≡ none
    pub kept : r.1 ≡ c

  module _ (order : IsOrdered f) where
    touch-answers :
        (c : BundleCache f Bundle) (unit : List F32)
        → let r = touch f Bundle c (find_best f Bundle c.hit_threshold unit 0 c.entries none) in
          IsMissed c unit r ⊎ IsServed c unit r
    unfolding touch
    touch-answers c unit =
        go (find_best f Bundle c.hit_threshold unit 0 c.entries none)
          (find_best-Choice f Bundle c.hit_threshold unit order [] c.entries none tt)
      where
        go :
            (best : Option (ℕ × F32))
            → Choice f Bundle c.hit_threshold unit c.entries best
            → IsMissed c unit (touch f Bundle c best) ⊎ IsServed c unit (touch f Bundle c best)
        go none far = inl (record { far = far; returned = refl; kept = refl })
        go (some (idx, s)) best =
            let taken : remove_at f Bundle idx c.entries
                ≡ some (best.found, best.before ++ best.behind) =
              rw (sym best.at, best.splits) (remove_at-append best.before best.behind best.found) in
            unfold move_to_back in
            let end : touch f Bundle c (some (idx, s)) ≡ (
              some best.found.bundle,
              record c { entries = (best.before ++ best.behind) ++ best.found ∷ [] },
            ) =
              ap (move_to_back f Bundle c) taken in
            inr (record {
              idx = idx;
              score = s;
              best = best;
              returned = ap (λ r. r.0) end;
              moved = ap (λ r. r.1) end;
            })

    -- On an embedding of the cache's dimension that can be normalised, `get` first drops stale
    -- entries from the front. If every entry that is left is too far it returns nothing and changes
    -- nothing more; else it returns the bundle of a best match and moves that entry to the back.
    pub get-answers :
        (now : ℕ) (v unit : List F32) (c : BundleCache f Bundle)
        → length v ≡ c.dim
        → unit_normalise f Bundle v ≡ some unit
        → let r = Cache.get f Bundle now v c in
          IsMissed (expire f Bundle now c) unit r ⊎ IsServed (expire f Bundle now c) unit r
    unfolding Cache.get look_up
    get-answers now v unit c size normal =
        let same : (length v == c.dim) ≡ true = ground (arith, size) in
        rw (same, normal) (touch-answers (expire f Bundle now c) unit)

    expire_entries-append :
        (ttl now : ℕ) (es : List (Entry f Bundle)) (e : Entry f Bundle)
        → is_stale f Bundle ttl now e ≡ false
        → (kept : List (Entry f Bundle)) × (expire_entries f Bundle ttl now (es ++ e ∷ [])
            ≡ kept ++ e ∷ [])
    unfolding expire_entries
    expire_entries-append ttl now [] e h = ([], ground (arith, h))
    expire_entries-append ttl now (x ∷ es) e h =
        let (kept, same) = expire_entries-append ttl now es e h in
        elim (Bool-cases (is_stale f Bundle ttl now x)) [
          | inl stale ↦ (kept, rw stale same)
          | inr fresh ↦ (x ∷ es, rw fresh refl)
        ]

    last-is :
        (es : List (Entry f Bundle)) (e : Entry f Bundle) (P : Entry f Bundle → Type 0)
        → All P (es ++ e ∷ [])
        → P e
    last-is [] e P a = a.0
    last-is (x ∷ es) e P a = last-is es e P a.1

    -- An embedding that was inserted is found again until its time is over, whatever the cache held
    -- before, if it is close enough to itself: `get` then returns a bundle.
    pub get-insert :
        (now stamp later : ℕ) (v unit : List F32) (b : Bundle) (c : BundleCache f Bundle)
        → length v ≡ c.dim
        → unit_normalise f Bundle v ≡ some unit
        → ge (dot f Bundle unit unit) c.hit_threshold ≡ true
        → later ≤ stamp + c.ttl
        → (Cache.get f Bundle later v (Cache.insert f Bundle now stamp v b c)).0 ≢ none
    unfolding Cache.insert push is_stale
    get-insert now stamp later v unit b c size normal near soon miss =
        let c1 = push f Bundle now stamp b c (some unit) in
        let same : (length v == c.dim) ≡ true = ground (arith, size) in
        let inserted : Cache.insert f Bundle now stamp v b c ≡ c1 = rw (same, normal) refl in
        let missed : (Cache.get f Bundle later v c1).0 ≡ none = rw (sym inserted) miss in
        unfold expire in
        elim (get-answers later v unit c1 size normal) [
          | inr hit ↦ absurd (cc (missed, hit.returned))
          | inl far ↦
              let e : Entry f Bundle = record {
                centre_unit = unit;
                bundle = b;
                inserted_at = stamp;
              } in
              let (kept, is) =
                expire_entries-append c.ttl later
                  (evict f Bundle c.capacity (expire f Bundle now c).entries) e
                  (ground (arith, soon)) in
              absurd (
                cc (
                  near,
                  last-is kept e (IsFar f Bundle c.hit_threshold unit) (rw (sym is) far.far),
                ))
        ]
