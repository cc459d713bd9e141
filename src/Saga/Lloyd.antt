-- ===== src/Saga/Lloyd.antt =====
-- Lloyd's iterations do not panic on vectors of one dimension, and keep as many centroids of it.
use hansa.Prelude.{
  ℕ, zero, suc, ◌+◌, ◌≤◌, ◌<◌, ◌≡◌, refl, sym, ap, ◌∙◌, subst, inl, inr, some, List, [], ◌∷◌, arith,
  ◌==◌, if◌then◌else◌, Bool-cases, if_both, length, All,
}
use hansa.Floats.{Floats}
use hansa.Panics.{
  update_at, sum, Returns-count_at, replicate, Returns, Returns-bind, Returns-update_at,
  length-replicate, All-replicate, Returns-imp,
}
use hansa.Saga.KMeans.{
  distance_from, squared_distance, nearest_from, nearest_centroid, assign, rel_change, add_point,
  accumulate, average, move_all, update_step, iterate,
}

module _ (f : Floats) (dim : ℕ) where
  open f use {
    F32, F64, lt, infinity, of_u64, add, sub, mul, div, to_f64, of_u32, add64, lt64, milli64,
  }

  abbrev pub HasDim : List F32 → Type 0
  HasDim v = length v ≡ dim

  Returns-distance_from :
      (s : F32) (a b : List F32)
      → length a ≡ length b
      → Returns (λ d. Unit {0}) (distance_from f s a b)
  unfolding distance_from
  Returns-distance_from s [] b h = tt
  Returns-distance_from s (x ∷ a) [] h = absurd (omega (arith, h))
  Returns-distance_from s (x ∷ a) (y ∷ b) h =
      Returns-distance_from (add s (mul (sub x y) (sub x y))) a b (omega (arith, h))

  Returns-nearest_from :
      (point : List F32) (bound i : ℕ) (best : ℕ × F32) (centroids : List (List F32))
      → HasDim point
      → All HasDim centroids
      → best.0 < bound
      → i + length centroids ≤ bound
      → Returns (λ r. r.0 < bound) (nearest_from f point i best centroids)
  unfolding nearest_from squared_distance
  Returns-nearest_from point bound i best [] size sizes below fits = below
  Returns-nearest_from point bound i (idx, dist) (c ∷ centroids) size sizes below fits =
      Returns-bind (λ d. Unit {0}) (λ r. r.0 < bound) (squared_distance f point c) _
        (Returns-distance_from (of_u64 0) point c (size ∙ sym sizes.0))
        (λ d known.
          Returns-nearest_from point bound (i + 1) (if lt d dist then (i, d) else (idx, dist))
            centroids size sizes.1
            (if_both {R = ℕ × F32} (λ r. r.0 < bound) (lt d dist) (omega (arith, fits)) below)
            (omega (arith, fits)))

  abbrev pub AreAssigned : ℕ → ℕ → List ℕ → Type 0
  AreAssigned k n assignments = (length assignments ≡ n) × All (λ a. a < k) assignments

  Returns-assign :
      (centroids : List (List F32)) (inertia : F64) (sample : List (List F32))
      → All HasDim centroids
      → 0 < length centroids
      → All HasDim sample
      → Returns
          (λ r. AreAssigned (length centroids) (length sample) r.0)
          (assign f centroids inertia sample)
  unfolding assign nearest_centroid
  Returns-assign centroids inertia [] sizes some_there h = (refl, tt)
  Returns-assign centroids inertia (point ∷ sample) sizes some_there h =
      let k = length centroids in
      Returns-bind (λ r. r.0 < k) (λ r. AreAssigned k (length (point ∷ sample)) r.0)
        (nearest_centroid f point centroids) _
        (Returns-nearest_from point k 0 (0, infinity) centroids h.0 sizes some_there (omega arith))
        (λ (idx, dist) below.
          Returns-bind (λ r. AreAssigned k (length sample) r.0)
            (λ r. AreAssigned k (length (point ∷ sample)) r.0)
            (assign f centroids (add64 inertia (to_f64 dist)) sample) _
            (Returns-assign centroids (add64 inertia (to_f64 dist)) sample sizes some_there h.1)
            (λ (rest, total) good. (ap suc good.0, (below, good.1))))

  Returns-add_point :
      (point sums : List F32)
      → length point ≡ length sums
      → Returns (λ r. length r ≡ length sums) (add_point f point sums)
  unfolding add_point
  Returns-add_point point [] h = refl
  Returns-add_point [] (s ∷ sums) h = absurd (omega (arith, h))
  Returns-add_point (p ∷ point) (s ∷ sums) h =
      Returns-bind (λ r. length r ≡ length sums) (λ r. length r ≡ length (s ∷ sums))
        (add_point f point sums) _ (Returns-add_point point sums (omega (arith, h)))
        (λ r same. ap suc same)

  -- `k` counts, and `k` sums of the dimension.
  abbrev AreSums : ℕ → List ℕ × List (List F32) → Type 0
  AreSums k r = (length r.0 ≡ k) × (length r.1 ≡ k) × All HasDim r.1

  Returns-accumulate :
      (k : ℕ) (assignments : List ℕ) (sample : List (List F32)) (counts : List ℕ)
      (sums : List (List F32))
      → All (λ a. a < k) assignments
      → All HasDim sample
      → AreSums k (counts, sums)
      → Returns (AreSums k) (accumulate f assignments sample (counts, sums))
  unfolding accumulate
  Returns-accumulate k [] sample counts sums below sizes good = good
  Returns-accumulate k (c ∷ assignments) [] counts sums below sizes good = good
  Returns-accumulate k (c ∷ assignments) (point ∷ sample) counts sums below sizes good =
      Returns-bind (λ ys. (length ys ≡ length counts) × (sum ys ≡ sum counts + 1)) (AreSums k)
        (update_at c (λ n. some (n + 1)) counts) _
        (Returns-count_at c counts (omega (arith, below.0, good.0)))
        (λ counts' more.
          Returns-bind (λ ys. (length ys ≡ length sums) × All HasDim ys) (AreSums k)
            (update_at c (add_point f point) sums) _
            (Returns-update_at HasDim c (add_point f point) sums
              (λ s size.
                Returns-imp _ HasDim (add_point f point s) (λ r same. same ∙ size)
                  (Returns-add_point point s (sizes.0 ∙ sym size)))
              good.2 (omega (arith, below.0, good.1)))
            (λ sums' sized.
              Returns-accumulate k assignments sample counts' sums' below.1 sizes.1
                (more.0 ∙ good.0, sized.0 ∙ good.1, sized.1)))

  Returns-average :
      (denom : F32) (sums centroid : List F32)
      → length sums ≡ length centroid
      → Returns (λ r. length r ≡ length centroid) (average f denom sums centroid)
  unfolding average
  Returns-average denom [] centroid h = refl
  Returns-average denom (s ∷ sums) [] h = absurd (omega (arith, h))
  Returns-average denom (s ∷ sums) (x ∷ centroid) h =
      Returns-bind (λ r. length r ≡ length centroid) (λ r. length r ≡ length (x ∷ centroid))
        (average f denom sums centroid) (λ rest. some (div s denom ∷ rest))
        (Returns-average denom sums centroid (omega (arith, h))) (λ r same. ap suc same)

  -- As many centroids as there were, all of the dimension.
  abbrev pub AreCentroids : ℕ → List (List F32) → Type 0
  AreCentroids k centroids = (length centroids ≡ k) × All HasDim centroids

  Returns-move_all :
      (counts : List ℕ) (sums centroids : List (List F32))
      → length counts ≡ length centroids
      → length sums ≡ length centroids
      → All HasDim sums
      → All HasDim centroids
      → Returns (AreCentroids (length centroids)) (move_all f counts sums centroids)
  unfolding move_all
  Returns-move_all [] sums centroids h k sized good = (refl, good)
  Returns-move_all (n ∷ counts) [] [] h k sized good = absurd (omega (arith, h))
  Returns-move_all (n ∷ counts) [] (c ∷ centroids) h k sized good = absurd (omega (arith, k))
  Returns-move_all (n ∷ counts) (s ∷ sums) [] h k sized good = absurd (omega (arith, h))
  Returns-move_all (n ∷ counts) (s ∷ sums) (c ∷ centroids) h k sized good =
      Returns-bind HasDim (AreCentroids (length (c ∷ centroids)))
        (if n == 0 then some c else average f (of_u64 n) s c) _
        (if_both (Returns HasDim) (n == 0) good.0 (
          Returns-imp _ HasDim (average f (of_u64 n) s c) (λ r same. same ∙ good.0)
            (Returns-average (of_u64 n) s c (sized.0 ∙ sym good.0))))
        (λ c' size.
          Returns-bind (AreCentroids (length centroids)) (AreCentroids (length (c ∷ centroids)))
            (move_all f counts sums centroids) (λ rest. some (c' ∷ rest))
            (Returns-move_all counts sums centroids (omega (arith, h)) (omega (arith, k)) sized.1
              good.1)
            (λ rest all. (ap suc all.0, (size, all.1))))

  module _ (sample : List (List F32)) (sizes : All HasDim sample) (k : ℕ) where
    Returns-update_step :
        (centroids : List (List F32)) (assignments : List ℕ)
        → AreCentroids k centroids
        → All (λ a. a < k) assignments
        → Returns (AreCentroids k) (update_step f sample k dim centroids assignments)
    unfolding update_step
    Returns-update_step centroids assignments good below =
        let zeros : HasDim (replicate dim (of_u64 0)) = length-replicate dim (of_u64 0) in
        Returns-bind (AreSums k) (AreCentroids k)
          (accumulate f assignments sample (replicate k 0, replicate k (replicate dim (of_u64 0))))
          _
          (Returns-accumulate k assignments sample (replicate k 0)
            (replicate k (replicate dim (of_u64 0))) below sizes
            (length-replicate k 0, length-replicate k _, All-replicate HasDim k _ zeros))
          (λ (counts, sums) sums_good.
            subst (λ n. Returns (AreCentroids n) (move_all f counts sums centroids)) good.0
              (Returns-move_all counts sums centroids (sums_good.0 ∙ sym good.0)
                (sums_good.1 ∙ sym good.0) sums_good.2 good.1))

    abbrev pub IsPartition : List (List F32) × List ℕ → Type 0
    IsPartition r = AreCentroids k r.0 × AreAssigned k (length sample) r.1

    pub Returns-iterate :
        0 < k
        → (rounds : ℕ) (centroids : List (List F32)) (assignments : List ℕ) (prev : F64)
        → AreCentroids k centroids
        → AreAssigned k (length sample) assignments
        → Returns IsPartition (iterate f sample k dim rounds centroids assignments prev)
    unfolding iterate
    Returns-iterate some_there zero centroids assignments prev good assigned = (good, assigned)
    Returns-iterate some_there (suc rounds) centroids assignments prev good assigned =
        Returns-bind (λ r. AreAssigned k (length sample) r.0) IsPartition
          (assign f centroids (of_u32 0) sample) _
          (subst
            (λ n.
              Returns (λ r. AreAssigned n (length sample) r.0)
                (assign f centroids (of_u32 0) sample))
            good.0
            (Returns-assign centroids (of_u32 0) sample good.1 (omega (arith, good.0, some_there))
              sizes))
          (λ (assignments', inertia) next.
            elim (Bool-cases (lt64 (rel_change f prev inertia) milli64)) [
              | inl e ↦ rw e (good, next)
              | inr e ↦ rw e (
                  Returns-bind (AreCentroids k) IsPartition
                    (update_step f sample k dim centroids assignments')
                    (λ centroids'. iterate f sample k dim rounds centroids' assignments' inertia)
                    (Returns-update_step centroids assignments' good next.1)
                    (λ centroids' more.
                      Returns-iterate some_there rounds centroids' assignments' inertia more next))
            ])
