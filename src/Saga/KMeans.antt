-- ===== src/Saga/KMeans.antt =====
-- crates/hansa/src/saga/build.rs: k-means++ and Lloyd's iterations. An index out of bounds and an empty
-- or unbounded range to draw from are panics. `rand` is the parameter `Rng`.
use hansa.Prelude.{
  ℕ, zero, suc, ◌+◌, ◌-◌, min, Bool, true, false, ◌&&◌, Option, none, some, List, [], ◌∷◌, ◌++◌,
  ◌==◌, if◌then◌else◌, length, get_elem?,
}
use hansa.Floats.{Floats}
use hansa.Panics.{◌>>=◌, update_at, replicate}
use hansa.Saga.{Centroid}

-- `rng.random_range(0..n)` on whole numbers and `rng.random_range(0.0..total)` on floats.
pub record Rng (f : Floats) : Type 1 where
  pub State : Type 0
  pub seed_from_u64 : ℕ → State
  pub below : ℕ → State → Option (ℕ × State)
  pub below_float : f.F64 → State → Option (f.F64 × State)

abbrev pub kmeans_max_iter : ℕ
kmeans_max_iter = 20

module _ (f : Floats) where
  open f use {
    F32, F64, lt, infinity, of_u64, add, sub, mul, div, to_f64, of_u32, add64, div64, lt64, le64,
    is_finite64, infinity64, sub64, abs64, milli64,
  }

  -- The loop of `squared_distance`, at its sum.
  unfoldable pub distance_from : F32 → List F32 → List F32 → Option F32
  distance_from s [] b = some s
  distance_from s (x ∷ a) [] = none
  distance_from s (x ∷ a) (y ∷ b) = let d = sub x y in distance_from (add s (mul d d)) a b

  unfoldable pub squared_distance : List F32 → List F32 → Option F32
  unfolding distance_from
  squared_distance a b = distance_from (of_u64 0) a b

  -- The loop of `nearest_centroid`, at the centroids from position `i` on.
  unfoldable pub nearest_from : List F32 → ℕ → ℕ × F32 → List (List F32) → Option (ℕ × F32)
  unfolding squared_distance
  nearest_from point i best [] = some best
  nearest_from point i (best_idx, best_dist) (c ∷ centroids) = do
    d ← squared_distance point c
    nearest_from point (i + 1) (if lt d best_dist then (i, d) else (best_idx, best_dist)) centroids

  unfoldable pub nearest_centroid : List F32 → List (List F32) → Option (ℕ × F32)
  unfolding nearest_from
  nearest_centroid point centroids = nearest_from point 0 (0, infinity) centroids

  -- The assign step: the assignments and the inertia.
  unfoldable pub assign : List (List F32) → F64 → List (List F32) → Option (List ℕ × F64)
  unfolding nearest_centroid
  assign centroids inertia [] = some ([], inertia)
  assign centroids inertia (point ∷ sample) = do
    (best_idx, best_dist) ← nearest_centroid point centroids
    (assignments, total) ← assign centroids (add64 inertia (to_f64 best_dist)) sample
    some (best_idx ∷ assignments, total)

  unfoldable pub rel_change : F64 → F64 → F64
  rel_change prev_inertia inertia =
      if is_finite64 prev_inertia && lt64 (of_u32 0) prev_inertia
      then div64 (abs64 (sub64 prev_inertia inertia)) prev_inertia
      else infinity64

  -- `for d in 0..dim { sums[c][d] += point[d]; }`
  unfoldable pub add_point : List F32 → List F32 → Option (List F32)
  add_point point [] = some []
  add_point [] (s ∷ sum) = none
  add_point (p ∷ point) (s ∷ sum) = do rest ← add_point point sum; some (add s p ∷ rest)

  -- The counts and sums of the update step.
  unfoldable pub accumulate :
      List ℕ → List (List F32) → List ℕ × List (List F32) → Option (List ℕ × List (List F32))
  unfolding add_point update_at
  accumulate [] sample (counts, sums) = some (counts, sums)
  accumulate (c ∷ assignments) [] (counts, sums) = some (counts, sums)
  accumulate (c ∷ assignments) (point ∷ sample) (counts, sums) = do
    counts' ← update_at c (λ n. some (n + 1)) counts
    sums' ← update_at c (add_point point) sums
    accumulate assignments sample (counts', sums')

  -- `for d in 0..dim { centroids[c][d] = sums[c][d] / denom; }`
  unfoldable pub average : F32 → List F32 → List F32 → Option (List F32)
  average denom [] centroid = some centroid
  average denom (s ∷ sum) [] = none
  average denom (s ∷ sum) (x ∷ centroid) = do
    rest ← average denom sum centroid
    some (div s denom ∷ rest)

  -- The loop over the clusters; an empty one stays where it was.
  unfoldable pub move_all : List ℕ → List (List F32) → List (List F32) → Option (List (List F32))
  unfolding average
  move_all [] sums centroids = some centroids
  move_all (n ∷ counts) [] centroids = none
  move_all (n ∷ counts) (sum ∷ sums) [] = none
  move_all (n ∷ counts) (sum ∷ sums) (c ∷ centroids) = do
    c' ← if n == 0 then some c else average (of_u64 n) sum c
    rest ← move_all counts sums centroids
    some (c' ∷ rest)

  unfoldable pub update_step :
      List (List F32) → ℕ → ℕ → List (List F32) → List ℕ → Option (List (List F32))
  unfolding accumulate move_all
  update_step sample k dim centroids assignments = do
    (counts, sums) ←
        accumulate assignments sample (replicate k 0, replicate k (replicate dim (of_u64 0)))
    move_all counts sums centroids

  -- The loop over `0..KMEANS_MAX_ITER`, with what it leaves of the centroids and the assignments.
  unfoldable pub iterate :
      List (List F32)
      → ℕ
      → ℕ
      → ℕ
      → List (List F32)
      → List ℕ
      → F64
      → Option (List (List F32) × List ℕ)
  unfolding assign rel_change update_step
  iterate sample k dim zero centroids assignments prev_inertia = some (centroids, assignments)
  iterate sample k dim (suc rounds) centroids assignments prev_inertia = do
    (assignments', inertia) ← assign centroids (of_u32 0) sample
    elim (lt64 (rel_change prev_inertia inertia) milli64) [
      | true ↦ some (centroids, assignments')
      | false ↦ update_step sample k dim centroids assignments' >>= λ centroids'.
          iterate sample k dim rounds centroids' assignments' inertia
    ]

  unfoldable pub count_all : List ℕ → List ℕ → Option (List ℕ)
  unfolding update_at
  count_all [] counts = some counts
  count_all (a ∷ assignments) counts = do
    counts' ← update_at a (λ n. some (n + 1)) counts
    count_all assignments counts'

  unfoldable pub zip_centroids : List (List F32) → List ℕ → List (Centroid f)
  zip_centroids (vector ∷ centroids) (size ∷ counts) =
      record { cluster_size = size; vector = vector } ∷ zip_centroids centroids counts
  zip_centroids centroids counts = []

  -- The first loop of a round of `kmeans_plus_plus_init`.
  unfoldable pub lower_dists : List F32 → List (List F32) → List F32 → Option (List F32)
  unfolding squared_distance
  lower_dists last [] dists = some dists
  lower_dists last (p ∷ sample) [] = none
  lower_dists last (p ∷ sample) (dist ∷ dists) = do
    d ← squared_distance p last
    rest ← lower_dists last sample dists
    some ((if lt d dist then d else dist) ∷ rest)

  unfoldable pub total_of : F64 → List F32 → F64
  total_of total [] = total
  total_of total (d ∷ dists) = total_of (add64 total (to_f64 d)) dists

  -- The position at which the threshold is used up, or zero.
  unfoldable pub choose : F64 → ℕ → List F32 → ℕ
  choose threshold i [] = 0
  choose threshold i (d ∷ dists) =
      let threshold' = sub64 threshold (to_f64 d) in
      let later = choose threshold' (i + 1) dists in if le64 threshold' (of_u32 0) then i else later

  -- `total == 0.0`
  unfoldable pub is_nothing : F64 → Bool
  is_nothing total = le64 total (of_u32 0) && le64 (of_u32 0) total

  module _ (g : Rng f) where
    open g use {State, below, below_float}

    -- What a round pushes: the last centroid again, or a vector drawn by its distance.
    unfoldable pub pick : List (List F32) → List F32 → List F32 → State → Option (List F32 × State)
    unfolding total_of choose is_nothing
    pick sample last dists s =
        let total = total_of (of_u32 0) dists in
        elim (is_nothing total) [
          | true ↦ some (last, s)
          | false ↦ below_float total s >>= λ (threshold, s').
              get_elem? sample (choose threshold 0 dists) >>= λ v. some (v, s')
        ]

    -- The loop while there are fewer than `k` centroids, a round of which adds one.
    unfoldable pub grow :
        ℕ
        → List (List F32)
        → List (List F32)
        → List F32
        → List F32
        → State
        → Option (List (List F32) × State)
    unfolding lower_dists pick
    grow zero sample centroids last dists s = some (centroids, s)
    grow (suc missing) sample centroids last dists s = do
      dists' ← lower_dists last sample dists
      (v, s') ← pick sample last dists' s
      grow missing sample (centroids ++ (v ∷ [])) v dists' s'

    unfoldable pub kmeans_plus_plus_init :
        List (List F32) → ℕ → State → Option (List (List F32) × State)
    unfolding grow
    kmeans_plus_plus_init sample k s = do
      (first, s') ← below (length sample) s
      v ← get_elem? sample first
      grow (k - 1) sample (v ∷ []) v (replicate (length sample) infinity) s'

    unfoldable pub kmeans_lloyd :
        List (List F32) → ℕ → ℕ → State → Option (List (Centroid f) × State)
    unfolding kmeans_plus_plus_init iterate count_all zip_centroids
    kmeans_lloyd sample k' dim s = do
      let k = min k' (length sample)
      (initial, s') ← kmeans_plus_plus_init sample k s
      (centroids, assignments) ←
          iterate sample k dim kmeans_max_iter initial (replicate (length sample) 0) infinity64
      counts ← count_all assignments (replicate k 0)
      some (zip_centroids centroids counts, s')
