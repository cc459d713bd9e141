-- ===== src/Saga/Whole.antt =====
-- The saga that `build_saga_from_tenant` returns, and that it returns one.
use hansa.Prelude.{
  ℕ, suc, ◌+◌, ◌≤◌, ◌<◌, min, max, ◌≡◌, refl, sym, ap, ◌∙◌, subst, inl, inr, some, List, [], ◌∷◌,
  map, arith, length, All, length-take, All-imp, Any,
}
use hansa.Floats.{Floats}
use hansa.Panics.{
  update_at, replicate, sum, Returns, Returns-bind, Returns-count_at, Returns-imp, length-replicate,
  All-replicate, sum-replicate,
}
use hansa.Saga.{Saga, Centroid}
use hansa.Saga.KMeans.{
  Rng, squared_distance, kmeans_plus_plus_init, iterate, count_all, zip_centroids, kmeans_lloyd,
  kmeans_max_iter,
}
use hansa.Saga.Lloyd.{HasDim, IsPartition, Returns-iterate}
use hansa.Saga.Seeds.{IsDrawing, IsModest, IsSummable, IsNear, Returns-init}
use hansa.Prelude.Sort.{sort_by}
use hansa.Saga.Sampled.{Returns-reservoir_sample}
use hansa.Saga.Build.{
  before_tag, to_aggregates, count_tags, reservoir_sample_size, top_tags, default_k_for,
  reservoir_sample, cluster, build_saga_from_tenant, aggregate_top_tags,
}
use hansa.Prelude.Bytes.{Bytes}

module _ (f : Floats) where
  open f use {F32, infinity, infinity64}

  Returns-count_all :
      (k : ℕ) (assignments counts : List ℕ)
      → All (λ a. a < k) assignments
      → length counts ≡ k
      → Returns
          (λ r. (length r ≡ k) × (sum r ≡ sum counts + length assignments))
          (count_all f assignments counts)
  unfolding count_all
  Returns-count_all k [] counts below size = (size, omega arith)
  Returns-count_all k (a ∷ assignments) counts below size =
      Returns-bind (λ ys. (length ys ≡ length counts) × (sum ys ≡ sum counts + 1))
        (λ r. (length r ≡ k) × (sum r ≡ sum counts + length (a ∷ assignments)))
        (update_at a (λ n. some (n + 1)) counts) _
        (Returns-count_at a counts (omega (arith, below.0, size)))
        (λ counts' more.
          Returns-imp _ _ (count_all f assignments counts')
            (λ r good. (good.0, omega (arith, good.1, more.1)))
            (Returns-count_all k assignments counts' below.1 (more.0 ∙ size)))

  abbrev pub sizes_of : List (Centroid f) → List ℕ
  sizes_of centroids = map (λ c. c.cluster_size) centroids

  length-aggregate_top_tags : (tags : List Bytes) → length (aggregate_top_tags f tags) ≤ top_tags
  unfolding aggregate_top_tags
  length-aggregate_top_tags tags =
      omega (
        arith,
        length-take top_tags (sort_by (before_tag f) (to_aggregates f (count_tags tags []))),
      )

  -- `k` centroids of the dimension, whose clusters share out `n` vectors.
  abbrev pub AreClusters : ℕ → ℕ → ℕ → List (Centroid f) → Type 0
  AreClusters dim k n centroids =
      (length centroids ≡ k)
      × All (λ c. length c.vector ≡ dim) centroids
      × (sum (sizes_of centroids) ≡ n)

  zip_centroids-AreClusters :
      (dim : ℕ) (centroids : List (List F32)) (counts : List ℕ)
      → All (HasDim f dim) centroids
      → length counts ≡ length centroids
      → AreClusters dim (length centroids) (sum counts) (zip_centroids f centroids counts)
  unfolding zip_centroids
  zip_centroids-AreClusters dim [] [] good same = (refl, tt, refl)
  zip_centroids-AreClusters dim [] (n ∷ counts) good same = absurd (omega (arith, same))
  zip_centroids-AreClusters dim (v ∷ centroids) [] good same = absurd (omega (arith, same))
  zip_centroids-AreClusters dim (v ∷ centroids) (n ∷ counts) good same =
      let rest = zip_centroids-AreClusters dim centroids counts good.1 (omega (arith, same)) in
      (ap suc rest.0, (good.0, rest.1), omega (arith, rest.2))

  module _ (g : Rng f) (drawing : IsDrawing f g) (summable : IsSummable f) (dim : ℕ) where
    open g use {State, below, seed_from_u64}

    -- Of the dimension, and at a modest distance from each of the vectors.
    abbrev pub IsFit : List (List F32) → List F32 → Type 0
    IsFit vectors v = (length v ≡ dim) × IsNear f summable vectors v

    Returns-kmeans_lloyd :
        (sample : List (List F32)) (k : ℕ) (s : State)
        → All (IsFit sample) sample
        → 0 < k
        → 0 < length sample
        → Returns
            (λ r. AreClusters dim (min k (length sample)) (length sample) r.0)
            (kmeans_lloyd f g sample k dim s)
    unfolding kmeans_lloyd
    Returns-kmeans_lloyd sample k' s fit wanted some_there =
        let k = min k' (length sample) in
        let n = length sample in
        let sized = All-imp (IsFit sample) (HasDim f dim) (λ v h. h.0) sample fit in
        Returns-bind (λ r. (length r.0 ≡ k) × All (IsFit sample) r.0) (λ r. AreClusters dim k n r.0)
          (kmeans_plus_plus_init f g sample k s) _
          (Returns-init f summable sample g drawing (IsFit sample) fit (λ v h. h.1) k s
            (omega arith) some_there)
          (λ (initial, s') seeds.
            Returns-bind (IsPartition f dim sample sized k) (λ r. AreClusters dim k n r.0)
              (iterate f sample k dim kmeans_max_iter initial (replicate n 0) infinity64) _
              (Returns-iterate f dim sample sized k (omega arith) kmeans_max_iter initial
                (replicate n 0) infinity64
                (seeds.0, All-imp (IsFit sample) (HasDim f dim) (λ v h. h.0) initial seeds.1)
                (length-replicate n 0, All-replicate (λ a. a < k) n 0 (omega arith)))
              (λ (centroids, assignments) part.
                Returns-bind
                  (λ r. (length r ≡ k) × (sum r ≡ sum (replicate k 0) + length assignments))
                  (λ r. AreClusters dim k n r.0) (count_all f assignments (replicate k 0)) _
                  (Returns-count_all k assignments (replicate k 0) part.1.1 (length-replicate k 0))
                  (λ counts counted.
                    let all =
                      zip_centroids-AreClusters dim centroids counts part.0.1
                        (counted.0 ∙ sym part.0.0) in
                    (
                      all.0 ∙ part.0.0,
                      all.1,
                      omega (arith, all.2, counted.1, sum-replicate k, part.1.0),
                    ))))

    Returns-cluster :
        (sample : List (List F32)) (k : ℕ) (s : State)
        → All (IsFit sample) sample
        → 0 < k
        → Returns
            (λ r. AreClusters dim (min k (length sample)) (length sample) r.0)
            (cluster f g k dim sample s)
    unfolding cluster
    Returns-cluster [] k s fit wanted = (omega arith, tt, refl)
    Returns-cluster (v ∷ sample) k s fit wanted =
        Returns-kmeans_lloyd (v ∷ sample) k s fit wanted (omega arith)

    -- What a saga has to be: the clusters of a sample of at most ten thousand of the vectors, as many as the
    -- schedule and the sample allow, and at most ten tags.
    abbrev pub IsDigest : ℕ → ℕ → Saga f → Type 0
    IsDigest record_count n saga =
        AreClusters dim (min (default_k_for record_count) (min reservoir_sample_size n))
          (min reservoir_sample_size n) saga.centroids
        × (length saga.tags ≤ top_tags)

    default_k_for_positive : (n : ℕ) → 0 < default_k_for n
    unfolding default_k_for
    default_k_for_positive n = ground arith

    -- A vector is one of the vectors.
    abbrev Stands : List (List F32) → List F32 → Type 0
    Stands vectors v = Any (λ u. u ≡ v) vectors

    vectors-Stands : (vectors : List (List F32)) → All (Stands vectors) vectors
    vectors-Stands [] = tt
    vectors-Stands (v ∷ vectors) = (
      inl refl,
      All-imp (Stands vectors) (Stands (v ∷ vectors)) (λ u h. inr h) vectors
          (vectors-Stands vectors),
    )

    Stands-holds :
        (Holds : List F32 → Type 0) (vectors : List (List F32)) (v : List F32)
        → All Holds vectors
        → Stands vectors v
        → Holds v
    Stands-holds Holds [] v all h = absurd h
    Stands-holds Holds (u ∷ vectors) v all (inl same) = subst Holds same all.0
    Stands-holds Holds (u ∷ vectors) v all (inr h) = Stands-holds Holds vectors v all.1 h

    sample-IsFit :
        (vectors sample : List (List F32))
        → All (IsFit vectors) vectors
        → All (Stands vectors) sample
        → All (IsFit sample) sample
    sample-IsFit vectors sample fit stands =
        All-imp (Stands vectors) (IsFit sample)
          (λ v there.
            let good = Stands-holds (IsFit vectors) vectors v fit there in
            (
              good.0,
              All-imp (Stands vectors) (λ p. Returns (IsModest f) (squared_distance f p v))
                  (λ p here.
                    Stands-holds (λ q. Returns (IsModest f) (squared_distance f q v)) vectors p
                      good.1 here)
                  sample stands,
            ))
          sample stands

    -- On vectors of the dimension of which every two are at a squared distance that is a finite number and not
    -- below zero, the build does not panic, and the saga that it returns has as many centroids as
    -- the schedule and the sample allow, all of the dimension, clusters that share out the sample of at
    -- most ten thousand vectors, and at most ten tags.
    pub build_saga_from_tenant-IsDigest :
        (tenant_id : Bytes) (record_count : ℕ) (vectors : List (List F32)) (tags : List Bytes)
        (built_at seed : ℕ)
        → All (IsFit vectors) vectors
        → Returns
            (IsDigest record_count (length vectors))
            (build_saga_from_tenant f g tenant_id dim record_count vectors tags built_at seed)
    unfolding build_saga_from_tenant
    build_saga_from_tenant-IsDigest tenant_id record_count vectors tags built_at seed fit =
        let target = reservoir_sample_size in
        let d = default_k_for record_count in
        Returns-bind
          (λ r. (length r.0 ≡ min target (0 + length vectors)) × All (Stands vectors) r.0)
          (IsDigest record_count (length vectors))
          (reservoir_sample f g target 0 vectors ([], seed_from_u64 seed)) _
          (Returns-reservoir_sample f g drawing (Stands vectors) target 0 vectors []
            (seed_from_u64 seed) (vectors-Stands vectors) tt (omega arith))
          (λ (sample, s) sampled.
            let k = min d (max (length sample) 1) in
            Returns-bind (λ r. AreClusters dim (min k (length sample)) (length sample) r.0)
              (IsDigest record_count (length vectors)) (cluster f g k dim sample s) _
              (Returns-cluster sample k s (sample-IsFit vectors sample fit sampled.1)
                (omega (arith, default_k_for_positive record_count)))
              (λ (centroids, s') clusters. (
                (
                  omega (arith, clusters.0, sampled.0),
                  clusters.1,
                  omega (arith, clusters.2, sampled.0),
                ),
                length-aggregate_top_tags tags,
              )))
