-- ===== src/Saga/Build.antt =====
-- crates/hansa/src/saga/build.rs: the sampler, the tag counts and `build_saga_from_tenant`. Vectors and tags
-- are the lists of what their iterators give.
use hansa.Prelude.{
  ℕ, ◌+◌, min, max, Bool, true, false, ◌&&◌, ◌||◌, Option, none, some, List, [], ◌∷◌, ◌++◌, ltb,
  leb, ◌==◌, if◌then◌else◌, length, take, modify,
}
use hansa.Prelude.Bytes.{Bytes, lt_bytes}
use hansa.Prelude.Assoc.{Assoc, lookup, insert}
use hansa.Prelude.Sort.{sort_by}
use hansa.Floats.{Floats}
use hansa.Panics.{◌>>=◌}
use hansa.Saga.{Saga, Centroid, TagAggregate}
use hansa.Saga.KMeans.{Rng, kmeans_lloyd}

abbrev pub reservoir_sample_size : ℕ
reservoir_sample_size = 10_000

abbrev pub top_tags : ℕ
top_tags = 10

unfoldable pub default_k_for : ℕ → ℕ
default_k_for n =
    if leb n 999 then 16 else if leb n 9_999 then 32 else if leb n 99_999 then 64 else 128

abbrev or_zero : Option ℕ → ℕ
or_zero none = 0
or_zero (some n) = n

unfoldable pub count_tags : List Bytes → Assoc ℕ → Assoc ℕ
count_tags [] counts = counts
count_tags (t ∷ tags) counts = count_tags tags (insert t (or_zero (lookup t counts) + 1) counts)

module _ (f : Floats) where
  unfoldable pub to_aggregates : Assoc ℕ → List (TagAggregate f)
  to_aggregates [] = []
  to_aggregates ((tag, count) ∷ counts) = record { count = count; tag = tag } ∷ to_aggregates counts

  unfoldable pub before_tag : TagAggregate f → TagAggregate f → Bool
  before_tag a b = ltb b.count a.count || (a.count == b.count && lt_bytes a.tag b.tag)

  unfoldable pub aggregate_top_tags : List Bytes → List (TagAggregate f)
  unfolding count_tags to_aggregates before_tag
  aggregate_top_tags tags = take top_tags (sort_by before_tag (to_aggregates (count_tags tags [])))

  module _ (g : Rng f) where
    open g use {State, seed_from_u64, below}

    -- One vector of `reservoir_sample`, the `seen`th.
    unfoldable pub offer :
        ℕ → ℕ → List f.F32 → List (List f.F32) × State → Option (List (List f.F32) × State)
    offer target seen v (out, s) = elim (ltb (length out) target) [
      | true ↦ some (out ++ (v ∷ []), s)
      | false ↦ below (seen + 1) s >>= λ (j, s').
          some (if ltb j target then modify j (λ old. v) out else out, s')
    ]

    unfoldable pub reservoir_sample :
        ℕ → ℕ → List (List f.F32) → List (List f.F32) × State → Option (List (List f.F32) × State)
    unfolding offer
    reservoir_sample target seen [] kept = some kept
    reservoir_sample target seen (v ∷ src) kept = do
      kept' ← offer target seen v kept
      reservoir_sample target (seen + 1) src kept'

    -- The centroids of the sample: none of an empty one.
    unfoldable pub cluster : ℕ → ℕ → List (List f.F32) → State → Option (List (Centroid f) × State)
    unfolding kmeans_lloyd
    cluster k dim [] s = some ([], s)
    cluster k dim (v ∷ sample) s = kmeans_lloyd f g (v ∷ sample) k dim s

    unfoldable pub build_saga_from_tenant :
        Bytes → ℕ → ℕ → List (List f.F32) → List Bytes → ℕ → ℕ → Option (Saga f)
    unfolding reservoir_sample cluster default_k_for aggregate_top_tags
    build_saga_from_tenant tenant_id embedding_dim record_count vectors tags built_at seed = do
      (sample, s) ← reservoir_sample reservoir_sample_size 0 vectors ([], seed_from_u64 seed)
      let k = min (default_k_for record_count) (max (length sample) 1)
      (centroids, s') ← cluster k embedding_dim sample s
      some (record {
        tenant_id = tenant_id;
        built_at = built_at;
        record_count = record_count;
        embedding_dim = embedding_dim;
        centroids = centroids;
        tags = aggregate_top_tags tags;
      })
