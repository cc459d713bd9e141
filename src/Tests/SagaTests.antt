-- ===== src/Tests/SagaTests.antt =====
-- The theorems on the build of a saga, with thousandths as floats and a counter as the generator.
use hansa.Prelude.{
  ℕ, zero, suc, ◌+◌, ◌%◌, ◌<◌, ◌≡◌, refl, ◌⊎◌, inl, inr, true, false, ◌&&◌, none, some, List, [],
  ◌∷◌, arith, ltb, leb, ◌==◌, if◌then◌else◌, lt→ltb, All,
}
use hansa.Floats.{thousandths}
use hansa.Text.{codes}
use hansa.Panics.{Returns}
use hansa.Saga.KMeans.{Rng, squared_distance, distance_from, total_of, is_nothing}
use hansa.Saga.Seeds.{IsDrawing, IsSummable}
use hansa.Saga.Build.{
  build_saga_from_tenant, reservoir_sample, cluster, aggregate_top_tags, count_tags, to_aggregates,
}
use hansa.Saga.Whole
use hansa.Background.{
  BackgroundRefreshConfig, Wake, Refresh, running, start_background_refresh, run, wake, is_due,
  threshold, keep_saga,
}
use hansa.Background.Wakes
use hansa.Prelude.Sort.{sort_by}
use hansa.Saga.Whole.{IsDigest, IsFit}

abbrev pub counter : Rng thousandths
counter = record {
  State = ℕ;
  seed_from_u64 = λ seed. seed;
  below = λ n s. if n == 0 then none else some (s % n, s + 1);
  below_float = λ total s. if total == 0 then none else some (s % total, s + 1);
}

suc_is_not_zero : (n : ℕ) → (suc n == 0) ≡ false
suc_is_not_zero n = ground arith

below_is_in_range : (n s : ℕ) → 0 < n → Returns {A = ℕ × ℕ} (λ r. r.0 < n) (counter.below n s)
below_is_in_range zero s h = absurd (omega (arith, h))
below_is_in_range (suc n) s h = rw (suc_is_not_zero n, Returns) (omega arith)

float_is_drawn :
    (total s : ℕ)
    → ltb 0 total ≡ true
    → Returns {A = ℕ × ℕ} (λ r. Unit {0}) (counter.below_float total s)
float_is_drawn zero s h = absurd (cc)
float_is_drawn (suc total) s h = rw (suc_is_not_zero total, Returns) tt

pub counter-IsDrawing : IsDrawing thousandths counter
counter-IsDrawing = record {
  below_returns = below_is_in_range;
  below_float_returns = λ total s positive finite. float_is_drawn total s positive;
}

nothing_or_more : (total : ℕ) → (leb total 0 && leb 0 total ≡ true) ⊎ (ltb 0 total ≡ true)
nothing_or_more zero = inl refl
nothing_or_more (suc total) = inr (lt→ltb 0 (suc total) (omega arith))

pub thousandths-IsSummable : IsSummable thousandths
thousandths-IsSummable = record {
  sums =
      λ dists modest. (refl, unfold is_nothing in nothing_or_more (total_of thousandths 0 dists));
}

abbrev vectors : List (List ℕ)
vectors = (0 ∷ 1000 ∷ []) ∷ (100 ∷ 900 ∷ []) ∷ (2000 ∷ 0 ∷ []) ∷ []

abbrev Fits : List ℕ → Type 0
Fits = IsFit thousandths counter counter-IsDrawing thousandths-IsSummable 2 vectors

vectors_fit : All Fits vectors
unfolding squared_distance distance_from
vectors_fit = (
  (refl, ((refl, refl), ((refl, refl), ((refl, refl), tt)))),
  (
    (refl, ((refl, refl), ((refl, refl), ((refl, refl), tt)))),
    ((refl, ((refl, refl), ((refl, refl), ((refl, refl), tt)))), tt),
  ),
)

build_saga_from_tenant-IsDigest_example :
    Returns (IsDigest thousandths counter counter-IsDrawing thousandths-IsSummable 2 3 3) (
      build_saga_from_tenant thousandths counter
        (7 ∷ [])
        2
        3
        vectors
        (codes "x" ∷ codes "y" ∷ codes "x" ∷ [])
        5
        1)
build_saga_from_tenant-IsDigest_example =
    Whole.build_saga_from_tenant-IsDigest thousandths counter counter-IsDrawing
      thousandths-IsSummable 2 (7 ∷ []) 3 vectors (codes "x" ∷ codes "y" ∷ codes "x" ∷ []) 5 1
      vectors_fit

abbrev config : BackgroundRefreshConfig thousandths
config = record { interval = 30; threshold_ratio = 100; min_growth = 1; seed_for_kmeans = 0 }

-- A tenant of that many records, none of which has a vector.
abbrev seen : ℕ → Wake thousandths
seen count = record {
  stopped = false;
  record_count = count;
  embedding_dim = 2;
  vectors = [];
  tags = [];
  now = 8;
  written = true;
}

abbrev rebuilt : Refresh thousandths
rebuilt = record {
  last_built = 5;
  file = some (record {
    tenant_id = 7 ∷ [];
    built_at = 8;
    record_count = 5;
    embedding_dim = 2;
    centroids = [];
    tags = [];
  });
}

grows :
    start_background_refresh thousandths counter (7 ∷ []) config 3 none (seen 3 ∷ seen 5 ∷ [])
    ≡ running rebuilt
unfolding start_background_refresh run wake is_due threshold keep_saga build_saga_from_tenant
    reservoir_sample cluster aggregate_top_tags count_tags to_aggregates sort_by
grows = refl

start_background_refresh_leaves_nothing_due_example :
    is_due thousandths config rebuilt.last_built 5 ≡ false
start_background_refresh_leaves_nothing_due_example =
    Wakes.start_background_refresh_leaves_nothing_due thousandths counter (7 ∷ []) config 3 none
      (seen 3 ∷ []) (seen 5) rebuilt (omega arith) refl grows
