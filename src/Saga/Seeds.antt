-- ===== src/Saga/Seeds.antt =====
-- The k-means++ start does not panic on vectors that are not too far apart, and gives `k` of them.
use hansa.Prelude.{
  ℕ, zero, suc, ◌+◌, ◌-◌, ◌<◌, ◌≡◌, refl, ap, subst, ◌⊎◌, inl, inr, true, some, List, [], ◌∷◌, ◌++◌,
  arith, if◌then◌else◌, Bool-cases, if_both, length, get_elem?, length-append, All, All-append,
  All-imp,
}
use hansa.Floats.{Floats}
use hansa.Panics.{
  ◌>>=◌, replicate, Returns, Returns-bind, Returns-get_elem?, length-replicate, All-replicate,
}
use hansa.Saga.KMeans.{
  Rng, squared_distance, lower_dists, total_of, choose, is_nothing, pick, grow,
  kmeans_plus_plus_init,
}

-- What `rand` documents: a draw from a range that is neither empty nor unbounded returns, a whole number below
-- the bound.
pub record IsDrawing (f : Floats) (g : Rng f) : Type 0 where
  pub below_returns : (n : ℕ) (s : g.State) → 0 < n → Returns (λ r. r.0 < n) (g.below n s)
  pub below_float_returns :
      (total : f.F64) (s : g.State)
      → f.lt64 (f.of_u32 0) total ≡ true
      → f.is_finite64 total ≡ true
      → Returns (λ r. Unit {0}) (g.below_float total s)

-- A squared distance that is a number, and not an infinite one.
abbrev pub IsModest : (f : Floats) → f.F32 → Type 0
IsModest f d = (f.lt d f.infinity ≡ true) × (f.ge d (f.of_u64 0) ≡ true)

-- What IEEE 754 gives of the sum, as an `f64`, of such `f32`s: it is finite, and zero or above it.
pub record IsSummable (f : Floats) : Type 0 where
  pub sums :
      (dists : List f.F32)
      → All (IsModest f) dists
      → (f.is_finite64 (total_of f (f.of_u32 0) dists) ≡ true)
        × ((is_nothing f (total_of f (f.of_u32 0) dists) ≡ true)
            ⊎ (f.lt64 (f.of_u32 0) (total_of f (f.of_u32 0) dists) ≡ true))

module _ (f : Floats) (summable : IsSummable f) (sample : List (List f.F32)) where
  open f use {F32, F64, lt, infinity, to_f64, of_u32, sub64, le64, lt64}

  -- Every vector of the sample is at a modest distance.
  abbrev pub IsNear : List F32 → Type 0
  IsNear v = All (λ p. Returns (IsModest f) (squared_distance f p v)) sample

  abbrev AreDists : List F32 → Type 0
  AreDists dists = (length dists ≡ length sample) × All (IsModest f) dists

  choose_lem :
      (threshold : F64) (i : ℕ) (dists : List F32)
      → (choose f threshold i dists ≡ 0) ⊎ (choose f threshold i dists < i + length dists)
  unfolding choose
  choose_lem threshold i [] = inl refl
  choose_lem threshold i (d ∷ dists) =
      elim (Bool-cases (le64 (sub64 threshold (to_f64 d)) (of_u32 0))) [
        | inl e ↦ rw e (inr (omega arith))
        | inr e ↦ rw e (elim (choose_lem (sub64 threshold (to_f64 d)) (i + 1) dists) [
          | inl nothing ↦ inl nothing
          | inr found ↦ inr (omega (arith, found))
        ])
      ]

  Returns-lower_dists :
      (last : List F32) (points : List (List F32)) (dists : List F32)
      → All (λ p. Returns (IsModest f) (squared_distance f p last)) points
      → length dists ≡ length points
      → All (λ d. (d ≡ infinity) ⊎ IsModest f d) dists
      → Returns
          (λ r. (length r ≡ length points) × All (IsModest f) r)
          (lower_dists f last points dists)
  unfolding lower_dists
  Returns-lower_dists last [] [] near h all = (refl, tt)
  Returns-lower_dists last [] (d ∷ dists) near h all = absurd (omega (arith, h))
  Returns-lower_dists last (p ∷ points) [] near h all = absurd (omega (arith, h))
  Returns-lower_dists last (p ∷ points) (dist ∷ dists) near h all =
      Returns-bind (IsModest f) (λ r. (length r ≡ length (p ∷ points)) × All (IsModest f) r)
        (squared_distance f p last) _ near.0
        (λ d modest.
          Returns-bind (λ r. (length r ≡ length points) × All (IsModest f) r)
            (λ r. (length r ≡ length (p ∷ points)) × All (IsModest f) r)
            (lower_dists f last points dists) _
            (Returns-lower_dists last points dists near.1 (omega (arith, h)) all.1)
            (λ rest good. (ap suc good.0, (lowered d dist modest all.0, good.1))))
    where
      lowered :
          (d dist : F32)
          → IsModest f d
          → (dist ≡ infinity) ⊎ IsModest f dist
          → IsModest f (if lt d dist then d else dist)
      lowered d dist modest (inl far) = rw (far, modest.0) modest
      lowered d dist modest (inr known) = if_both (IsModest f) (lt d dist) modest known

  module _ (g : Rng f) (drawing : IsDrawing f g) (Holds : List F32 → Type 0)
      (all : All Holds sample) where
    open g use {State, below_float}

    -- Vectors that the sample holds.
    Returns-draw :
        (dists : List F32) (s : State)
        → 0 < length sample
        → AreDists dists
        → lt64 (of_u32 0) (total_of f (of_u32 0) dists) ≡ true
        → Returns {A = List F32 × State}
            (λ r. Holds r.0)
            (below_float (total_of f (of_u32 0) dists) s >>= λ (threshold, s').
              get_elem? sample (choose f threshold 0 dists) >>= λ v. some (v, s'))
    Returns-draw dists s some_there known positive =
        Returns-bind (λ r. Unit {0}) (λ r. Holds r.0) (below_float (total_of f (of_u32 0) dists) s)
          _
          (drawing.below_float_returns (total_of f (of_u32 0) dists) s positive
            (summable.sums dists known.1).0)
          (λ (threshold, s') drawn.
            Returns-bind Holds (λ r. Holds r.0) (get_elem? sample (choose f threshold 0 dists))
              (λ v. some (v, s'))
              (Returns-get_elem? Holds sample (choose f threshold 0 dists) all
                (in_range threshold (choose_lem threshold 0 dists)))
              (λ v good. good))
      where
        in_range :
            (threshold : F64)
            → (choose f threshold 0 dists ≡ 0) ⊎ (choose f threshold 0 dists < 0 + length dists)
            → choose f threshold 0 dists < length sample
        in_range threshold (inl first) = omega (arith, first, some_there)
        in_range threshold (inr within) = omega (arith, within, known.0)

    Returns-pick :
        (last : List F32) (dists : List F32) (s : State)
        → Holds last
        → 0 < length sample
        → AreDists dists
        → Returns (λ r. Holds r.0) (pick f g sample last dists s)
    unfolding pick is_nothing
    Returns-pick last dists s good some_there known =
        elim (Bool-cases (is_nothing f (total_of f (of_u32 0) dists))) [
          | inl e ↦ rw (e, Returns) good
          | inr e ↦
              rw (e, Returns)
                (elim (summable.sums dists known.1).1 [
                  | inl nothing ↦ absurd (cc)
                  | inr positive ↦ Returns-draw dists s some_there known positive
                ])
        ]

    -- A round adds a vector of the sample.
    abbrev pub AreSeeds : ℕ → List (List F32) × State → Type 0
    AreSeeds k r = (length r.0 ≡ k) × All Holds r.0

    Returns-grow :
        ((v : List F32) → Holds v → IsNear v)
        → (missing : ℕ) (centroids : List (List F32)) (last : List F32) (dists : List F32)
          (s : State)
        → 0 < length sample
        → All Holds centroids
        → Holds last
        → length dists ≡ length sample
        → All (λ d. (d ≡ infinity) ⊎ IsModest f d) dists
        → Returns
            (AreSeeds (length centroids + missing))
            (grow f g missing sample centroids last dists s)
    unfolding grow
    Returns-grow near zero centroids last dists s some_there good holds sized known =
        (omega arith, good)
    Returns-grow near (suc missing) centroids last dists s some_there good holds sized known =
        Returns-bind AreDists (AreSeeds (length centroids + suc missing))
          (lower_dists f last sample dists) _
          (Returns-lower_dists last sample dists (near last holds) sized known)
          (λ dists' lowered.
            Returns-bind (λ r. Holds r.0) (AreSeeds (length centroids + suc missing))
              (pick f g sample last dists' s) _
              (Returns-pick last dists' s holds some_there lowered)
              (λ (v, s') picked.
                let longer : length (centroids ++ (v ∷ [])) + missing
                    ≡ length centroids + suc missing =
                  omega (arith, length-append centroids (v ∷ [])) in
                subst
                  (λ n.
                    Returns (AreSeeds n)
                      (grow f g missing sample (centroids ++ (v ∷ [])) v dists' s'))
                  longer
                  (Returns-grow near missing (centroids ++ (v ∷ [])) v dists' s' some_there
                    (All-append Holds centroids (v ∷ []) good (picked, tt)) picked lowered.0
                    (All-imp (IsModest f) (λ d. (d ≡ infinity) ⊎ IsModest f d) (λ d m. inr m) dists'
                      lowered.1))))

    pub Returns-init :
        ((v : List F32) → Holds v → IsNear v)
        → (k : ℕ) (s : State) → 0 < k
        → 0 < length sample
        → Returns (AreSeeds k) (kmeans_plus_plus_init f g sample k s)
    unfolding kmeans_plus_plus_init
    Returns-init near k s wanted some_there =
        Returns-bind (λ r. r.0 < length sample) (AreSeeds k) (g.below (length sample) s) _
          (drawing.below_returns (length sample) s some_there)
          (λ (first, s') within.
            Returns-bind Holds (AreSeeds k) (get_elem? sample first) _
              (Returns-get_elem? Holds sample first all within)
              (λ v good.
                let far = replicate (length sample) infinity in
                let whole : 1 + (k - 1) ≡ k = omega arith in
                subst (λ n. Returns (AreSeeds n) (grow f g (k - 1) sample (v ∷ []) v far s')) whole
                  (Returns-grow near (k - 1) (v ∷ []) v far s' some_there (good, tt) good
                    (length-replicate (length sample) infinity)
                    (All-replicate (λ d. (d ≡ infinity) ⊎ IsModest f d) (length sample) infinity
                      (inl refl)))))
