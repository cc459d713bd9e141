-- ===== src/Saga/Sampled.antt =====
-- `reservoir_sample` returns as many vectors as there are or the target allows, all from the source.
use hansa.Prelude.{
  ℕ, ◌+◌, ◌<◌, min, ◌≡◌, ◌∙◌, inl, inr, false, List, [], ◌∷◌, arith, ltb, ltb→lt, Bool-cases,
  if_both, length, length-append, All, All-append, length-modify, All-modify,
}
use hansa.Floats.{Floats}
use hansa.Panics.{Returns, Returns-bind, Returns-imp}
use hansa.Saga.KMeans.{Rng}
use hansa.Saga.Seeds.{IsDrawing}
use hansa.Saga.Build.{offer, reservoir_sample}

still_full :
    (n target seen : ℕ) → ltb n target ≡ false → n ≡ min target seen → n ≡ min target (seen + 1)
still_full n target seen full size = ground (arith, full, size)

module _ (f : Floats) (g : Rng f) (drawing : IsDrawing f g) where
  open f use {F32}
  open g use {State, below}

  Returns-offer :
      (Holds : List F32 → Type 0) (target seen : ℕ) (v : List F32) (out : List (List F32))
      (s : State)
      → Holds v
      → All Holds out
      → length out ≡ min target seen
      → Returns
          (λ r. (length r.0 ≡ min target (seen + 1)) × All Holds r.0)
          (offer f g target seen v (out, s))
  unfolding offer
  Returns-offer Holds target seen v out s good known size =
      elim (Bool-cases (ltb (length out) target)) [
        | inl room ↦
            rw (room, Returns)
              (
                omega (arith, size, ltb→lt (length out) target room, length-append out (v ∷ [])),
                All-append Holds out (v ∷ []) known (good, tt),
              )
        | inr full ↦
            rw (full, Returns)
              (Returns-bind (λ r. r.0 < seen + 1)
                (λ (r : List (List F32) × State).
                  (length r.0 ≡ min target (seen + 1)) × All Holds r.0)
                (below (seen + 1) s) _ (drawing.below_returns (seen + 1) s (omega arith))
                (λ (j, s') within.
                  if_both (λ o. (length o ≡ min target (seen + 1)) × All Holds o) (ltb j target)
                    (
                      length-modify j (λ old. v) out
                          ∙ still_full (length out) target seen full size,
                      All-modify Holds (λ old. v) (λ old h. good) j out known,
                    )
                    (still_full (length out) target seen full size, known)))
      ]

  pub Returns-reservoir_sample :
      (Holds : List F32 → Type 0) (target seen : ℕ) (src out : List (List F32)) (s : State)
      → All Holds src
      → All Holds out
      → length out ≡ min target seen
      → Returns
          (λ r. (length r.0 ≡ min target (seen + length src)) × All Holds r.0)
          (reservoir_sample f g target seen src (out, s))
  unfolding reservoir_sample
  Returns-reservoir_sample Holds target seen [] out s good known size = (omega (arith, size), known)
  Returns-reservoir_sample Holds target seen (v ∷ src) out s good known size =
      Returns-bind (λ r. (length r.0 ≡ min target (seen + 1)) × All Holds r.0)
        (λ r. (length r.0 ≡ min target (seen + length (v ∷ src))) × All Holds r.0)
        (offer f g target seen v (out, s)) _
        (Returns-offer Holds target seen v out s good.0 known size)
        (λ (out', s') more.
          Returns-imp _ _ (reservoir_sample f g target (seen + 1) src (out', s'))
            (λ r all. (all.0 ∙ omega arith, all.1))
            (Returns-reservoir_sample Holds target (seen + 1) src out' s' good.1 more.1 more.0))
