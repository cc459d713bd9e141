-- ===== src/Saga/Score.antt =====
-- crates/hansa/src/saga/score.rs. The assertion that the two vectors have one length is a debug build's: past
-- it the loop indexes the second vector, and panics where that one is shorter.
use hansa.Prelude.{◌||◌, Option, none, some, List, [], ◌∷◌, if◌then◌else◌}
use hansa.Panics.{◌>>=◌}
use hansa.Floats.{Floats}
use hansa.Saga.{Saga, Centroid}

module _ (f : Floats) where
  open f use {F32, of_u64, lt, is_zero, add, mul, div, sqrt, neg_infinity}

  -- The loop, on `dot`, `na` and `nb`.
  unfoldable pub cosine_from : F32 → F32 → F32 → List F32 → List F32 → Option F32
  cosine_from dot na nb [] b =
      some (if is_zero na || is_zero nb then of_u64 0 else div dot (mul (sqrt na) (sqrt nb)))
  cosine_from dot na nb (x ∷ a) [] = none
  cosine_from dot na nb (x ∷ a) (y ∷ b) =
      cosine_from (add dot (mul x y)) (add na (mul x x)) (add nb (mul y y)) a b

  unfoldable pub cosine_similarity : List F32 → List F32 → Option F32
  unfolding cosine_from
  cosine_similarity a b = cosine_from (of_u64 0) (of_u64 0) (of_u64 0) a b

  unfoldable pub best_score : F32 → List (Centroid f) → List F32 → Option F32
  unfolding cosine_similarity
  best_score best [] query = some best
  best_score best (c ∷ cs) query = do
    s ← cosine_similarity query c.vector
    best_score (if lt best s then s else best) cs query

  unfoldable pub score_saga : Saga f → List F32 → Option F32
  unfolding best_score
  score_saga saga query = best_score neg_infinity saga.centroids query
