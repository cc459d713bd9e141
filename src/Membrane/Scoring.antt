-- ===== src/Membrane/Scoring.antt =====
-- crates/hansa/src/membrane/query.rs: step 2 of `execute_with_stats`, the scores of the peers.
use hansa.Prelude.{ℕ, ◌&&◌, Option, some, List, [], ◌∷◌, if◌then◌else◌}
use hansa.Prelude.Bytes.{Bytes, eq_bytes}
use hansa.Panics.{◌>>=◌}
use hansa.Floats.{Floats}
use hansa.Member.{MemberRecord}
use hansa.Manifest.{ManifestStore, read, usefulness_factor}
use hansa.Saga.{Saga}
use hansa.Saga.Score.{score_saga}

module _ (f : Floats) where
  open f use {F32, ge, is_finite, mul}

  -- Before the sort: what is left of the sagas, with their biased scores. The filters and the map
  -- are lazy, so the caller's own saga is not scored.
  unfoldable pub score_peers :
      Bytes
      → List F32
      → F32
      → ManifestStore
      → ℕ
      → List (MemberRecord × Saga f)
      → Option (List (MemberRecord × F32))
  unfolding score_saga usefulness_factor
  score_peers own query min_similarity manifests now [] = some []
  score_peers own query min_similarity manifests now ((m, saga) ∷ sagas) =
      let rest = score_peers own query min_similarity manifests now sagas in
      let biased = (do
        base ← score_saga f saga query
        let s = mul base (usefulness_factor f (read m.tenant_id manifests) now)
        scored ← rest
        some (if is_finite s && ge s min_similarity then (m, s) ∷ scored else scored)) in
      if eq_bytes m.tenant_id own then rest else biased
