-- ===== src/Background.antt =====
-- crates/hansa/src/background.rs: the refresh thread. What it meets at a wake is an argument: whether it has been
-- stopped, and the tenant and the clock as it reads them then; how long it sleeps in between is left
-- out. A build that panics ends the thread.
pub mod Wakes
use hansa.Prelude.{
  ℕ, zero, suc, ◌+◌, ◌-◌, ◌*◌, ◌/◌, ◌%◌, ◌^◌, ◌≤◌, ◌<◌, min, max, ◌≡◌, refl, sym, ap, ap₂, ◌∙◌,
  subst, ◌≢◌, ◌↔◌, ◌⊎◌, inl, inr, Bool, true, false, not, ◌&&◌, ◌||◌, Option, none, some, List, [],
  ◌∷◌, ◌++◌, map, append_assoc, append-nil, arith, ltb, leb, ◌==◌, if◌then◌else◌, ltb→lt, lt→ltb,
  leb→le, le→leb, ==_iff, Bool-cases, Option-cases, if_both, length, get_elem?, take, drop, modify,
  length-append, All, All-append, length-take, length-drop, length-map, length-modify,
  take-append-drop, take-append, drop-append, All-take,
}
use hansa.Prelude.Bytes.{Bytes, IsByte, eq_bytes, eq_bytes_iff, eq_bytes_refl, lt_bytes}
use hansa.Floats.{Floats}
use hansa.Saga.{Saga}
use hansa.Saga.KMeans.{Rng}
use hansa.Saga.Build.{build_saga_from_tenant}

module _ (f : Floats) where
  open f use {F32, of_u64, mul, ceil_u64}

  pub record BackgroundRefreshConfig : Type 0 where
    pub interval : ℕ
    pub threshold_ratio : F32
    pub min_growth : ℕ
    pub seed_for_kmeans : ℕ

  -- What a wake of the loop meets: `written` is whether the saga file can be written.
  pub record Wake : Type 0 where
    pub stopped : Bool
    pub record_count : ℕ
    pub embedding_dim : ℕ
    pub vectors : List (List F32)
    pub tags : List Bytes
    pub now : ℕ
    pub written : Bool

  -- `last_built`, and the saga file.
  pub record Refresh : Type 0 where
    pub last_built : ℕ
    pub file : Option (Saga f)

  -- How the thread goes on.
  pub data Fate : Type 0 where
    running : Refresh → Fate
    ended : Refresh → Fate
    crashed : Refresh → Fate

  -- `((last_built as f32) * config.threshold_ratio).ceil() as u64`
  unfoldable pub threshold : BackgroundRefreshConfig → ℕ → ℕ
  threshold config last_built = ceil_u64 (mul (of_u64 last_built) config.threshold_ratio)

  unfoldable pub is_due : BackgroundRefreshConfig → ℕ → ℕ → Bool
  unfolding threshold
  is_due config last_built current = not (
      ltb (current - last_built) config.min_growth
      || ltb (current - last_built) (threshold config last_built))

  module _ (g : Rng f) (tenant_id : Bytes) (config : BackgroundRefreshConfig) where
    -- The saga is there; `last_built` moves on where it could be written.
    unfoldable pub keep_saga : Wake → Refresh → Option (Saga f) → Fate
    keep_saga w r none = crashed r
    keep_saga w r (some saga) =
        running (if w.written then record { last_built = w.record_count; file = some saga } else r)

    -- The loop's body, after its sleep.
    unfoldable pub wake : Wake → Refresh → Fate
    unfolding is_due keep_saga
    wake w r =
        if w.stopped
        then ended r
        else if not (is_due config r.last_built w.record_count)
        then running r
        else keep_saga w r (
            build_saga_from_tenant f g tenant_id w.embedding_dim w.record_count w.vectors w.tags
              w.now config.seed_for_kmeans)

    abbrev wake_on : Wake → Fate → Fate
    unfolding wake
    wake_on w (running r) = wake w r
    wake_on w (ended r) = ended r
    wake_on w (crashed r) = crashed r

    unfoldable pub run : List Wake → Fate → Fate
    unfolding wake_on
    run [] fate = fate
    run (w ∷ wakes) fate = run wakes (wake_on w fate)

    -- `start_background_refresh`: nothing is due until the tenant grows past its first count.
    unfoldable pub start_background_refresh : ℕ → Option (Saga f) → List Wake → Fate
    unfolding run
    start_background_refresh initial file wakes =
        run wakes (running (record { last_built = initial; file = file }))
