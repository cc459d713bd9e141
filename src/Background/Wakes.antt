-- ===== src/Background/Wakes.antt =====
-- A wake of the refresh thread leaves nothing due.
use hansa.Prelude.{
  ℕ, ◌<◌, ◌≡◌, refl, sym, ◌∙◌, subst, inl, inr, true, false, Option, none, some, List, [], ◌∷◌,
  ◌++◌, arith, Bool-cases,
}
use hansa.Prelude.Bytes.{Bytes}
use hansa.Floats.{Floats}
use hansa.Saga.{Saga}
use hansa.Saga.KMeans.{Rng}
use hansa.Saga.Build.{build_saga_from_tenant}
use hansa.Background.{
  BackgroundRefreshConfig, Wake, Refresh, Fate, running, ended, crashed, is_due, keep_saga, wake,
  wake_on, run, start_background_refresh,
}

module _ (f : Floats) (g : Rng f) (tenant_id : Bytes) (config : BackgroundRefreshConfig f) where
  run-append :
      (wakes : List (Wake f)) (w : Wake f) (fate : Fate f)
      → run f g tenant_id config (wakes ++ (w ∷ [])) fate
        ≡ wake_on f g tenant_id config w (run f g tenant_id config wakes fate)
  unfolding run
  run-append [] w fate = refl
  run-append (v ∷ wakes) w fate = run-append wakes w (wake_on f g tenant_id config v fate)

  nothing_due : (count : ℕ) → 0 < config.min_growth → is_due f config count count ≡ false
  unfolding is_due
  nothing_due count some_growth = ground (arith, some_growth)

  running_inj : {r s : Refresh f} → running r ≡ running s → r ≡ s
  running_inj h = cc

  keep_saga_lem :
      (w : Wake f) (r0 r : Refresh f) (built : Option (Saga f))
      → 0 < config.min_growth
      → w.written ≡ true
      → keep_saga f g tenant_id config w r0 built ≡ running r
      → is_due f config r.last_built w.record_count ≡ false
  unfolding keep_saga
  keep_saga_lem w r0 r none some_growth written h = absurd (cc)
  keep_saga_lem w r0 r (some saga) some_growth written h =
      let kept : running (record { last_built = w.record_count; file = some saga }) ≡ running r =
        rw written at h in
      subst (λ s. is_due f config s.last_built w.record_count ≡ false) (running_inj kept)
        (nothing_due w.record_count some_growth)

  wake_lem :
      (w : Wake f) (r0 r : Refresh f)
      → 0 < config.min_growth
      → w.written ≡ true
      → wake f g tenant_id config w r0 ≡ running r
      → is_due f config r.last_built w.record_count ≡ false
  unfolding wake
  wake_lem w r0 r some_growth written h = elim (Bool-cases w.stopped) [
    | inl stop ↦ let never : ended r0 ≡ running r = rw stop at h in absurd (cc)
    | inr go ↦ elim (Bool-cases (is_due f config r0.last_built w.record_count)) [
      | inl due ↦
          keep_saga_lem w r0 r
            (build_saga_from_tenant f g tenant_id w.embedding_dim w.record_count w.vectors w.tags
              w.now config.seed_for_kmeans)
            some_growth written (rw (go, due) at h)
      | inr not_due ↦
          let same : running r0 ≡ running r = rw (go, not_due) at h in
          subst (λ s. is_due f config s.last_built w.record_count ≡ false) (running_inj same)
            not_due
    ]
  ]

  -- While the thread runs, a wake at which the saga file can be written leaves nothing due: the growth of the
  -- tenant since the last build is then below the least growth or below the threshold, where the least
  -- growth is not zero.
  pub start_background_refresh_leaves_nothing_due :
      (initial : ℕ) (file : Option (Saga f)) (wakes : List (Wake f)) (w : Wake f) (r : Refresh f)
      → 0 < config.min_growth
      → w.written ≡ true
      → start_background_refresh f g tenant_id config initial file (wakes ++ (w ∷ [])) ≡ running r
      → is_due f config r.last_built w.record_count ≡ false
  unfolding start_background_refresh
  start_background_refresh_leaves_nothing_due initial file wakes w r some_growth written h =
      last (run f g tenant_id config wakes first) (sym (run-append wakes w first) ∙ h)
    where
      first : Fate f
      first = running (record { last_built = initial; file = file })

      last :
          (fate : Fate f)
          → wake_on f g tenant_id config w fate ≡ running r
          → is_due f config r.last_built w.record_count ≡ false
      last (running r0) k = wake_lem w r0 r some_growth written k
      last (ended r0) k = absurd (cc)
      last (crashed r0) k = absurd (cc)
