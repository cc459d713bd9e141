-- ===== src/Context/Counts.antt =====
-- Every hit that goes into `build` is counted once.
use hansa.Prelude.{
  ℕ, ◌+◌, ◌≤◌, ◌≡◌, refl, sym, ◌∙◌, subst, inl, inr, Bool, true, false, List, [], ◌∷◌, ◌++◌, arith,
  Bool-cases, length, length-append, length-modify,
}
use hansa.Prelude.Sort.{sort_by, length-sort_by}
use hansa.Floats.{Floats}
use hansa.Text.{Externals}
use hansa.Membrane.Query.{MembraneHit}
use hansa.Context.Bundle.{ContextItem, ContextBuilder, ContextBundle}
use hansa.Context.Filter.{Filtered, nothing_seen, settle, new_item, add_source, filter_hits}
use hansa.Context.Cases.{Cases, filter_hits_cases}
use hansa.Context.{spend, spend_all, unspent, before_item, build}
use hansa.Context.Budget.{spend_cases}

module _ (f : Floats) (x : Externals) (b : ContextBuilder f) where
  abbrev IsCounted : List (MembraneHit f) → Filtered f → Type 0
  IsCounted done p =
      length p.eligible + p.below_threshold + p.duplicates + p.semantic_duplicates ≡ length done

  IsCounted-survives :
      b.sentence_dedup ≡ false
      → (done : List (MembraneHit f)) (hit : MembraneHit f) (p : Filtered f) → IsCounted done p
      → Cases f x b (IsCounted (done ++ (hit ∷ []))) hit p
  unfolding settle
  IsCounted-survives whole done hit p h =
      let more = length-append done (hit ∷ []) in
      record {
        on_low = λ low. omega (arith, h, more);
        on_repeat = λ winner high won.
            let same = length-modify winner (add_source f hit.origin) p.eligible in
            omega (arith, h, more, same);
        on_emptied = λ dropped seen high on. absurd (cc);
        on_near = λ c winner seen known near.
            let same = length-modify winner (add_source f c.hit.origin) p.eligible in
            omega (arith, h, more, same);
        on_kept = λ c seen known fresh.
            let one = length-append p.eligible (new_item f b.tokenizer c ∷ []) in
            omega (arith, h, more, one);
      }

module _ (f : Floats) (x : Externals) (b : ContextBuilder f) where
  abbrev IsCountedOnce : List (MembraneHit f) → Filtered f → Type 0
  IsCountedOnce done p =
      length p.eligible + p.below_threshold + p.duplicates + p.semantic_duplicates ≤ length done

  -- A hit of which the sentence pass leaves nothing is not counted.
  IsCountedOnce-survives :
      (done : List (MembraneHit f)) (hit : MembraneHit f) (p : Filtered f)
      → IsCountedOnce done p
      → Cases f x b (IsCountedOnce (done ++ (hit ∷ []))) hit p
  unfolding settle
  IsCountedOnce-survives done hit p h =
      let more = length-append done (hit ∷ []) in
      record {
        on_low = λ low. omega (arith, h, more);
        on_repeat = λ winner high won.
            let kept = length-modify winner (add_source f hit.origin) p.eligible in
            omega (arith, h, more, kept);
        on_emptied = λ dropped seen high on. omega (arith, h, more);
        on_near = λ c winner seen known near.
            let kept = length-modify winner (add_source f c.hit.origin) p.eligible in
            omega (arith, h, more, kept);
        on_kept = λ c seen known fresh.
            let added = length-append p.eligible (new_item f b.tokenizer c ∷ []) in
            omega (arith, h, more, added);
      }

module _ (f : Floats) (b : ContextBuilder f) where
  abbrev kept_or_over : ContextBundle f → ℕ
  kept_or_over bundle = length bundle.items + bundle.dropped_over_budget

  kept_or_over-spend :
      (item : ContextItem f) (bundle : ContextBundle f)
      → kept_or_over (spend f b item bundle) ≡ kept_or_over bundle + 1
  kept_or_over-spend item bundle =
      let one = length-append bundle.items (item ∷ []) in
      spend_cases f b (λ after. kept_or_over after ≡ kept_or_over bundle + 1) item bundle
        (λ over. omega arith) (λ fits. omega (arith, one))

  kept_or_over-spend_all :
      (items : List (ContextItem f)) (bundle : ContextBundle f)
      → kept_or_over (spend_all f b items bundle) ≡ kept_or_over bundle + length items
  unfolding spend_all
  kept_or_over-spend_all [] bundle = omega arith
  kept_or_over-spend_all (item ∷ items) bundle =
      let one = kept_or_over-spend item bundle in
      let rest = kept_or_over-spend_all items (spend f b item bundle) in omega (arith, one, rest)

  abbrev dropped_before : ContextBundle f → ℕ
  dropped_before bundle =
      bundle.dropped_below_threshold + bundle.dropped_duplicates
      + bundle.dropped_semantic_duplicates

  dropped_before-spend_all :
      (items : List (ContextItem f)) (bundle : ContextBundle f)
      → dropped_before (spend_all f b items bundle) ≡ dropped_before bundle
  unfolding spend_all
  dropped_before-spend_all [] bundle = refl
  dropped_before-spend_all (item ∷ items) bundle =
      dropped_before-spend_all items (spend f b item bundle)
      ∙ spend_cases f b (λ after. dropped_before after ≡ dropped_before bundle) item bundle
          (λ over. refl) (λ fits. refl)

  -- The items of a bundle and what it counts as dropped whole.
  abbrev pub accounted : ContextBundle f → ℕ
  accounted bundle =
      length bundle.items
      + bundle.dropped_over_budget
      + bundle.dropped_below_threshold
      + bundle.dropped_duplicates
      + bundle.dropped_semantic_duplicates

  accounted-build :
      (x : Externals)
      → let p = filter_hits f x b b.hits (nothing_seen f) in
        accounted (build f x b)
        ≡ length p.eligible + p.below_threshold + p.duplicates + p.semantic_duplicates
  unfolding build unspent
  accounted-build x =
      let p = filter_hits f x b b.hits (nothing_seen f) in
      let ranked = sort_by (before_item f b.ranker) p.eligible in
      let budget = kept_or_over-spend_all ranked (unspent f p) in
      let before = dropped_before-spend_all ranked (unspent f p) in
      let same = length-sort_by (before_item f b.ranker) p.eligible in
      omega (arith, budget, before, same)

  -- With the sentence pass off every hit is accounted for once, and with it on at most once.
  abbrev pub AreAccounted : Bool → ℕ → Type 0
  AreAccounted false n = n ≡ length b.hits
  AreAccounted true n = n ≤ length b.hits

  pub build-AreAccounted : (x : Externals) → AreAccounted b.sentence_dedup (accounted (build f x b))
  unfolding nothing_seen
  build-AreAccounted x = elim (Bool-cases b.sentence_dedup) [
    | inl on ↦
        let once =
          filter_hits_cases f x b (IsCountedOnce f x b) (IsCountedOnce-survives f x b) [] b.hits
            (nothing_seen f) (omega arith) in
        subst (λ t. AreAccounted t (accounted (build f x b))) (sym on)
          (omega (arith, once, accounted-build x))
    | inr off ↦
        let all =
          filter_hits_cases f x b (IsCounted f x b) (IsCounted-survives f x b off) [] b.hits
            (nothing_seen f) refl in
        subst (λ t. AreAccounted t (accounted (build f x b))) (sym off)
          (omega (arith, all, accounted-build x))
  ]
