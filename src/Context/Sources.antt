-- ===== src/Context/Sources.antt =====
-- No admitted hit is lost: its origin is among the sources of an item with its key.
use hansa.Prelude.{
  ℕ, zero, suc, ◌≡◌, refl, sym, ap, ◌∙◌, ◌⊎◌, inl, inr, true, false, none, some, List, [], ◌∷◌,
  ◌++◌, append_assoc, append-nil, arith, Bool-cases, if_both, get_elem?, modify, All, All-append,
  All-imp, Any, Any-modify, or_true, Any-left, Any-right,
}
use hansa.Prelude.Sort.{sort_by, Any-sort_by}
use hansa.Floats.{Floats}
use hansa.Text.{Externals}
use hansa.Membrane.Query.{HitOrigin, MembraneHit}
use hansa.Context.Bundle.{
  eq_origin, ContextItem, ContextBuilder, ContextBundle, has_origin, attribute_source,
}
use hansa.Context.Filter.{
  Filtered, Candidate, nothing_seen, settle, new_item, add_source, find_winner, filter_hits,
  near_duplicate,
}
use hansa.Context.Cases.{Cases, record_key, filter_hits_cases, IsCandidate, winner_of}
use hansa.Context.Origin.{eq_origin_refl}
use hansa.Context.Winners.{number, keys_of, IsIndexed, IsIndexed-survives, find_winner-number}
use hansa.Context.{spend, spend_all, unspent, before_item, build}

has_origin_last :
    (o : HitOrigin) (sources : List HitOrigin) → has_origin o (sources ++ (o ∷ [])) ≡ true
unfolding has_origin
has_origin_last o [] = rw (eq_origin_refl o) refl
has_origin_last o (s ∷ sources) = rw (has_origin_last o sources) (or_true (eq_origin s o))

attribute_source-has_origin :
    (o : HitOrigin) (sources : List HitOrigin) → has_origin o (attribute_source o sources) ≡ true
unfolding attribute_source
attribute_source-has_origin o sources = elim (Bool-cases (has_origin o sources)) [
  | inl e ↦ rw e e
  | inr e ↦ rw e (has_origin_last o sources)
]

has_origin-append :
    (o : HitOrigin) (sources more : List HitOrigin)
    → has_origin o sources ≡ true
    → has_origin o (sources ++ more) ≡ true
unfolding has_origin
has_origin-append o [] more h = absurd (cc)
has_origin-append o (s ∷ sources) more h = elim (Bool-cases (eq_origin s o)) [
  | inl e ↦ rw e refl
  | inr e ↦ rw e (has_origin-append o sources more (rw e at h))
]

attribute_source_keeps :
    (o other : HitOrigin) (sources : List HitOrigin)
    → has_origin o sources ≡ true
    → has_origin o (attribute_source other sources) ≡ true
unfolding attribute_source
attribute_source_keeps o other sources h =
    if_both (λ s. has_origin o s ≡ true) (has_origin other sources) h
      (has_origin-append o sources (other ∷ []) h)

module _ (f : Floats) (x : Externals) where
  open f use {lt}

  -- An item has the hit's key, and names its origin.
  abbrev pub Names : MembraneHit f → ContextItem f → Type 0
  Names hit item =
      (item.dedup_key ≡ record_key x f hit) × (has_origin hit.origin item.sources ≡ true)

  modify-Names :
      (hit : MembraneHit f) (winner : ℕ) (items : List (ContextItem f))
      → get_elem? (keys_of f items) winner ≡ some (record_key x f hit)
      → Any (Names hit) (modify winner (add_source f hit.origin) items)
  unfolding add_source
  modify-Names hit winner [] h = absurd (cc)
  modify-Names hit zero (item ∷ items) h =
      inl (cc, attribute_source-has_origin hit.origin item.sources)
  modify-Names hit (suc winner) (item ∷ items) h = inr (modify-Names hit winner items h)

  module _ (b : ContextBuilder f) where
    -- The threshold drops the hit, or an item names it.
    abbrev pub IsKept : List (ContextItem f) → MembraneHit f → Type 0
    IsKept items hit = (lt hit.similarity b.min_similarity ≡ true) ⊎ Any (Names hit) items

    IsKept-imp :
        (items after : List (ContextItem f))
        → ((hit : MembraneHit f) → Any (Names hit) items → Any (Names hit) after)
        → (hit : MembraneHit f) → IsKept items hit
        → IsKept after hit
    IsKept-imp items after more hit (inl low) = inl low
    IsKept-imp items after more hit (inr named) = inr (more hit named)

    add_source_keeps :
        (other : MembraneHit f) (hit : MembraneHit f) (item : ContextItem f)
        → Names hit item
        → Names hit (add_source f other.origin item)
    unfolding add_source
    add_source_keeps other hit item h =
        (h.0, attribute_source_keeps hit.origin other.origin item.sources h.1)

    IsKept-modify :
        (other : MembraneHit f) (winner : ℕ) (items : List (ContextItem f)) (hit : MembraneHit f)
        → IsKept items hit
        → IsKept (modify winner (add_source f other.origin) items) hit
    IsKept-modify other winner items =
        IsKept-imp items (modify winner (add_source f other.origin) items) (λ hit.
          Any-modify (Names hit) (add_source f other.origin) (add_source_keeps other hit) winner
            items)

    abbrev IsAttributed : List (MembraneHit f) → Filtered f → Type 0
    IsAttributed done p = IsIndexed f p × All (IsKept p.eligible) done

    winner_is_there :
        (hit : MembraneHit f) (p : Filtered f) (winner : ℕ)
        → IsIndexed f p
        → winner_of f x b hit p ≡ some winner
        → get_elem? (keys_of f p.eligible) winner ≡ some (record_key x f hit)
    winner_is_there hit p winner h won = elim (Bool-cases b.dedup) [
      | inl on ↦
          let found : find_winner f (record_key x f hit) (number 0 (keys_of f p.eligible))
              ≡ some winner =
            ap (find_winner f (record_key x f hit)) (sym h) ∙ rw on at won in
          let (j, (at, there)) =
            find_winner-number f 0 (keys_of f p.eligible) (record_key x f hit) winner found in
          ap (get_elem? (keys_of f p.eligible)) (omega (arith, at)) ∙ there
      | inr off ↦ let lost : none ≡ some winner = rw off at won in absurd (cc)
    ]

    new_item-Names :
        (hit : MembraneHit f) (c : Candidate f)
        → IsCandidate f x b hit c
        → Names hit (new_item f b.tokenizer c)
    unfolding new_item has_origin
    new_item-Names hit c known =
        (known.same_key, rw (known.same_hit, eq_origin_refl hit.origin) refl)

    IsAttributed-survives :
        b.sentence_dedup ≡ false
        → b.semantic_dedup ≡ none
        → (done : List (MembraneHit f)) (hit : MembraneHit f) (p : Filtered f) → IsAttributed done p
        → Cases f x b (IsAttributed (done ++ (hit ∷ []))) hit p
    unfolding settle near_duplicate
    IsAttributed-survives whole no_semantic done hit p h =
        let index = IsIndexed-survives f x b hit p h.0 in
        let all : (items : List (ContextItem f))
            → All (IsKept items) done
            → IsKept items hit
            → All (IsKept items) (done ++ (hit ∷ [])) =
          λ items old new. All-append (IsKept items) done (hit ∷ []) old (new, tt) in
        record {
          on_low = λ low. (index.on_low low, all p.eligible h.1 (inl low));
          on_repeat = λ winner high won. (
            index.on_repeat winner high won,
            all (modify winner (add_source f hit.origin) p.eligible)
                (All-imp _ _ (IsKept-modify hit winner p.eligible) done h.1)
                (inr (modify-Names hit winner p.eligible (winner_is_there hit p winner h.0 won))),
          );
          on_emptied = λ dropped seen high on. absurd (cc);
          on_near = λ c winner seen known near.
              let never : none ≡ some winner = rw no_semantic at near in absurd (cc);
          on_kept = λ c seen known fresh. (
            index.on_kept c seen known fresh,
            all (p.eligible ++ (new_item f b.tokenizer c ∷ []))
                (All-imp _ _ (IsKept-imp p.eligible _ (λ k. Any-left (Names k) p.eligible _)) done
                  h.1)
                (inr (Any-right (Names hit) p.eligible _ (inl (new_item-Names hit c known)))),
          );
        }

    spend_all_without_budgets :
        b.token_budget ≡ none
        → b.record_budget ≡ none
        → (items : List (ContextItem f)) (bundle : ContextBundle f)
        → (spend_all f b items bundle).items ≡ bundle.items ++ items
    unfolding spend_all spend
    spend_all_without_budgets no_tokens no_records [] bundle = sym (append-nil bundle.items)
    spend_all_without_budgets no_tokens no_records (item ∷ items) bundle =
        spend_all_without_budgets no_tokens no_records items (spend f b item bundle)
        ∙ ap (λ kept. kept ++ items) (unfold spend in rw (no_tokens, no_records) refl)
        ∙ append_assoc bundle.items (item ∷ []) items

    -- Without budgets and without the sentence and semantic passes no admitted hit is lost: for every hit
    -- that the threshold does not drop, the bundle has an item with the hit's key that names its origin
    -- among its sources.
    pub build_keeps_origins :
        b.sentence_dedup ≡ false
        → b.semantic_dedup ≡ none
        → b.token_budget ≡ none
        → b.record_budget ≡ none
        → All (IsKept (build f x b).items) b.hits
    unfolding build unspent nothing_seen
    build_keeps_origins whole no_semantic no_tokens no_records =
        let p = filter_hits f x b b.hits (nothing_seen f) in
        let ranked = sort_by (before_item f b.ranker) p.eligible in
        let (index, kept) =
          filter_hits_cases f x b IsAttributed (IsAttributed-survives whole no_semantic) [] b.hits
            (nothing_seen f) (refl, tt) in
        let all = spend_all_without_budgets no_tokens no_records ranked (unspent f p) in
        rw all (
          All-imp _ _
            (IsKept-imp p.eligible ranked
              (λ hit. Any-sort_by (before_item f b.ranker) (Names hit) p.eligible))
            b.hits kept)
