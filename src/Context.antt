-- ===== src/Context.antt =====
-- crates/hansa/src/context.rs: `ContextBuilder::build`. Phase 1, the filter, is the child `Filter`;
-- here are phase 2, the ranking, and phase 3, the budgets.
pub mod Bundle
pub mod Sentences
pub mod Filter
pub mod Cases
pub mod Toon
pub mod Render
pub mod Firsts
pub mod Once
pub mod Split
pub mod Greedy
pub mod Sources
pub mod Unique
pub mod Winners
pub mod Origin
pub mod Budget
pub mod Counts
pub mod Whole
use hansa.Prelude.{
  ℕ, zero, suc, ◌+◌, ◌-◌, ◌*◌, ◌/◌, ◌%◌, ◌^◌, ◌≤◌, ◌<◌, min, max, ◌≡◌, refl, sym, ap, ap₂, ◌∙◌,
  subst, ◌≢◌, ◌↔◌, ◌⊎◌, inl, inr, Bool, true, false, not, ◌&&◌, ◌||◌, Option, none, some, List, [],
  ◌∷◌, ◌++◌, map, append_assoc, append-nil, arith, ltb, leb, ◌==◌, if◌then◌else◌, ltb→lt, lt→ltb,
  leb→le, le→leb, ==_iff, Bool-cases, Option-cases, if_both, length, get_elem?, take, drop, modify,
  length-append, All, All-append, length-take, length-drop, length-map, length-modify,
  take-append-drop, take-append, drop-append, All-take,
}
use hansa.Prelude.Sort.{sort_by}
use hansa.Floats.{Floats}
use hansa.Text.{Externals}
use hansa.Context.Bundle.{wrapping_add, ContextItem, ContextBundle, ContextBuilder}
use hansa.Context.Filter.{Filtered, nothing_seen, filter_hits}

module _ (f : Floats) where
  open f use {F32, lt}

  -- Phase 2's comparator: higher scores first.
  unfoldable pub before_item : (ContextItem f → F32) → ContextItem f → ContextItem f → Bool
  before_item ranker a c = lt (ranker c) (ranker a)

  abbrev pub exceeds : Option ℕ → ℕ → Bool
  exceeds none total = false
  exceeds (some budget) total = ltb budget total

  abbrev pub is_full : Option ℕ → ℕ → Bool
  is_full none kept = false
  is_full (some cap) kept = leb cap kept

  -- One item of phase 3.
  unfoldable pub spend : ContextBuilder f → ContextItem f → ContextBundle f → ContextBundle f
  unfolding wrapping_add
  spend b item bundle =
      if exceeds b.token_budget (wrapping_add bundle.total_tokens item.tokens)
        || is_full b.record_budget (length bundle.items)
      then record bundle { dropped_over_budget = bundle.dropped_over_budget + 1 }
      else record bundle {
        total_tokens = wrapping_add bundle.total_tokens item.tokens;
        items = bundle.items ++ (item ∷ []);
      }

  unfoldable pub spend_all :
      ContextBuilder f → List (ContextItem f) → ContextBundle f → ContextBundle f
  unfolding spend
  spend_all b [] bundle = bundle
  spend_all b (item ∷ items) bundle = spend_all b items (spend b item bundle)

  -- The bundle after phase 1, nothing kept yet.
  unfoldable pub unspent : Filtered f → ContextBundle f
  unspent p = record {
    items = [];
    total_tokens = 0;
    dropped_duplicates = p.duplicates;
    dropped_below_threshold = p.below_threshold;
    dropped_over_budget = 0;
    dropped_redundant_sentences = p.redundant_sentences;
    dropped_semantic_duplicates = p.semantic_duplicates;
  }

  unfoldable pub build : Externals → ContextBuilder f → ContextBundle f
  unfolding nothing_seen filter_hits before_item unspent spend_all
  build x b =
      let p = filter_hits f x b b.hits (nothing_seen f) in
      spend_all b (sort_by (before_item b.ranker) p.eligible) (unspent p)
