-- ===== src/Context/Whole.antt =====
-- What a bundle is, on every builder.
use hansa.Prelude.{sym, subst, inl, inr, Bool, true, false, List, Bool-cases, All}
use hansa.Floats.{Floats}
use hansa.Text.{Externals}
use hansa.Context.Bundle.{ContextItem, ContextBuilder, ContextBundle}
use hansa.Context.Origin.{IsSound, build-IsSound}
use hansa.Context.Unique.{HasOwnKeys, build-HasOwnKeys}
use hansa.Context.Counts.{accounted, AreAccounted, build-AreAccounted}
use hansa.Context.{build}

module _ (f : Floats) (x : Externals) (b : ContextBuilder f) where
  -- With the record pass on, no two items have one key.
  abbrev pub HasOwnKeysWhere : Bool → List (ContextItem f) → Type 0
  HasOwnKeysWhere true items = HasOwnKeys f items
  HasOwnKeysWhere false items = Unit

  abbrev pub IsFaithful : ContextBundle f → Type 0
  IsFaithful bundle =
      All (IsSound f x b b.hits) bundle.items
      × HasOwnKeysWhere b.dedup bundle.items
      × AreAccounted f b b.sentence_dedup (accounted f b bundle)

  own_keys : HasOwnKeysWhere b.dedup (build f x b).items
  own_keys = elim (Bool-cases b.dedup) [
    | inl on ↦
        subst (λ t. HasOwnKeysWhere t (build f x b).items) (sym on) (build-HasOwnKeys f x b on)
    | inr off ↦ subst (λ t. HasOwnKeysWhere t (build f x b).items) (sym off) tt
  ]

  -- Every item of the bundle is made of one of the hits that the threshold admits: its origin, record,
  -- similarity, embedding and key are that hit's, its content is the whole payload where the
  -- sentence pass is off, and its tokens are the tokenizer's count of its content. Its sources are origins
  -- of hits, each named once. With the record pass on, no two items have the same key. The items and the
  -- hits dropped below the threshold, as duplicates, as semantic duplicates and over the budget are as
  -- many as the hits where the sentence pass is off, and no more than the hits where it is on.
  pub build-IsFaithful : IsFaithful (build f x b)
  build-IsFaithful = (build-IsSound f x b, own_keys, build-AreAccounted f b x)
