-- ===== src/Context/Unique.antt =====
-- With the record pass on, no two items of a bundle have one key.
use hansa.Prelude.{
  ℕ, zero, suc, ◌≡◌, refl, sym, ap, ◌∙◌, ◌≢◌, inl, inr, Bool, true, none, some, List, [], ◌∷◌, ◌++◌,
  Bool-cases, if_both, modify, All, All-append, All-imp, All-modify,
}
use hansa.Prelude.Bytes.{Bytes, eq_bytes, eq_bytes_iff}
use hansa.Prelude.Sort.{sort_by, insert_by, All-sort_by, All-insert_by}
use hansa.Floats.{Floats}
use hansa.Text.{Externals}
use hansa.Membrane.Query.{MembraneHit}
use hansa.Context.Bundle.{ContextItem, ContextBuilder, ContextBundle}
use hansa.Context.Filter.{
  Filtered, nothing_seen, settle, new_item, add_source, find_winner, filter_hits,
}
use hansa.Context.Cases.{Cases, record_key, filter_hits_cases}
use hansa.Context.Winners.{number, keys_of, IsIndexed, IsIndexed-survives}
use hansa.Context.Budget.{spend_cases}
use hansa.Context.{spend, spend_all, unspent, before_item, build}

module _ (f : Floats) where
  -- The keys of the items, each of them once.
  abbrev pub HasOwnKeys : List (ContextItem f) → Type 0
  HasOwnKeys [] = Unit
  HasOwnKeys (item ∷ items) =
      All (λ other. other.dedup_key ≢ item.dedup_key) items × HasOwnKeys items

  abbrev Differs : ContextItem f → ContextItem f → Type 0
  Differs item other = other.dedup_key ≢ item.dedup_key

  module _ (before : ContextItem f → ContextItem f → Bool) where
    insert_by-HasOwnKeys :
        (item : ContextItem f) (items : List (ContextItem f))
        → HasOwnKeys (item ∷ items)
        → HasOwnKeys (insert_by before item items)
    unfolding insert_by
    insert_by-HasOwnKeys item [] h = h
    insert_by-HasOwnKeys item (i ∷ items) h =
        let swapped : item.dedup_key ≢ i.dedup_key = λ e. h.0.0 (sym e) in
        if_both HasOwnKeys (before i item)
          (
            All-insert_by before (Differs i) item items swapped h.1.0,
            insert_by-HasOwnKeys item items (h.0.1, h.1.1),
          )
          h

    sort_by-HasOwnKeys :
        (items : List (ContextItem f)) → HasOwnKeys items → HasOwnKeys (sort_by before items)
    unfolding sort_by
    sort_by-HasOwnKeys [] h = tt
    sort_by-HasOwnKeys (item ∷ items) h =
        insert_by-HasOwnKeys item (sort_by before items)
          (All-sort_by before (Differs item) items h.0, sort_by-HasOwnKeys items h.1)

  append-HasOwnKeys :
      (items : List (ContextItem f)) (last : ContextItem f)
      → HasOwnKeys items
      → All (λ item. item.dedup_key ≢ last.dedup_key) items
      → HasOwnKeys (items ++ (last ∷ []))
  append-HasOwnKeys [] last h new = (tt, tt)
  append-HasOwnKeys (item ∷ items) last h new = (
    All-append (Differs item) items (last ∷ []) h.0 ((λ e. new.0 (sym e)), tt),
    append-HasOwnKeys items last h.1 new.1,
  )

  -- A bundle and the ranked items to come, none of which has the key of another.
  spend_all-HasOwnKeys :
      (b : ContextBuilder f) (items : List (ContextItem f)) (bundle : ContextBundle f)
      → HasOwnKeys items
      → HasOwnKeys bundle.items
      → All (λ kept. All (Differs kept) items) bundle.items
      → HasOwnKeys (spend_all f b items bundle).items
  unfolding spend_all
  spend_all-HasOwnKeys b [] bundle h k apart = k
  spend_all-HasOwnKeys b (item ∷ items) bundle h k apart =
      let later = All-imp _ _ (λ kept differs. differs.1) bundle.items apart in
      let now = All-imp _ _ (λ kept differs. (λ e. differs.0 (sym e))) bundle.items apart in
      let both =
        spend_cases f b
          (λ after. HasOwnKeys after.items × All (λ kept. All (Differs kept) items) after.items)
          item bundle (λ over. (k, later))
          (λ fits. (
            append-HasOwnKeys bundle.items item k now,
            All-append _ bundle.items (item ∷ []) later (h.0, tt),
          )) in
      spend_all-HasOwnKeys b items (spend f b item bundle) h.1 both.0 both.1

  find_winner-none :
      (i : ℕ) (key : Bytes) (items : List (ContextItem f))
      → find_winner f key (number i (keys_of f items)) ≡ none
      → All (λ item. item.dedup_key ≢ key) items
  unfolding find_winner
  find_winner-none i key [] h = tt
  find_winner-none i key (item ∷ items) h = elim (Bool-cases (eq_bytes item.dedup_key key)) [
    | inl e ↦ let found : some i ≡ none = rw e at h in absurd (cc)
    | inr e ↦ (
      (λ same. let equal = (eq_bytes_iff item.dedup_key key).1 same in absurd (cc)),
      find_winner-none (suc i) key items (rw e at h),
    )
  ]

  abbrev IsKeyed : Filtered f → Type 0
  IsKeyed p = IsIndexed f p × HasOwnKeys p.eligible

  modify-HasOwnKeys :
      (winner : ℕ) (hit : MembraneHit f) (items : List (ContextItem f))
      → HasOwnKeys items
      → HasOwnKeys (modify winner (add_source f hit.origin) items)
  unfolding add_source
  modify-HasOwnKeys winner hit [] h = tt
  modify-HasOwnKeys zero hit (item ∷ items) h = h
  modify-HasOwnKeys (suc winner) hit (item ∷ items) h = (
    All-modify (Differs item) (add_source f hit.origin) (λ i d. d) winner items h.0,
    modify-HasOwnKeys winner hit items h.1,
  )

  IsKeyed-survives :
      (x : Externals) (b : ContextBuilder f)
      → b.dedup ≡ true
      → (hit : MembraneHit f) (p : Filtered f) → IsKeyed p
      → Cases f x b IsKeyed hit p
  unfolding settle new_item
  IsKeyed-survives x b on hit p h =
      let index = IsIndexed-survives f x b hit p h.0 in
      record {
        on_low = λ low. h;
        on_repeat = λ winner high won.
            (index.on_repeat winner high won, modify-HasOwnKeys winner hit p.eligible h.1);
        on_emptied = λ dropped seen high dedups. h;
        on_near = λ c winner seen known near.
            (index.on_near c winner seen known near, modify-HasOwnKeys winner c.hit p.eligible h.1);
        on_kept = λ c seen known fresh.
            let missed : find_winner f (record_key x f hit) (number 0 (keys_of f p.eligible))
                ≡ none =
              ap (find_winner f (record_key x f hit)) (sym h.0) ∙ rw on at fresh in
            let new = find_winner-none 0 (record_key x f hit) p.eligible missed in
            (
              index.on_kept c seen known fresh,
              append-HasOwnKeys p.eligible (new_item f b.tokenizer c) h.1 (rw known.same_key new),
            );
      }

  -- With the record pass on, no two items of a bundle have the same key.
  pub build-HasOwnKeys :
      (x : Externals) (b : ContextBuilder f) → b.dedup ≡ true → HasOwnKeys (build f x b).items
  unfolding build unspent nothing_seen
  build-HasOwnKeys x b on =
      let p = filter_hits f x b b.hits (nothing_seen f) in
      let keyed =
        filter_hits_cases f x b (λ done q. IsKeyed q) (λ done hit q. IsKeyed-survives x b on hit q)
          [] b.hits (nothing_seen f) (refl, tt) in
      spend_all-HasOwnKeys b (sort_by (before_item f b.ranker) p.eligible) (unspent f p)
        (sort_by-HasOwnKeys (before_item f b.ranker) p.eligible keyed.1) tt tt
