-- ===== src/Context/Budget.antt =====
-- Phase 3 of `build`: the token and the record budget.
use hansa.Prelude.{
  ℕ, ◌+◌, ◌^◌, ◌<◌, ◌∙◌, ◌≤◌, ◌≡◌, refl, inl, inr, Bool, true, false, ◌||◌, Option, none, some,
  List, [], ◌∷◌, ◌++◌, arith, Bool-cases, length, length-append, All, All-append, neither,
}
use hansa.Prelude.Sort.{sort_by}
use hansa.Floats.{Floats}
use hansa.Text.{Externals}
use hansa.Context.Bundle.{wrapping_add, ContextItem, ContextBuilder, ContextBundle}
use hansa.Context.Filter.{Filtered, nothing_seen, filter_hits}
use hansa.Context.{exceeds, is_full, spend, spend_all, unspent, before_item, build}

unfoldable pub sum_tokens : (f : Floats) → List (ContextItem f) → ℕ
sum_tokens f [] = 0
sum_tokens f (item ∷ items) = item.tokens + sum_tokens f items

abbrev pub IsBelow : Option ℕ → ℕ → Type 0
IsBelow none n = Unit
IsBelow (some limit) n = n ≤ limit

module _ (f : Floats) (b : ContextBuilder f) where
  -- Whether phase 3 drops the item, at what is kept so far.
  abbrev pub is_over : ContextItem f → ContextBundle f → Bool
  is_over item bundle =
      exceeds f b.token_budget (wrapping_add bundle.total_tokens item.tokens)
      || is_full f b.record_budget (length bundle.items)

  pub spend_cases {κ} :
      (Holds : ContextBundle f → Type κ) (item : ContextItem f) (bundle : ContextBundle f)
      → (is_over item bundle ≡ true
          → Holds (record bundle { dropped_over_budget = bundle.dropped_over_budget + 1 }))
      → (is_over item bundle ≡ false
          → Holds (record bundle {
            total_tokens = wrapping_add bundle.total_tokens item.tokens;
            items = bundle.items ++ (item ∷ []);
          }))
      → Holds (spend f b item bundle)
  unfolding spend
  spend_cases Holds item bundle dropped kept = elim (Bool-cases (is_over item bundle)) [
    | inl over ↦ rw over (dropped over)
    | inr fits ↦ rw fits (kept fits)
  ]

  -- What holds of every ranked item holds of every item kept.
  pub All-spend_all {κ} :
      (Holds : ContextItem f → Type κ) (items : List (ContextItem f)) (bundle : ContextBundle f)
      → All Holds items
      → All Holds bundle.items
      → All Holds (spend_all f b items bundle).items
  unfolding spend_all
  All-spend_all Holds [] bundle h k = k
  All-spend_all Holds (item ∷ items) bundle h k =
      All-spend_all Holds items (spend f b item bundle) h.1 (
        spend_cases (λ after. All Holds after.items) item bundle (λ over. k)
          (λ fits. All-append Holds bundle.items (item ∷ []) k (h.0, tt)))

  -- The total is right, and neither budget is passed.
  abbrev pub IsWithinBudget : ContextBundle f → Type 0
  IsWithinBudget bundle =
      (bundle.total_tokens ≡ sum_tokens f bundle.items)
      × IsBelow b.token_budget bundle.total_tokens
      × IsBelow b.record_budget (length bundle.items)

  sum_tokens-append :
      (items : List (ContextItem f)) (item : ContextItem f)
      → sum_tokens f (items ++ (item ∷ [])) ≡ sum_tokens f items + item.tokens
  unfolding sum_tokens
  sum_tokens-append [] item = omega arith
  sum_tokens-append (i ∷ items) item = omega (arith, sum_tokens-append items item)

  not_exceeded : (limit : Option ℕ) (n : ℕ) → exceeds f limit n ≡ false → IsBelow limit n
  not_exceeded none n h = tt
  not_exceeded (some limit) n h = ground (arith, h)

  not_full : (limit : Option ℕ) (n : ℕ) → is_full f limit n ≡ false → IsBelow limit (n + 1)
  not_full none n h = tt
  not_full (some limit) n h = ground (arith, h)

  pub wrapping_add_fits : (m n : ℕ) → m + n < 2 ^ 64 → wrapping_add m n ≡ m + n
  unfolding wrapping_add
  wrapping_add_fits m n h = omega (arith, h)

  spend-IsWithinBudget :
      (item : ContextItem f) (bundle : ContextBundle f)
      → bundle.total_tokens + item.tokens < 2 ^ 64
      → IsWithinBudget bundle
      → IsWithinBudget (spend f b item bundle)
  spend-IsWithinBudget item bundle room h =
      spend_cases IsWithinBudget item bundle (λ over. h)
        (λ fits.
          let (tokens_fit, records_fit) = neither _ _ fits in
          let one = length-append bundle.items (item ∷ []) in
          (
            wrapping_add_fits bundle.total_tokens item.tokens room
                ∙ omega (arith, h.0, sum_tokens-append bundle.items item),
            not_exceeded b.token_budget (wrapping_add bundle.total_tokens item.tokens) tokens_fit,
            rw one (not_full b.record_budget (length bundle.items) records_fit),
          ))

  -- There is room for the tokens of the items beside those of the bundle.
  abbrev pub HasRoom : List (ContextItem f) → ContextBundle f → Type 0
  HasRoom items bundle = bundle.total_tokens + sum_tokens f items < 2 ^ 64

  pub spend-HasRoom :
      (item : ContextItem f) (items : List (ContextItem f)) (bundle : ContextBundle f)
      → HasRoom (item ∷ items) bundle
      → HasRoom items (spend f b item bundle)
  unfolding sum_tokens
  spend-HasRoom item items bundle room =
      let sum = wrapping_add_fits bundle.total_tokens item.tokens (omega (arith, room)) in
      spend_cases (HasRoom items) item bundle (λ over. omega (arith, room))
        (λ fits. omega (arith, room, sum))

  spend_all-IsWithinBudget :
      (items : List (ContextItem f)) (bundle : ContextBundle f)
      → HasRoom items bundle
      → IsWithinBudget bundle
      → IsWithinBudget (spend_all f b items bundle)
  unfolding spend_all sum_tokens
  spend_all-IsWithinBudget [] bundle room h = h
  spend_all-IsWithinBudget (item ∷ items) bundle room h =
      spend_all-IsWithinBudget items (spend f b item bundle) (spend-HasRoom item items bundle room)
        (spend-IsWithinBudget item bundle (omega (arith, room)) h)

  zero-IsBelow : (limit : Option ℕ) → IsBelow limit 0
  zero-IsBelow none = tt
  zero-IsBelow (some limit) = omega arith

  pub unspent-HasRoom :
      (p : Filtered f) (items : List (ContextItem f))
      → sum_tokens f items < 2 ^ 64
      → HasRoom items (unspent f p)
  unfolding unspent
  unspent-HasRoom p items room = omega (arith, room)

  -- What phase 2 gives to phase 3: the items that the filter lets through, ranked.
  abbrev pub ranked : Externals → List (ContextItem f)
  ranked x = sort_by (before_item f b.ranker) (filter_hits f x b b.hits (nothing_seen f)).eligible

  -- Where the tokens of the ranked items fit a `usize` together, the bundle's total is the sum of its items'
  -- tokens, and neither the total nor the number of items is above its budget, where one is set.
  pub build-IsWithinBudget :
      (x : Externals) → sum_tokens f (ranked x) < 2 ^ 64 → IsWithinBudget (build f x b)
  unfolding build unspent sum_tokens
  build-IsWithinBudget x room =
      let p = filter_hits f x b b.hits (nothing_seen f) in
      spend_all-IsWithinBudget (ranked x) (unspent f p) (unspent-HasRoom p (ranked x) room)
        (refl, zero-IsBelow b.token_budget, zero-IsBelow b.record_budget)
