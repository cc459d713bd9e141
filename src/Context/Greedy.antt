-- ===== src/Context/Greedy.antt =====
-- Phase 3 of `build` skips an item that does not fit and goes on: what is left out does not fit at the end.
use hansa.Prelude.{
  ℕ, ◌^◌, ◌<◌, ◌+◌, ◌*◌, ◌≤◌, ◌≡◌, refl, ap, ◌∙◌, subst, ◌⊎◌, inl, inr, true, Option, none, some,
  List, [], ◌∷◌, arith, length, length-append, All, All-imp, Any, Any-right, either_true, Any-left,
}
use hansa.Floats.{Floats}
use hansa.Text.{Chars, Externals}
use hansa.Context.Bundle.{ContextItem, ContextBuilder, ContextBundle, char_count}
use hansa.Context.Filter.{nothing_seen, filter_hits}
use hansa.Context.Budget.{
  is_over, spend_cases, sum_tokens, HasRoom, unspent-HasRoom, spend-HasRoom, wrapping_add_fits,
  ranked, build-IsWithinBudget, IsBelow, IsWithinBudget,
}
use hansa.Context.{exceeds, is_full, spend, spend_all, unspent, build}
use hansa.Context.Origin.{IsSound, IsSound_tokens, build-IsSound}

module _ (f : Floats) (b : ContextBuilder f) where
  exceeds_mono :
      (limit : Option ℕ) (m n : ℕ) → m ≤ n → exceeds f limit m ≡ true → exceeds f limit n ≡ true
  exceeds_mono none m n le h = h
  exceeds_mono (some limit) m n le h = ground (arith, le, h)

  is_full_mono :
      (limit : Option ℕ) (m n : ℕ) → m ≤ n → is_full f limit m ≡ true → is_full f limit n ≡ true
  is_full_mono none m n le h = h
  is_full_mono (some limit) m n le h = ground (arith, le, h)

  -- Nothing is taken back.
  abbrev Grows : ContextBundle f → ContextBundle f → Type 0
  Grows bundle after =
      (bundle.total_tokens ≤ after.total_tokens) × (length bundle.items ≤ length after.items)

  spend-Grows :
      (item : ContextItem f) (bundle : ContextBundle f)
      → bundle.total_tokens + item.tokens < 2 ^ 64
      → Grows bundle (spend f b item bundle)
  spend-Grows item bundle room =
      let one = length-append bundle.items (item ∷ []) in
      let sum = wrapping_add_fits f b bundle.total_tokens item.tokens room in
      spend_cases f b (Grows bundle) item bundle (λ over. (omega arith, omega arith))
        (λ fits. (omega (arith, sum), omega (arith, one)))

  -- The item is too much for what the bundle has left: with it the total is above the token budget, or
  -- the bundle has as many items as the record budget allows.
  abbrev pub IsTooMuch : ContextItem f → ContextBundle f → Type 0
  IsTooMuch item bundle =
      (exceeds f b.token_budget (bundle.total_tokens + item.tokens) ≡ true)
      ⊎ (is_full f b.record_budget (length bundle.items) ≡ true)

  IsTooMuch-Grows :
      (item : ContextItem f) (bundle after : ContextBundle f)
      → Grows bundle after
      → IsTooMuch item bundle
      → IsTooMuch item after
  IsTooMuch-Grows item bundle after grows (inl over) = inl (
      exceeds_mono b.token_budget (bundle.total_tokens + item.tokens)
        (after.total_tokens + item.tokens) (omega (arith, grows.0)) over)
  IsTooMuch-Grows item bundle after grows (inr full) =
      inr (is_full_mono b.record_budget (length bundle.items) (length after.items) grows.1 full)

  is_over-IsTooMuch :
      (item : ContextItem f) (bundle : ContextBundle f)
      → bundle.total_tokens + item.tokens < 2 ^ 64
      → is_over f b item bundle ≡ true
      → IsTooMuch item bundle
  is_over-IsTooMuch item bundle room over =
      let sum = wrapping_add_fits f b bundle.total_tokens item.tokens room in
      either_true _ _ (rw sum at over)

  -- The item is kept, or it is too much for what the bundle has left.
  abbrev pub IsSettled : ContextBundle f → ContextItem f → Type 0
  IsSettled bundle item = Any (λ kept. kept ≡ item) bundle.items ⊎ IsTooMuch item bundle

  spend-IsSettled :
      (item : ContextItem f) (bundle : ContextBundle f)
      → bundle.total_tokens + item.tokens < 2 ^ 64
      → IsSettled (spend f b item bundle) item
  spend-IsSettled item bundle room =
      spend_cases f b (λ after. IsSettled after item) item bundle
        (λ over. inr (is_over-IsTooMuch item bundle room over))
        (λ fits. inl (Any-right (λ kept. kept ≡ item) bundle.items (item ∷ []) (inl refl)))

  IsSettled-stays :
      (item next : ContextItem f) (bundle : ContextBundle f)
      → bundle.total_tokens + next.tokens < 2 ^ 64
      → IsSettled bundle item
      → IsSettled (spend f b next bundle) item
  IsSettled-stays item next bundle room (inr over) =
      inr (IsTooMuch-Grows item bundle (spend f b next bundle) (spend-Grows next bundle room) over)
  IsSettled-stays item next bundle room (inl kept) = inl (
      spend_cases f b (λ after. Any (λ k. k ≡ item) after.items) next bundle (λ over. kept)
        (λ fits. Any-left (λ k. k ≡ item) bundle.items (next ∷ []) kept))

  IsSettled-through :
      (item : ContextItem f) (items : List (ContextItem f)) (bundle : ContextBundle f)
      → HasRoom f b items bundle
      → IsSettled bundle item
      → IsSettled (spend_all f b items bundle) item
  unfolding spend_all sum_tokens
  IsSettled-through item [] bundle room h = h
  IsSettled-through item (next ∷ items) bundle room h =
      IsSettled-through item items (spend f b next bundle)
        (spend-HasRoom f b next items bundle room)
        (IsSettled-stays item next bundle (omega (arith, room)) h)

  spend_all-IsSettled :
      (items : List (ContextItem f)) (bundle : ContextBundle f)
      → HasRoom f b items bundle
      → All (IsSettled (spend_all f b items bundle)) items
  unfolding spend_all sum_tokens
  spend_all-IsSettled [] bundle room = tt
  spend_all-IsSettled (item ∷ items) bundle room =
      let further = spend-HasRoom f b item items bundle room in
      (
        IsSettled-through item items (spend f b item bundle) further
            (spend-IsSettled item bundle (omega (arith, room))),
        spend_all-IsSettled items (spend f b item bundle) further,
      )

  -- Where the tokens of the items that the filter lets through fit a `usize` together: the total of the
  -- bundle is the sum of its items' tokens, and neither it nor the number of items is above its budget, where
  -- one is set. Of those items one that is not in the bundle does not fit in it: with its tokens the total
  -- would be above the token budget, or the bundle has as many items as the record budget allows.
  pub build_fills_budgets :
      (x : Externals)
      → sum_tokens f (ranked f b x) < 2 ^ 64
      → IsWithinBudget f b (build f x b) × All (IsSettled (build f x b)) (ranked f b x)
  unfolding build
  build_fills_budgets x room =
      let p = filter_hits f x b b.hits (nothing_seen f) in
      (
        build-IsWithinBudget f b x room,
        spend_all-IsSettled (ranked f b x) (unspent f p)
            (unspent-HasRoom f b p (ranked f b x) room),
      )

  abbrev sum_chars : List (ContextItem f) → ℕ
  sum_chars [] = 0
  sum_chars (item ∷ items) = length item.content + sum_chars items

  char_count_lem : (text : Chars) → length text ≤ 4 * char_count text
  unfolding char_count
  char_count_lem text = ground arith

  sum_chars_bound :
      (items : List (ContextItem f))
      → All (λ item. item.tokens ≡ char_count item.content) items
      → sum_chars items ≤ 4 * sum_tokens f items
  unfolding sum_tokens
  sum_chars_bound [] h = omega arith
  sum_chars_bound (item ∷ items) h =
      omega (arith, h.0, char_count_lem item.content, sum_chars_bound items h.1)

  -- With the default tokenizer, where the tokens of the ranked items fit a `usize` together, a token budget
  -- bounds the text: the contents of the items have at most
  -- four characters for each token of the budget.
  build_text_bound :
      (x : Externals) (budget : ℕ)
      → sum_tokens f (ranked f b x) < 2 ^ 64
      → b.tokenizer ≡ char_count
      → b.token_budget ≡ some budget
      → sum_chars (build f x b).items ≤ 4 * budget
  build_text_bound x budget room counted limited =
      let right =
        All-imp (IsSound f x b b.hits) (λ item. item.tokens ≡ char_count item.content)
          (λ item sound.
            IsSound_tokens f x b b.hits item sound.0 ∙ ap (λ count. count item.content) counted)
          (build f x b).items (build-IsSound f x b) in
      let (total, tokens, records) = build-IsWithinBudget f b x room in
      let within : (build f x b).total_tokens ≤ budget =
        subst (λ limit. IsBelow limit (build f x b).total_tokens) limited tokens in
      omega (arith, total, within, sum_chars_bound (build f x b).items right)
