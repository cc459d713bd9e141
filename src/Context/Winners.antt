-- ===== src/Context/Winners.antt =====
-- What `seen_record` knows of the eligible items: the key of each, with its position.
use hansa.Prelude.{
  ℕ, zero, suc, ◌+◌, ◌≡◌, refl, sym, ap, ◌∙◌, inl, inr, some, List, [], ◌∷◌, ◌++◌, map, arith,
  Bool-cases, length, get_elem?, modify, length-map,
}
use hansa.Prelude.Bytes.{Bytes, eq_bytes, eq_bytes_iff}
use hansa.Floats.{Floats}
use hansa.Text.{Externals}
use hansa.Membrane.Query.{MembraneHit}
use hansa.Context.Bundle.{ContextItem, ContextBuilder}
use hansa.Context.Filter.{
  Filtered, nothing_seen, settle, new_item, add_source, find_winner, filter_hits,
}
use hansa.Context.Cases.{Cases, filter_hits_cases}

abbrev pub number : ℕ → List Bytes → List (Bytes × ℕ)
number i [] = []
number i (key ∷ keys) = (key, i) ∷ number (suc i) keys

number-append :
    (i : ℕ) (keys : List Bytes) (key : Bytes)
    → number i (keys ++ (key ∷ [])) ≡ number i keys ++ ((key, i + length keys) ∷ [])
number-append i [] key = ap (λ n. (key, n) ∷ []) (omega arith)
number-append i (k ∷ keys) key = ap (◌∷◌ (k, i)) (
    number-append (suc i) keys key ∙ ap (λ n. number (suc i) keys ++ ((key, n) ∷ [])) (omega arith))

some_inj : {i j : ℕ} → some i ≡ some j → i ≡ j
some_inj h = cc

module _ (f : Floats) where
  abbrev pub keys_of : List (ContextItem f) → List Bytes
  keys_of items = map (λ item. item.dedup_key) items

  -- A winner stands at its position from `i`, with the key that was looked for.
  pub find_winner-number :
      (i : ℕ) (keys : List Bytes) (key : Bytes) (winner : ℕ)
      → find_winner f key (number i keys) ≡ some winner
      → (j : ℕ) × ((winner ≡ i + j) × (get_elem? keys j ≡ some key))
  unfolding find_winner
  find_winner-number i [] key winner h = absurd (cc)
  find_winner-number i (k ∷ keys) key winner h = elim (Bool-cases (eq_bytes k key)) [
    | inl e ↦
        let at : i ≡ winner = some_inj (rw e at h) in
        (0, (omega (arith, at), ap some ((eq_bytes_iff k key).0 e)))
    | inr e ↦
        let (j, (at, found)) = find_winner-number (suc i) keys key winner (rw e at h) in
        (suc j, (omega (arith, at), found))
  ]

  keys_of-modify :
      (winner : ℕ) (hit : MembraneHit f) (items : List (ContextItem f))
      → keys_of (modify winner (add_source f hit.origin) items) ≡ keys_of items
  unfolding add_source
  keys_of-modify winner hit [] = refl
  keys_of-modify zero hit (item ∷ items) = refl
  keys_of-modify (suc winner) hit (item ∷ items) =
      ap (◌∷◌ item.dedup_key) (keys_of-modify winner hit items)

  keys_of-append :
      (items more : List (ContextItem f)) → keys_of (items ++ more) ≡ keys_of items ++ keys_of more
  keys_of-append [] more = refl
  keys_of-append (item ∷ items) more = ap (◌∷◌ item.dedup_key) (keys_of-append items more)

  abbrev pub IsIndexed : Filtered f → Type 0
  IsIndexed p = p.seen_record ≡ number 0 (keys_of p.eligible)

  pub IsIndexed-survives :
      (x : Externals) (b : ContextBuilder f) (hit : MembraneHit f) (p : Filtered f)
      → IsIndexed p
      → Cases f x b IsIndexed hit p
  unfolding settle new_item
  IsIndexed-survives x b hit p h = record {
    on_low = λ low. h;
    on_repeat = λ winner high won. h ∙ ap (number 0) (sym (keys_of-modify winner hit p.eligible));
    on_emptied = λ dropped seen high on. h;
    on_near = λ c winner seen known near.
        h ∙ ap (number 0) (sym (keys_of-modify winner c.hit p.eligible));
    on_kept = λ c seen known fresh.
        let last = new_item f b.tokenizer c in
        let keys = keys_of p.eligible in
        let position : length p.eligible ≡ 0 + length keys =
          omega (arith, length-map p.eligible (λ item. item.dedup_key)) in
        ap (λ s. s ++ ((c.key, length p.eligible) ∷ [])) h
        ∙ ap (λ n. number 0 keys ++ ((c.key, n) ∷ [])) position
        ∙ sym (number-append 0 keys c.key)
        ∙ ap (number 0) (sym (keys_of-append p.eligible (last ∷ [])));
  }

  pub filter_hits-IsIndexed :
      (x : Externals) (b : ContextBuilder f) → IsIndexed (filter_hits f x b b.hits (nothing_seen f))
  unfolding nothing_seen
  filter_hits-IsIndexed x b =
      filter_hits_cases f x b (λ done p. IsIndexed p) (λ done hit p. IsIndexed-survives x b hit p)
        [] b.hits (nothing_seen f) refl
