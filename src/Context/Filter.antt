-- ===== src/Context/Filter.antt =====
-- crates/hansa/src/context.rs: phase 1 of `ContextBuilder::build`, which filters the hits.
use hansa.Prelude.{
  ℕ, ◌+◌, Bool, true, false, not, ◌&&◌, ◌||◌, Option, none, some, List, [], ◌∷◌, ◌++◌, map, ◌==◌,
  if◌then◌else◌, length, modify,
}
use hansa.Prelude.Bytes.{Bytes, eq_bytes}
use hansa.Floats.{Floats}
use hansa.Text.{Chars, Externals, from_utf8_lossy, is_empty, trim}
use hansa.Membrane.Query.{HitOrigin, MembraneHit}
use hansa.Context.Bundle.{ContextItem, ContextBuilder, attribute_source}
use hansa.Context.Sentences.{blake3_normalised, dedup_sentences}

unfoldable pub split_or_whole : Externals → Bool → Chars → List Bytes → (Chars × ℕ) × List Bytes
unfolding dedup_sentences
split_or_whole x true raw_content seen = dedup_sentences x raw_content seen
split_or_whole x false raw_content seen = ((raw_content, 0), seen)

module _ (f : Floats) where
  open f use {
    F32, lt, ge, is_zero, is_finite, neg_infinity, of_u64, add, mul, div, sqrt, log2, max32,
  }

  -- The sum of squares, on its accumulator.
  unfoldable pub squares : F32 → List F32 → F32
  squares norm [] = norm
  squares norm (x ∷ v) = squares (add norm (mul x x)) v

  unfoldable pub unit_normalise : List F32 → Option (List F32)
  unfolding squares
  unit_normalise v =
      let norm = sqrt (squares (of_u64 0) v) in
      if not (is_finite norm) || is_zero norm then none else some (map (λ x. div x norm) v)

  unfoldable pub sum_products : F32 → List F32 → List F32 → F32
  sum_products acc (x ∷ a) (y ∷ b) = sum_products (add acc (mul x y)) a b
  sum_products acc a b = acc

  unfoldable pub dot : List F32 → List F32 → F32
  unfolding sum_products
  dot a b = if not (length a == length b) then neg_infinity else sum_products (of_u64 0) a b

  -- The locals of phase 1 of `build`, with the counters of its bundle that it changes.
  pub record Filtered : Type 0 where
    pub eligible : List (ContextItem f)
    pub seen_record : List (Bytes × ℕ)
    pub seen_sentence : List Bytes
    pub seen_unit_vecs : List (List F32 × ℕ)
    pub below_threshold : ℕ
    pub duplicates : ℕ
    pub redundant_sentences : ℕ
    pub semantic_duplicates : ℕ

  unfoldable pub nothing_seen : Filtered
  nothing_seen = record {
    eligible = [];
    seen_record = [];
    seen_sentence = [];
    seen_unit_vecs = [];
    below_threshold = 0;
    duplicates = 0;
    redundant_sentences = 0;
    semantic_duplicates = 0;
  }

  -- `seen_record.iter().find(|(k, _)| k == &key)`
  unfoldable pub find_winner : Bytes → List (Bytes × ℕ) → Option ℕ
  find_winner key [] = none
  find_winner key ((k, winner) ∷ seen) =
      let rest = find_winner key seen in if eq_bytes k key then some winner else rest

  -- `seen_unit_vecs.iter().find(|(other, _)| dot(unit, other) >= threshold)`
  unfoldable pub find_near : F32 → List F32 → List (List F32 × ℕ) → Option ℕ
  unfolding dot
  find_near threshold unit [] = none
  find_near threshold unit ((other, winner) ∷ seen) =
      let rest = find_near threshold unit seen in
      if ge (dot unit other) threshold then some winner else rest

  unfoldable pub add_source : HitOrigin → ContextItem f → ContextItem f
  unfolding attribute_source
  add_source origin item = record item { sources = attribute_source origin item.sources }

  abbrev pub push_unit : Option (List F32) → ℕ → List (List F32 × ℕ) → List (List F32 × ℕ)
  push_unit none new_idx seen = seen
  push_unit (some unit) new_idx seen = seen ++ ((unit, new_idx) ∷ [])

  -- What a candidate is by the time it is pushed.
  pub record Candidate : Type 0 where
    pub hit : MembraneHit f
    pub content : Chars
    pub key : Bytes
    pub dropped_sentences : ℕ
    pub unit_for_this : Option (List F32)

  unfoldable pub new_item : (Chars → ℕ) → Candidate → ContextItem f
  new_item tokenizer c = record {
    origin = c.hit.origin;
    record_id = c.hit.record_id;
    similarity = c.hit.similarity;
    content = c.content;
    tokens = tokenizer c.content;
    dedup_key = c.key;
    embedding = c.hit.embedding;
    sources = c.hit.origin ∷ [];
  }

  -- The end of the loop's body: a near duplicate is attributed, anything else is pushed.
  unfoldable pub settle : (Chars → ℕ) → Candidate → Option ℕ → Filtered → Filtered
  unfolding add_source new_item
  settle tokenizer c (some winner) p = record p {
    semantic_duplicates = p.semantic_duplicates + 1;
    eligible = modify winner (add_source c.hit.origin) p.eligible;
  }
  settle tokenizer c none p =
      let new_idx = length p.eligible in
      record p {
        seen_record = p.seen_record ++ ((c.key, new_idx) ∷ []);
        seen_unit_vecs = push_unit c.unit_for_this new_idx p.seen_unit_vecs;
        redundant_sentences = p.redundant_sentences + c.dropped_sentences;
        eligible = p.eligible ++ (new_item tokenizer c ∷ []);
      }

  unfoldable pub unit_of : Option F32 → Option (List F32) → Option (List F32)
  unfolding unit_normalise
  unit_of none embedding = none
  unit_of (some threshold) none = none
  unit_of (some threshold) (some v) = unit_normalise v

  unfoldable pub near_duplicate : Option F32 → Option (List F32) → List (List F32 × ℕ) → Option ℕ
  unfolding find_near
  near_duplicate none unit seen = none
  near_duplicate (some threshold) none seen = none
  near_duplicate (some threshold) (some unit) seen = find_near threshold unit seen

  module _ (x : Externals) (b : ContextBuilder f) where
    -- The sentence and semantic passes over a hit that no key seen has won.
    unfoldable pub refine : MembraneHit f → Chars → Bytes → Filtered → Filtered
    unfolding split_or_whole trim unit_of near_duplicate settle
    refine hit raw_content key p =
        let ((content, dropped_sentences), seen) =
          split_or_whole x b.sentence_dedup raw_content p.seen_sentence in
        let p' = record p { seen_sentence = seen } in
        let unit = unit_of b.semantic_dedup hit.embedding in
        let c : Candidate = record {
          hit = hit;
          content = content;
          key = key;
          dropped_sentences = dropped_sentences;
          unit_for_this = unit;
        } in
        if b.sentence_dedup && is_empty (trim content)
        then record p' { redundant_sentences = p'.redundant_sentences + dropped_sentences }
        else settle b.tokenizer c (near_duplicate b.semantic_dedup unit p'.seen_unit_vecs) p'

    unfoldable pub attribute_or : MembraneHit f → Chars → Bytes → Option ℕ → Filtered → Filtered
    unfolding refine add_source
    attribute_or hit raw_content key (some winner) p = record p {
      duplicates = p.duplicates + 1;
      eligible = modify winner (add_source hit.origin) p.eligible;
    }
    attribute_or hit raw_content key none p = refine hit raw_content key p

    -- One hit of phase 1.
    unfoldable pub consider : MembraneHit f → Filtered → Filtered
    unfolding attribute_or find_winner from_utf8_lossy blake3_normalised
    consider hit p =
        let raw_content = from_utf8_lossy hit.payload in
        let key = blake3_normalised x raw_content in
        let won = if b.dedup then find_winner key p.seen_record else none in
        if lt hit.similarity b.min_similarity
        then record p { below_threshold = p.below_threshold + 1 }
        else attribute_or hit raw_content key won p

    unfoldable pub filter_hits : List (MembraneHit f) → Filtered → Filtered
    unfolding consider
    filter_hits [] p = p
    filter_hits (hit ∷ hits) p = filter_hits hits (consider hit p)
