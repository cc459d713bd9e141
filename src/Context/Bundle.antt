-- ===== src/Context/Bundle.antt =====
-- crates/hansa/src/context.rs: the items and bundles of a context, the builder, the origins of an item, the
-- default tokenizer and the two rankers. A tokenizer and a ranker are functions, as the traits they
-- implement. A tokenizer's counts are `usize`, of 64 bits, and sums with them wrap; the sums of sizes in
-- memory do not.
use hansa.Prelude.{
  ℕ, ◌+◌, ◌%◌, ◌^◌, ◌/◌, max, Bool, true, false, ◌||◌, Option, none, List, [], ◌∷◌, ◌++◌, ◌==◌,
  if◌then◌else◌, length,
}
use hansa.Prelude.Bytes.{Bytes, eq_bytes}
use hansa.Floats.{Floats}
use hansa.Text.{Chars}
use hansa.Membrane.Query.{HitOrigin, local, remote, MembraneHit}

unfoldable pub eq_origin : HitOrigin → HitOrigin → Bool
eq_origin local local = true
eq_origin local (remote b) = false
eq_origin (remote a) local = false
eq_origin (remote a) (remote b) = eq_bytes a b

unfoldable pub has_origin : HitOrigin → List HitOrigin → Bool
unfolding eq_origin
has_origin origin [] = false
has_origin origin (o ∷ sources) = eq_origin o origin || has_origin origin sources

unfoldable pub attribute_source : HitOrigin → List HitOrigin → List HitOrigin
unfolding has_origin
attribute_source origin sources =
    if has_origin origin sources then sources else sources ++ (origin ∷ [])

-- `CharCountTokenizer::count`
unfoldable pub char_count : Chars → ℕ
char_count text = let chars = length text in max ((chars + 3) / 4) (if chars == 0 then 0 else 1)

-- `a + b` on `usize`
unfoldable pub wrapping_add : ℕ → ℕ → ℕ
wrapping_add a b = (a + b) % 2 ^ 64

module _ (f : Floats) where
  open f use {
    F32, lt, ge, is_zero, is_finite, neg_infinity, of_u64, add, mul, div, sqrt, log2, max32,
  }

  pub record ContextItem : Type 0 where
    pub origin : HitOrigin
    pub record_id : Bytes
    pub similarity : F32
    pub content : Chars
    pub tokens : ℕ
    pub dedup_key : Bytes
    pub embedding : Option (List F32)
    pub sources : List HitOrigin

  pub record ContextBundle : Type 0 where
    pub items : List ContextItem
    pub total_tokens : ℕ
    pub dropped_duplicates : ℕ
    pub dropped_below_threshold : ℕ
    pub dropped_over_budget : ℕ
    pub dropped_redundant_sentences : ℕ
    pub dropped_semantic_duplicates : ℕ

  -- `Tokenizer::count` and `Ranker::score`
  pub record ContextBuilder : Type 0 where
    pub hits : List (MembraneHit f)
    pub min_similarity : F32
    pub token_budget : Option ℕ
    pub record_budget : Option ℕ
    pub dedup : Bool
    pub sentence_dedup : Bool
    pub semantic_dedup : Option F32
    pub tokenizer : Chars → ℕ
    pub ranker : ContextItem → F32

  unfoldable pub similarity_score : ContextItem → F32
  similarity_score item = item.similarity

  unfoldable pub token_density_score : ContextItem → F32
  unfolding wrapping_add
  token_density_score item =
      div item.similarity (max32 (log2 (of_u64 (wrapping_add 1 item.tokens))) (of_u64 1))

  unfoldable pub from_hits : List (MembraneHit f) → ContextBuilder
  unfolding char_count similarity_score
  from_hits hits = record {
    hits = hits;
    min_similarity = neg_infinity;
    token_budget = none;
    record_budget = none;
    dedup = true;
    sentence_dedup = false;
    semantic_dedup = none;
    tokenizer = char_count;
    ranker = similarity_score;
  }
