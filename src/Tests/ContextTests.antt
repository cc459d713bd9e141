-- ===== src/Tests/ContextTests.antt =====
-- The theorems on the context builder, with thousandths as floats; lower case is ASCII's, and a text stands
-- for its own hash.
use hansa.Prelude.{
  ℕ, ◌<◌, ◌^◌, ltb→lt, ◌+◌, ◌≡◌, refl, Bool, true, false, ◌&&◌, Option, none, some, List, [], ◌∷◌,
  map, arith, leb, if◌then◌else◌, length, All,
}
use hansa.Prelude.Bytes.{eq_bytes}
use hansa.Prelude.Sort.{sort_by}
use hansa.Context.Bundle.{ContextBuilder, char_count}
use hansa.Context.Filter.{nothing_seen, filter_hits}
use hansa.Context.Sentences.{split_sentences, dedup_sentences}
use hansa.Context.Render.{render_toon}
use hansa.Context.Budget.{IsWithinBudget, sum_tokens, ranked}
use hansa.Context.Greedy.{IsSettled}
use hansa.Context.Sources.{IsKept}
use hansa.Context.Firsts.{IsRebuilt, firsts}
use hansa.Context.Once.{IsUnique, IsKnown, filled}
use hansa.Context.Split.{IsSplit}
use hansa.Context.Toon.{IsPlain, read_toon}
use hansa.Context.{build, before_item}
use hansa.Floats.{thousandths}
use hansa.Text.{Chars, Externals, codes}
use hansa.Membrane.Query.{HitOrigin, local, remote, MembraneHit}
use hansa.Context.Greedy
use hansa.Context.Sources
use hansa.Context.Whole
use hansa.Context.Whole.{IsFaithful}
use hansa.Context.Once
use hansa.Context.Toon

abbrev ascii : Externals
ascii = record {
  to_lowercase = λ c. (if leb 65 c && leb c 90 then c + 32 else c) ∷ [];
  blake3 = λ bytes. bytes;
}

abbrev hit : HitOrigin → ℕ → Chars → MembraneHit thousandths
hit origin similarity text = record {
  record_id = text;
  similarity = similarity;
  origin = origin;
  payload = text;
  embedding = none;
}

abbrev four_hits : List (MembraneHit thousandths)
four_hits =
    hit local 900 (codes "Rivers rise.")
    ∷ hit (remote (7 ∷ 8 ∷ [])) 800 (codes "RIVERS  rise.")
    ∷ hit (remote (9 ∷ 9 ∷ [])) 700 (codes "Rain, \"heavy\" rain. Rivers rise.")
    ∷ hit (remote (7 ∷ 8 ∷ [])) 100 (codes "noise")
    ∷ []

abbrev builder : Bool → Option ℕ → ContextBuilder thousandths
builder sentence_dedup token_budget = record {
  hits = four_hits;
  min_similarity = 200;
  token_budget = token_budget;
  record_budget = none;
  dedup = true;
  sentence_dedup = sentence_dedup;
  semantic_dedup = none;
  tokenizer = char_count;
  ranker = λ item. item.similarity;
}

abbrev tight : ContextBuilder thousandths
tight = builder false (some 8)

abbrev loose : ContextBuilder thousandths
loose = builder false none

-- The tokens of three short items.
tokens_fit : sum_tokens thousandths (ranked thousandths tight ascii) < 2 ^ 64
unfolding sum_tokens filter_hits nothing_seen sort_by before_item char_count eq_bytes
tokens_fit = ltb→lt (sum_tokens thousandths (ranked thousandths tight ascii)) (2 ^ 64) refl

build_fills_budgets_example :
    IsWithinBudget thousandths tight (build thousandths ascii tight)
    × All
        (IsSettled thousandths tight (build thousandths ascii tight))
        (ranked thousandths tight ascii)
build_fills_budgets_example = Greedy.build_fills_budgets thousandths tight ascii tokens_fit

build-IsFaithful_example : IsFaithful thousandths ascii tight (build thousandths ascii tight)
build-IsFaithful_example = Whole.build-IsFaithful thousandths ascii tight

build_keeps_origins_example :
    All (IsKept thousandths ascii loose (build thousandths ascii loose).items) loose.hits
build_keeps_origins_example =
    Sources.build_keeps_origins thousandths ascii loose refl refl refl refl

abbrev text : Chars
text = codes "Rivers rise. Rain fell! RIVERS rise. "

dedup_sentences_lem_example :
    IsRebuilt (firsts ascii [] [] (split_sentences text)) (dedup_sentences ascii text []).0.0
    × IsSplit text (split_sentences text)
    × IsUnique (dedup_sentences ascii text []).1
    × All (IsKnown ascii (dedup_sentences ascii text []).1) (split_sentences text)
    × (length (dedup_sentences ascii text []).1 + (dedup_sentences ascii text []).0.1
        ≡ 0 + filled ascii (split_sentences text))
dedup_sentences_lem_example = Once.dedup_sentences_lem ascii text [] tt

digit_texts_are_plain : IsPlain thousandths
digit_texts_are_plain similarity = (refl, (refl, (ground arith, tt)))

read_toon-render_toon_example :
    read_toon
      (length (build thousandths ascii loose).items)
      (render_toon thousandths (build thousandths ascii loose))
    ≡ map (λ item. item.content) (build thousandths ascii loose).items
read_toon-render_toon_example =
    Toon.read_toon-render_toon thousandths digit_texts_are_plain (build thousandths ascii loose)
