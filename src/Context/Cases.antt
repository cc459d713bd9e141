-- ===== src/Context/Cases.antt =====
-- The ways in which phase 1 of `build` deals with a hit, as a principle of induction on the hits.
use hansa.Prelude.{
  ℕ, ◌+◌, ◌≡◌, refl, ap, ◌∙◌, subst, inl, inr, Bool, true, false, ◌&&◌, Option, none, some, List,
  [], ◌∷◌, ◌++◌, append_assoc, append-nil, if◌then◌else◌, Bool-cases, Option-cases, modify,
  and_left,
}
use hansa.Prelude.Bytes.{Bytes}
use hansa.Floats.{Floats}
use hansa.Text.{Externals, from_utf8_lossy, is_empty, trim}
use hansa.Membrane.Query.{MembraneHit}
use hansa.Context.Bundle.{ContextBuilder}
use hansa.Context.Sentences.{blake3_normalised}
use hansa.Context.Filter.{
  Filtered, Candidate, add_source, find_winner, near_duplicate, unit_of, settle, split_or_whole,
  refine, attribute_or, consider, filter_hits,
}

-- The key of the payload that a hit brings.
abbrev pub record_key : Externals → (f : Floats) → MembraneHit f → Bytes
record_key x f hit = blake3_normalised x (from_utf8_lossy hit.payload)

module _ (f : Floats) (x : Externals) (b : ContextBuilder f) where
  open f use {lt}

  abbrev pub IsLow : MembraneHit f → Bool → Type 0
  IsLow hit answer = lt hit.similarity b.min_similarity ≡ answer

  abbrev pub winner_of : MembraneHit f → Filtered f → Option ℕ
  winner_of hit p = if b.dedup then find_winner f (record_key x f hit) p.seen_record else none

  -- A candidate that phase 1 makes of a hit.
  pub record IsCandidate (hit : MembraneHit f) (c : Candidate f) : Type 0 where
    pub same_hit : c.hit ≡ hit
    pub same_key : c.key ≡ record_key x f hit
    pub not_low : IsLow hit false
    pub same_content : b.sentence_dedup ≡ false → c.content ≡ from_utf8_lossy hit.payload

  -- What a property of the locals needs to survive a hit, case by case.
  pub record Cases {κ} (Holds : Filtered f → Type κ) (hit : MembraneHit f) (p : Filtered f)
      : Type κ where
    pub on_low : IsLow hit true → Holds (record p { below_threshold = p.below_threshold + 1 })
    pub on_repeat :
        (winner : ℕ)
        → IsLow hit false
        → winner_of hit p ≡ some winner
        → Holds (record p {
          duplicates = p.duplicates + 1;
          eligible = modify winner (add_source f hit.origin) p.eligible;
        })
    pub on_emptied :
        (dropped : ℕ) (seen : List Bytes)
        → IsLow hit false
        → b.sentence_dedup ≡ true
        → Holds (record p {
          seen_sentence = seen;
          redundant_sentences = p.redundant_sentences + dropped;
        })
    pub on_near :
        (c : Candidate f) (winner : ℕ) (seen : List Bytes)
        → IsCandidate hit c
        → near_duplicate f b.semantic_dedup c.unit_for_this p.seen_unit_vecs ≡ some winner
        → Holds (settle f b.tokenizer c (some winner) (record p { seen_sentence = seen }))
    pub on_kept :
        (c : Candidate f) (seen : List Bytes)
        → IsCandidate hit c
        → winner_of hit p ≡ none
        → Holds (settle f b.tokenizer c none (record p { seen_sentence = seen }))

  module _ {κ} (Holds : Filtered f → Type κ) (hit : MembraneHit f) (p : Filtered f) where
    refine_cases :
        IsLow hit false
        → winner_of hit p ≡ none
        → Cases Holds hit p
        → Holds (refine f x b hit (from_utf8_lossy hit.payload) (record_key x f hit) p)
    unfolding refine
    refine_cases high fresh cases =
        let raw = from_utf8_lossy hit.payload in
        let found = split_or_whole x b.sentence_dedup raw p.seen_sentence in
        let unit = unit_of f b.semantic_dedup hit.embedding in
        let c : Candidate f = record {
          hit = hit;
          content = found.0.0;
          key = record_key x f hit;
          dropped_sentences = found.0.1;
          unit_for_this = unit;
        } in
        let whole : b.sentence_dedup ≡ false → found.0.0 ≡ raw = λ off.
          ap (λ on. (split_or_whole x on raw p.seen_sentence).0.0) off
          ∙ unfold split_or_whole in refl in
        let known : IsCandidate hit c = record {
          same_hit = refl;
          same_key = refl;
          not_low = high;
          same_content = whole;
        } in
        elim (Bool-cases (b.sentence_dedup && is_empty (trim found.0.0))) [
          | inl e ↦ rw e (
              cases.on_emptied found.0.1 found.1 high
                (and_left b.sentence_dedup (is_empty (trim found.0.0)) e))
          | inr e ↦
              rw e (elim (Option-cases (near_duplicate f b.semantic_dedup unit p.seen_unit_vecs)) [
                | inl none_near ↦ rw none_near (cases.on_kept c found.1 known fresh)
                | inr (winner, near) ↦ rw near (cases.on_near c winner found.1 known near)
              ])
        ]

    pub consider_cases : Cases Holds hit p → Holds (consider f x b hit p)
    unfolding consider attribute_or
    consider_cases cases = elim (Bool-cases (lt hit.similarity b.min_similarity)) [
      | inl low ↦ rw low (cases.on_low low)
      | inr high ↦ rw high (elim (Option-cases (winner_of hit p)) [
        | inl fresh ↦ rw fresh (refine_cases high fresh cases)
        | inr (winner, won) ↦ rw won (cases.on_repeat winner high won)
      ])
    ]

  -- What survives every hit holds after all of them; it may speak of the hits already considered.
  pub filter_hits_cases {κ} :
      (Holds : List (MembraneHit f) → Filtered f → Type κ)
      → ((done : List (MembraneHit f)) (hit : MembraneHit f) (p : Filtered f)
          → Holds done p
          → Cases (Holds (done ++ (hit ∷ []))) hit p)
      → (done hits : List (MembraneHit f)) (p : Filtered f) → Holds done p
      → Holds (done ++ hits) (filter_hits f x b hits p)
  unfolding filter_hits
  filter_hits_cases Holds survives done [] p h = rw (append-nil done) h
  filter_hits_cases Holds survives done (hit ∷ hits) p h =
      let now = consider_cases (Holds (done ++ (hit ∷ []))) hit p (survives done hit p h) in
      subst (λ all. Holds all (filter_hits f x b hits (consider f x b hit p)))
        (append_assoc done (hit ∷ []) hits)
        (filter_hits_cases Holds survives (done ++ (hit ∷ [])) hits (consider f x b hit p) now)
