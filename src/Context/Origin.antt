-- ===== src/Context/Origin.antt =====
-- Where the items of a bundle come from.
use hansa.Prelude.{
  ◌≡◌, refl, ap, ◌∙◌, inl, inr, Bool, true, false, ◌||◌, List, [], ◌∷◌, ◌++◌, Bool-cases, if_both,
  All, All-append, All-imp, Any, Any-imp, Any-left, Any-right, neither, or_false, All-modify,
  or_assoc,
}
use hansa.Prelude.Bytes.{Bytes, eq_bytes_iff, eq_bytes_refl}
use hansa.Prelude.Sort.{sort_by, All-sort_by}
use hansa.Floats.{Floats}
use hansa.Text.{Chars, Externals, from_utf8_lossy}
use hansa.Membrane.Query.{HitOrigin, local, remote, MembraneHit}
use hansa.Context.Bundle.{ContextItem, ContextBuilder, eq_origin, has_origin, attribute_source}
use hansa.Context.Filter.{
  Filtered, Candidate, nothing_seen, settle, new_item, add_source, filter_hits,
}
use hansa.Context.Cases.{Cases, IsCandidate, record_key, filter_hits_cases}
use hansa.Context.Budget.{All-spend_all}
use hansa.Context.{unspent, before_item, build}

-- No origin stands in the list twice.
abbrev pub IsDistinct : List HitOrigin → Type 0
IsDistinct [] = Unit
IsDistinct (o ∷ sources) = (has_origin o sources ≡ false) × IsDistinct sources

pub eq_origin_sound : (a c : HitOrigin) → eq_origin a c ≡ true → a ≡ c
unfolding eq_origin
eq_origin_sound local local h = refl
eq_origin_sound local (remote c) h = absurd (cc)
eq_origin_sound (remote a) local h = absurd (cc)
eq_origin_sound (remote a) (remote c) h = ap remote ((eq_bytes_iff a c).0 h)

pub eq_origin_refl : (a : HitOrigin) → eq_origin a a ≡ true
unfolding eq_origin
eq_origin_refl local = refl
eq_origin_refl (remote a) = eq_bytes_refl a

eq_origin_sym : (a c : HitOrigin) → eq_origin a c ≡ false → eq_origin c a ≡ false
eq_origin_sym a c h = elim (Bool-cases (eq_origin c a)) [
  | inl same ↦
      let differs : eq_origin a a ≡ false = rw (eq_origin_sound c a same) at h in
      absurd (cc (eq_origin_refl a))
  | inr e ↦ e
]

has_origin-append :
    (o last : HitOrigin) (sources : List HitOrigin)
    → has_origin o (sources ++ (last ∷ [])) ≡ has_origin o sources || eq_origin last o
unfolding has_origin
has_origin-append o last [] = or_false (eq_origin last o)
has_origin-append o last (s ∷ sources) =
    rw (has_origin-append o last sources)
      (or_assoc (eq_origin s o) (has_origin o sources) (eq_origin last o))

IsDistinct-append :
    (sources : List HitOrigin) (last : HitOrigin)
    → IsDistinct sources
    → has_origin last sources ≡ false
    → IsDistinct (sources ++ (last ∷ []))
unfolding has_origin
IsDistinct-append [] last h new = (refl, tt)
IsDistinct-append (o ∷ sources) last h new =
    let (apart, rest) = neither _ _ new in
    (
      has_origin-append o last sources ∙ rw (h.0) (eq_origin_sym o last apart),
      IsDistinct-append sources last h.1 rest,
    )

attribute_source-IsDistinct :
    (o : HitOrigin) (sources : List HitOrigin)
    → IsDistinct sources
    → IsDistinct (attribute_source o sources)
unfolding attribute_source
attribute_source-IsDistinct o sources h = elim (Bool-cases (has_origin o sources)) [
  | inl e ↦ rw e h
  | inr e ↦ rw e (IsDistinct-append sources o h e)
]

-- With the sentence pass off, the content is the whole payload.
abbrev IsWhole : Bool → Chars → Bytes → Type 0
IsWhole true content payload = Unit
IsWhole false content payload = content ≡ from_utf8_lossy payload

IsWhole-where_off :
    (on : Bool) (content : Chars) (payload : Bytes)
    → (on ≡ false → content ≡ from_utf8_lossy payload)
    → IsWhole on content payload
IsWhole-where_off true content payload h = tt
IsWhole-where_off false content payload h = h refl

module _ (f : Floats) (x : Externals) (b : ContextBuilder f) where
  open f use {lt}

  -- The item is made of the hit, which the threshold admits.
  pub record IsMadeOf (item : ContextItem f) (hit : MembraneHit f) : Type 0 where
    pub same_origin : item.origin ≡ hit.origin
    pub same_id : item.record_id ≡ hit.record_id
    pub same_similarity : item.similarity ≡ hit.similarity
    pub same_embedding : item.embedding ≡ hit.embedding
    pub same_key : item.dedup_key ≡ record_key x f hit
    pub not_low : lt hit.similarity b.min_similarity ≡ false
    pub whole_content : IsWhole b.sentence_dedup item.content hit.payload
    pub right_tokens : item.tokens ≡ b.tokenizer item.content

  -- Made of one of the hits, with sources that are origins of hits, each named once.
  abbrev pub IsSound : List (MembraneHit f) → ContextItem f → Type 0
  IsSound hits item =
      Any (IsMadeOf item) hits
      × All (λ o. Any (λ hit. hit.origin ≡ o) hits) item.sources
      × IsDistinct item.sources

  pub IsSound_tokens :
      (hits : List (MembraneHit f)) (item : ContextItem f)
      → Any (IsMadeOf item) hits
      → item.tokens ≡ b.tokenizer item.content
  IsSound_tokens [] item h = absurd h
  IsSound_tokens (hit ∷ hits) item (inl made) = made.right_tokens
  IsSound_tokens (hit ∷ hits) item (inr h) = IsSound_tokens hits item h

  IsSound-more :
      (done : List (MembraneHit f)) (hit : MembraneHit f) (item : ContextItem f)
      → IsSound done item
      → IsSound (done ++ (hit ∷ [])) item
  IsSound-more done hit item h = (
    Any-left (IsMadeOf item) done (hit ∷ []) h.0,
    All-imp _ _ (λ o found. Any-left (λ k. k.origin ≡ o) done (hit ∷ []) found) item.sources h.1,
    h.2,
  )

  here :
      (done : List (MembraneHit f)) (hit : MembraneHit f)
      → Any (λ k. k.origin ≡ hit.origin) (done ++ (hit ∷ []))
  here done hit = Any-right (λ k. k.origin ≡ hit.origin) done (hit ∷ []) (inl refl)

  add_source-IsSound :
      (done : List (MembraneHit f)) (hit : MembraneHit f) (item : ContextItem f)
      → IsSound (done ++ (hit ∷ [])) item
      → IsSound (done ++ (hit ∷ [])) (add_source f hit.origin item)
  unfolding add_source attribute_source
  add_source-IsSound done hit item h =
      let made =
        Any-imp (IsMadeOf item) (IsMadeOf (add_source f hit.origin item))
          (λ k m. record {
            same_origin = m.same_origin;
            same_id = m.same_id;
            same_similarity = m.same_similarity;
            same_embedding = m.same_embedding;
            same_key = m.same_key;
            not_low = m.not_low;
            whole_content = m.whole_content;
            right_tokens = m.right_tokens;
          })
          (done ++ (hit ∷ [])) h.0 in
      let named =
        if_both (All (λ o. Any (λ k. k.origin ≡ o) (done ++ (hit ∷ []))))
          (has_origin hit.origin item.sources) h.1
          (All-append _ item.sources _ h.1 (here done hit, tt)) in
      (made, named, attribute_source-IsDistinct hit.origin item.sources h.2)

  new_item-IsSound :
      (done : List (MembraneHit f)) (hit : MembraneHit f) (c : Candidate f)
      → IsCandidate f x b hit c
      → IsSound (done ++ (hit ∷ [])) (new_item f b.tokenizer c)
  unfolding new_item has_origin
  new_item-IsSound done hit c known =
      let made : IsMadeOf (new_item f b.tokenizer c) hit = record {
        same_origin = ap (λ k. k.origin) known.same_hit;
        same_id = ap (λ k. k.record_id) known.same_hit;
        same_similarity = ap (λ k. k.similarity) known.same_hit;
        same_embedding = ap (λ k. k.embedding) known.same_hit;
        same_key = known.same_key;
        not_low = known.not_low;
        whole_content = IsWhole-where_off b.sentence_dedup c.content hit.payload known.same_content;
        right_tokens = refl;
      } in
      (
        Any-right (IsMadeOf (new_item f b.tokenizer c)) done (hit ∷ []) (inl made),
        (rw known.same_hit (here done hit), tt),
        (refl, tt),
      )

  sound_survives :
      (done : List (MembraneHit f)) (hit : MembraneHit f) (p : Filtered f)
      → All (IsSound done) p.eligible
      → Cases f x b (λ q. All (IsSound (done ++ (hit ∷ []))) q.eligible) hit p
  unfolding settle
  sound_survives done hit p h =
      let more = All-imp _ _ (IsSound-more done hit) p.eligible h in
      record {
        on_low = λ low. more;
        on_repeat =
            λ winner high won. All-modify _ _ (add_source-IsSound done hit) winner p.eligible more;
        on_emptied = λ dropped seen high on. more;
        on_near = λ c winner seen known near.
            rw known.same_hit (All-modify _ _ (add_source-IsSound done hit) winner p.eligible more);
        on_kept = λ c seen known fresh.
            All-append _ p.eligible _ more (new_item-IsSound done hit c known, tt);
      }

  -- Every item of the bundle is made of one of the hits that the threshold admits: its origin, record,
  -- similarity, embedding and key are that hit's, its content is the whole payload where the
  -- sentence pass is off, and its tokens are the tokenizer's count of its content. Its sources are origins of
  -- hits, each named once.
  pub build-IsSound : All (IsSound b.hits) (build f x b).items
  unfolding build unspent nothing_seen
  build-IsSound =
      let p = filter_hits f x b b.hits (nothing_seen f) in
      let sound =
        filter_hits_cases f x b (λ done q. All (IsSound done) q.eligible) sound_survives [] b.hits
          (nothing_seen f) tt in
      All-spend_all f b (IsSound b.hits) (sort_by (before_item f b.ranker) p.eligible) (unspent f p)
        (All-sort_by (before_item f b.ranker) (IsSound b.hits) p.eligible sound) tt
