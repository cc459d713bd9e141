-- ===== src/Membrane/Query/Results.antt =====
-- What a membrane query returns, whatever the peers send and whenever the deadline strikes.
use hansa.Prelude.{
  ℕ, ◌≤◌, ◌≡◌, inl, inr, ◌⊎◌, Bool, true, false, ◌||◌, if◌then◌else◌, List, [], ◌∷◌, arith, ◌==◌,
  Bool-cases, if_both, length, take, All, length-take, All-take,
}
use hansa.Prelude.Bytes.{Bytes, eq_bytes}
use hansa.Prelude.Sort.{insert_by, sort_by}
use hansa.Floats.{Floats}
use hansa.Member.{MemberRecord}
use hansa.Manifest.{ManifestStore}
use hansa.Saga.{Saga, Centroid}
use hansa.Membrane.Allocation.{PeerAllocation, is_empty, proportional_allocation, allocate, pair_up}
use hansa.Membrane.Scoring.{score_peers}
use hansa.Saga.Score.{cosine_from, cosine_similarity, best_score, score_saga}
use hansa.Panics.{Returns, Returns-bind}

All-insert_by {ℓ κ} :
    {A : Type ℓ} (P : A → Type κ) (before : A → A → Bool) (x : A) (xs : List A)
    → P x
    → All P xs
    → All P (insert_by before x xs)
unfolding insert_by
All-insert_by P before x [] h a = (h, tt)
All-insert_by P before x (y ∷ ys) h a =
    if_both (All P) (before y x) (a.0, All-insert_by P before x ys h a.1) (h, a)

pub All-sort_by {ℓ κ} :
    {A : Type ℓ} (P : A → Type κ) (before : A → A → Bool) (xs : List A)
    → All P xs
    → All P (sort_by before xs)
unfolding sort_by
All-sort_by P before [] a = tt
All-sort_by P before (x ∷ xs) a =
    All-insert_by P before x (sort_by before xs) a.0 (All-sort_by P before xs a.1)

module _ {ℓ} {A : Type ℓ} where
  length-pair_up-le :
      (xs : List (MemberRecord × A)) (bs : List ℕ) → length (pair_up xs bs) ≤ length xs
  unfolding pair_up
  length-pair_up-le [] bs = omega arith
  length-pair_up-le (x ∷ xs) [] = omega arith
  length-pair_up-le ((m, s) ∷ xs) (b ∷ bs) = omega (arith, length-pair_up-le xs bs)

  All-pair_up :
      (P : MemberRecord → Type 0) (xs : List (MemberRecord × A)) (bs : List ℕ)
      → All (λ e. P e.0) xs
      → All (λ (a : PeerAllocation). P a.member) (pair_up xs bs)
  unfolding pair_up
  All-pair_up P [] bs h = tt
  All-pair_up P (x ∷ xs) [] h = tt
  All-pair_up P ((m, s) ∷ xs) (b ∷ bs) h = (h.0, All-pair_up P xs bs h.1)

  length-given :
      (xs : List (MemberRecord × A)) (room : ℕ) (bs : List ℕ)
      → length (pair_up (take (length bs) (take room xs)) bs) ≤ room
  length-given xs room bs = omega (
    arith,
    length-pair_up-le (take (length bs) (take room xs)) bs,
    length-take (length bs) (take room xs),
    length-take room xs,
  )

  All-given :
      (P : MemberRecord → Type 0) (xs : List (MemberRecord × A)) (room : ℕ) (bs : List ℕ)
      → All (λ e. P e.0) xs
      → All (λ (a : PeerAllocation). P a.member) (pair_up (take (length bs) (take room xs)) bs)
  All-given P xs room bs h =
      All-pair_up P (take (length bs) (take room xs)) bs
        (All-take (λ e. P e.0) (length bs) (take room xs) (All-take (λ e. P e.0) room xs h))

module _ (f : Floats) where
  open f use {F32, lt, add, mul, neg_infinity}

  pub length-allocation :
      (scored : List (MemberRecord × F32)) (total least room : ℕ)
      → length (proportional_allocation f scored total least room) ≤ room
  unfolding proportional_allocation allocate
  length-allocation scored total least room =
      if_both (λ (r : List PeerAllocation). length r ≤ room)
        (is_empty scored || total == 0 || room == 0) {yes = []}
        {no = allocate f scored total least room} (omega arith) (length-given scored room _)

  pub All-allocation :
      (P : MemberRecord → Type 0) (scored : List (MemberRecord × F32)) (total least room : ℕ)
      → All (λ e. P e.0) scored
      → All (λ (a : PeerAllocation). P a.member) (proportional_allocation f scored total least room)
  unfolding proportional_allocation allocate
  All-allocation P scored total least room h =
      if_both (All (λ (a : PeerAllocation). P a.member))
        (is_empty scored || total == 0 || room == 0) {yes = []}
        {no = allocate f scored total least room} tt (All-given P scored room _ h)

  -- A peer that may be asked: not the tenant that asks.
  abbrev pub IsPeerOf : Bytes → MemberRecord → Type 0
  IsPeerOf own m = eq_bytes m.tenant_id own ≡ false

  -- The saga is the caller's own, which is not scored, or its centroids are as long as the query.
  abbrev pub IsScorable : Bytes → List F32 → MemberRecord × Saga f → Type 0
  IsScorable own query (m, saga) =
      (eq_bytes m.tenant_id own ≡ true)
      ⊎ All (λ (c : Centroid f). length query ≤ length c.vector) saga.centroids

  Returns-cosine_from :
      (dot na nb : F32) (a b : List F32)
      → length a ≤ length b
      → Returns (λ s. Unit) (cosine_from f dot na nb a b)
  unfolding cosine_from
  Returns-cosine_from dot na nb [] b h = tt
  Returns-cosine_from dot na nb (x ∷ a) [] h = absurd (omega arith)
  Returns-cosine_from dot na nb (x ∷ a) (y ∷ b) h =
      Returns-cosine_from (add dot (mul x y)) (add na (mul x x)) (add nb (mul y y)) a b
        (omega arith)

  Returns-best_score :
      (best : F32) (cs : List (Centroid f)) (query : List F32)
      → All (λ (c : Centroid f). length query ≤ length c.vector) cs
      → Returns (λ s. Unit) (best_score f best cs query)
  unfolding best_score cosine_similarity
  Returns-best_score best [] query h = tt
  Returns-best_score best (c ∷ cs) query h =
      Returns-bind (λ s. Unit) (λ s. Unit) (cosine_similarity f query c.vector)
        (λ s. best_score f (if lt best s then s else best) cs query)
        (Returns-cosine_from _ _ _ query c.vector h.0)
        (λ s any. Returns-best_score (if lt best s then s else best) cs query h.1)

  -- The scoring does not panic, and leaves peers of the caller.
  pub Returns-score_peers :
      (own : Bytes) (query : List F32) (least : F32) (store : ManifestStore) (now : ℕ)
      (sagas : List (MemberRecord × Saga f))
      → All (IsScorable own query) sagas
      → Returns
          (All (λ (e : MemberRecord × F32). IsPeerOf own e.0))
          (score_peers f own query least store now sagas)
  unfolding score_peers
  Returns-score_peers own query least store now [] h = tt
  Returns-score_peers own query least store now ((m, saga) ∷ sagas) h =
      let rest = Returns-score_peers own query least store now sagas h.1 in
      elim (Bool-cases (eq_bytes m.tenant_id own)) [
        | inl same ↦ rw same rest
        | inr other ↦ rw other (
            Returns-bind (λ s. Unit) (All (λ (e : MemberRecord × F32). IsPeerOf own e.0))
              (score_saga f saga query) _ (scored m saga other h.0)
              (λ base any.
                Returns-bind (All (λ (e : MemberRecord × F32). IsPeerOf own e.0))
                  (All (λ (e : MemberRecord × F32). IsPeerOf own e.0))
                  (score_peers f own query least store now sagas) _ rest
                  (λ peers all.
                    if_both (All (λ (e : MemberRecord × F32). IsPeerOf own e.0)) _
                      {yes = (m, _) ∷ peers} {no = peers} (other, all) all)))
      ]
    where
      scored :
          (m : MemberRecord) (saga : Saga f)
          → eq_bytes m.tenant_id own ≡ false
          → IsScorable own query (m, saga)
          → Returns (λ s. Unit) (score_saga f saga query)
      scored m saga other (inl same) = absurd (cc)
      scored m saga other (inr long) =
          unfold score_saga in Returns-best_score neg_infinity saga.centroids query long
