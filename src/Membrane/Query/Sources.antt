-- ===== src/Membrane/Query/Sources.antt =====
-- Where the hits that the receiving loop collects come from.
use hansa.Prelude.{
  ℕ, zero, suc, ◌+◌, Any, All-imp, ◌≤◌, ◌≡◌, refl, ◌⊎◌, inl, inr, List, [], ◌∷◌, ◌++◌, map, arith,
  get_elem?, All, All-append,
}
use hansa.Floats.{Floats}
use hansa.Error.{Result-cases, ok}
use hansa.Membrane.Allocation.{PeerAllocation}
use hansa.Membrane.Query.{
  Event, batch, expired, Hit, MembraneHit, MembraneQuery, local, from_hit, receive, View, HitOrigin,
  remote, shareable_only, open_and_query, or_no_hits, work, or_nothing,
}
use hansa.Membrane.Query.Results.{IsPeerOf}

module _ (f : Floats) where
  pub receive-bounds :
      (n : ℕ) (events : List Event) (batches : List (List (MembraneHit f))) (c : ℕ)
      (hits : List (MembraneHit f))
      → (receive f n events batches (c, hits)).0 ≤ c + n
  unfolding receive
  receive-bounds zero events batches c hits = omega arith
  receive-bounds (suc n) [] batches c hits = omega arith
  receive-bounds (suc n) (expired ∷ events) batches c hits = omega arith
  receive-bounds (suc n) (batch i ∷ events) batches c hits =
      omega (
        arith,
        receive-bounds n events batches (c + 1) (hits ++ or_nothing f (get_elem? batches i)),
      )

  module _ (P : MembraneHit f → Type 0) where
    All-or_nothing :
        (batches : List (List (MembraneHit f))) (i : ℕ)
        → All (All P) batches
        → All P (or_nothing f (get_elem? batches i))
    All-or_nothing [] i h = tt
    All-or_nothing (b ∷ bs) zero h = h.0
    All-or_nothing (b ∷ bs) (suc i) h = All-or_nothing bs i h.1

    pub All-receive :
        (n : ℕ) (events : List Event) (batches : List (List (MembraneHit f))) (c : ℕ)
        (hits : List (MembraneHit f))
        → All (All P) batches
        → All P hits
        → All P (receive f n events batches (c, hits)).1
    unfolding receive
    All-receive zero events batches c hits hb h = h
    All-receive (suc n) [] batches c hits hb h = h
    All-receive (suc n) (expired ∷ events) batches c hits hb h = h
    All-receive (suc n) (batch i ∷ events) batches c hits hb h =
        All-receive n events batches (c + 1) (hits ++ or_nothing f (get_elem? batches i)) hb
          (All-append P hits _ h (All-or_nothing batches i hb))

  -- One of the hits that the local tenant answered, under the local origin.
  abbrev pub IsOwn : List (Hit f) → MembraneHit f → Type 0
  IsOwn mine h = Any (λ (own : Hit f). h ≡ from_hit f local own) mine

  -- One of the hits that a peer, which is another tenant, answered to the query with its share of the
  -- budget and the filter that lets only shareable records through, under the id of the view that
  -- the opener gave.
  abbrev pub IsAnsweredBy : MembraneQuery f → MembraneHit f → PeerAllocation → Type 0
  IsAnsweredBy q h a =
      IsPeerOf f q.local_tenant_id a.member
      × ((view : View f) × (q.peer_opener a.member.tenant_id a.member.tenant_location ≡ ok view)
          × ((theirs : List (Hit f)) × (view.query_filtered q.embedding a.budget shareable_only
                ≡ ok theirs)
              × Any (λ (their : Hit f). h ≡ from_hit f (remote view.tenant_id) their) theirs))

  abbrev pub HasSource : MembraneQuery f → List (Hit f) → MembraneHit f → Type 0
  HasSource q mine h = IsOwn mine h ⊎ ((a : PeerAllocation) × IsAnsweredBy q h a)

  from_hit-Any :
      (origin : HitOrigin) (hits : List (Hit f))
      → All (λ h. Any (λ (s : Hit f). h ≡ from_hit f origin s) hits) (map (from_hit f origin) hits)
  from_hit-Any origin [] = tt
  from_hit-Any origin (h ∷ hits) = (
    inl refl,
    All-imp (λ g. Any (λ (s : Hit f). g ≡ from_hit f origin s) hits)
        (λ g. Any (λ (s : Hit f). g ≡ from_hit f origin s) (h ∷ hits)) (λ g found. inr found)
        (map (from_hit f origin) hits) (from_hit-Any origin hits),
  )

  pub local-HasSource :
      (q : MembraneQuery f) (mine : List (Hit f))
      → All (HasSource q mine) (map (from_hit f local) mine)
  local-HasSource q mine =
      All-imp (IsOwn mine) (HasSource q mine) (λ g own. inl own) (map (from_hit f local) mine)
        (from_hit-Any local mine)

  work-HasSource :
      (q : MembraneQuery f) (mine : List (Hit f)) (a : PeerAllocation)
      → IsPeerOf f q.local_tenant_id a.member
      → All (HasSource q mine) (work f q.peer_opener q.embedding a)
  unfolding work open_and_query or_no_hits
  work-HasSource q mine a peer =
      elim (Result-cases (q.peer_opener a.member.tenant_id a.member.tenant_location)) [
        | inr (e, closed) ↦ rw closed tt
        | inl (view, opened) ↦
            elim (Result-cases (view.query_filtered q.embedding a.budget shareable_only)) [
              | inr (e, failed) ↦ rw (opened, failed) tt
              | inl (theirs, answered) ↦
                  let sent = from_hit-Any (remote view.tenant_id) theirs in
                  rw (opened, answered)
                    (All-imp
                      (λ h. Any (λ (s : Hit f). h ≡ from_hit f (remote view.tenant_id) s) theirs)
                      (HasSource q mine)
                      (λ h found. inr (a, (peer, (view, opened, (theirs, answered, found)))))
                      (map (from_hit f (remote view.tenant_id)) theirs) sent)
            ]
      ]

  pub batches-HasSource :
      (q : MembraneQuery f) (mine : List (Hit f)) (alloc : List PeerAllocation)
      → All (λ (a : PeerAllocation). IsPeerOf f q.local_tenant_id a.member) alloc
      → All (All (HasSource q mine)) (map (work f q.peer_opener q.embedding) alloc)
  batches-HasSource q mine [] h = tt
  batches-HasSource q mine (a ∷ alloc) h =
      (work-HasSource q mine a h.0, batches-HasSource q mine alloc h.1)
