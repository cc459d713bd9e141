-- ===== src/Membrane/Allocation/Exact.antt =====
-- What `proportional_allocation` promises.
use hansa.Prelude.{
  ℕ, zero, suc, ◌+◌, ◌-◌, ◌%◌, ◌^◌, ◌≤◌, ◌<◌, max, ◌≡◌, refl, sym, ap, ◌∙◌, ◌⊎◌, List, [], ◌∷◌, map,
  arith, length, take, length-take, length-map,
}
use hansa.Floats.{Floats}
use hansa.Member.{MemberRecord}
use hansa.Membrane.Allocation.{
  PeerAllocation, sum, trim, distribute, pair_up, shares, allocate, proportional_allocation,
}
use hansa.Membrane.Allocation.Loops.{
  AtLeast, trim-Trimmed, length-distribute, sum-distribute, distribute-AtLeast,
}

abbrev pub budgets : List PeerAllocation → List ℕ
budgets = map (λ (a : PeerAllocation). a.budget)

abbrev pub members : List PeerAllocation → List MemberRecord
members = map (λ (a : PeerAllocation). a.member)

-- The whole budget is given out, no peer is below the floor, and the peers are the best-scored ones,
-- in order, at least one of them and at most the cap.
pub record IsExact {ℓ} {A : Type ℓ} (scored : List (MemberRecord × A)) (total least cap : ℕ)
    (r : List PeerAllocation) : Type 0 where
  pub spends_all : sum (budgets r) ≡ total
  pub floors : AtLeast least (budgets r)
  pub best_first : members r ≡ map (λ e. e.0) (take (length r) scored)
  pub some_peer : 0 < length r
  pub capped : length r ≤ cap

module _ {ℓ} {A : Type ℓ} where
  budgets-pair_up :
      (xs : List (MemberRecord × A)) (bs : List ℕ)
      → length xs ≡ length bs
      → budgets (pair_up xs bs) ≡ bs
  unfolding pair_up
  budgets-pair_up [] [] h = refl
  budgets-pair_up [] (b ∷ bs) h = absurd (omega arith)
  budgets-pair_up (x ∷ xs) [] h = absurd (omega arith)
  budgets-pair_up ((m, s) ∷ xs) (b ∷ bs) h = ap (◌∷◌ b) (budgets-pair_up xs bs (omega arith))

  members-pair_up :
      (xs : List (MemberRecord × A)) (bs : List ℕ)
      → length xs ≡ length bs
      → members (pair_up xs bs) ≡ map (λ e. e.0) xs
  unfolding pair_up
  members-pair_up [] [] h = refl
  members-pair_up [] (b ∷ bs) h = absurd (omega arith)
  members-pair_up (x ∷ xs) [] h = absurd (omega arith)
  members-pair_up ((m, s) ∷ xs) (b ∷ bs) h = ap (◌∷◌ m) (members-pair_up xs bs (omega arith))

  length-pair_up :
      (xs : List (MemberRecord × A)) (bs : List ℕ)
      → length xs ≡ length bs
      → length (pair_up xs bs) ≡ length bs
  unfolding pair_up
  length-pair_up [] [] h = refl
  length-pair_up [] (b ∷ bs) h = absurd (omega arith)
  length-pair_up (x ∷ xs) [] h = absurd (omega arith)
  length-pair_up ((m, s) ∷ xs) (b ∷ bs) h = ap suc (length-pair_up xs bs (omega arith))

  take-take : (n m : ℕ) (xs : List A) → n ≤ m → take n (take m xs) ≡ take n xs
  take-take zero m xs h = refl
  take-take (suc n) zero xs h = absurd (omega arith)
  take-take (suc n) (suc m) [] h = refl
  take-take (suc n) (suc m) (x ∷ xs) h = ap (◌∷◌ x) (take-take n m xs (omega arith))

map-max-AtLeast {ℓ} :
    {A : Type ℓ} (g : A → ℕ) (least : ℕ) (xs : List A)
    → AtLeast least (map (λ x. max (g x) least) xs)
map-max-AtLeast g least [] = tt
map-max-AtLeast g least (x ∷ xs) = (omega arith, map-max-AtLeast g least xs)

module _ (f : Floats) where
  open f use {F32}

  shares-AtLeast :
      (xs : List (MemberRecord × F32)) (total least : ℕ) → AtLeast least (shares f xs total least)
  unfolding shares
  shares-AtLeast xs total least = map-max-AtLeast _ least _

  length-shares :
      (xs : List (MemberRecord × F32)) (total least : ℕ)
      → length (shares f xs total least) ≡ length xs
  unfolding shares
  length-shares xs total least = length-map _ _ ∙ length-map xs _

  allocate-IsExact :
      (scored : List (MemberRecord × F32)) (total least cap : ℕ)
      → 0 < length (take cap scored)
      → least ≤ total
      → sum (shares f (take cap scored) total least) < 2 ^ 32
      → IsExact scored total least cap (allocate f scored total least cap)
  unfolding allocate
  allocate-IsExact scored total least cap some_peer floor small =
      let trimmed = take cap scored in
      let first = shares f trimmed total least in
      let spent = sum first % 2 ^ 32 in
      let r = trim (spent + length first + 1) least total first spent in
      let t =
        trim-Trimmed (spent + length first + 1) least total first spent floor (omega arith)
          (omega (arith, length-shares trimmed total least)) (omega arith)
          (shares-AtLeast trimmed total least) in
      let final = distribute (total - r.1) 0 r.0 in
      let len = length-distribute (total - r.1) 0 r.0 in
      let count = length-shares trimmed total least in
      let bound = length-take cap scored in
      let peers = take (length final) trimmed in
      let matched : length peers ≡ length final =
        omega (arith, length-take (length final) trimmed, len, count, t.no_more_peers) in
      let size = length-pair_up peers final matched in
      let money = budgets-pair_up peers final matched in
      record {
        spends_all =
            ap sum money
            ∙ omega (arith, sum-distribute (total - r.1) 0 r.0 t.some_peer, t.spent, t.within);
        floors = rw money (distribute-AtLeast least (total - r.1) 0 r.0 t.floors);
        best_first =
            members-pair_up peers final matched
            ∙ ap (map (λ e. e.0)) (
                take-take (length final) cap scored
                  (omega (arith, len, count, bound, t.no_more_peers))
                ∙ ap (λ n. take n scored) (sym size));
        some_peer = omega (arith, size, len, t.some_peer);
        capped = omega (arith, size, len, count, bound, t.no_more_peers);
      }

  -- With a budget, a peer and room for one, and a floor within the budget: the shares add up to the
  -- whole budget, none is below the floor, and they go to the best-scored peers in order, at most
  -- `max_peers` of them. (The first pass adds up in `u32`, so its sum has to fit.)
  pub proportional_allocation-IsExact :
      (scored : List (MemberRecord × F32)) (total min_per_peer max_peers : ℕ)
      → 0 < length scored
      → 0 < total
      → 0 < max_peers
      → min_per_peer ≤ total
      → sum (shares f (take max_peers scored) total min_per_peer) < 2 ^ 32
      → IsExact scored total min_per_peer max_peers
          (proportional_allocation f scored total min_per_peer max_peers)
  unfolding proportional_allocation
  proportional_allocation-IsExact [] total least room h0 h1 h2 h3 h4 = absurd (omega arith)
  proportional_allocation-IsExact (x ∷ xs) total least room h0 h1 h2 h3 h4 =
      let some_peer : 0 < length (take room (x ∷ xs)) = omega (arith, length-take room (x ∷ xs)) in
      let past : proportional_allocation f (x ∷ xs) total least room
          ≡ allocate f (x ∷ xs) total least room =
        ground arith in
      rw past (allocate-IsExact (x ∷ xs) total least room some_peer h3 h4)

  -- Nobody to ask, nothing to spend or no room: nobody is asked.
  pub proportional_allocation-none :
      (scored : List (MemberRecord × F32)) (total min_per_peer max_peers : ℕ)
      → ((scored ≡ []) ⊎ (total ≡ 0)) ⊎ (max_peers ≡ 0)
      → proportional_allocation f scored total min_per_peer max_peers ≡ []
  unfolding proportional_allocation
  proportional_allocation-none scored total least room h = ground (arith, h)
