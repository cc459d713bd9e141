-- ===== src/Membrane/Allocation/Loops.antt =====
-- The two loops of `proportional_allocation`: trimming what is over-spent, handing out what is left.
use hansa.Prelude.{
  ℕ, zero, suc, ◌+◌, ◌-◌, ◌%◌, ◌≤◌, ◌<◌, ◌≡◌, refl, ap, ◌∙◌, inl, inr, true, false, none, some,
  List, [], ◌∷◌, arith, ltb, ltb→lt, Bool-cases, Option-cases, length, modify, All, length-modify,
}
use hansa.Membrane.Allocation.{sum, trim_last, drop_last, last, trim, distribute}

abbrev pub AtLeast : ℕ → List ℕ → Type 0
AtLeast least = All (λ x. least ≤ x)

pub trim_last-some :
    (least : ℕ) (xs : List ℕ) {ys : List ℕ}
    → trim_last least xs ≡ some ys
    → (sum ys + 1 ≡ sum xs) × (length ys ≡ length xs) × (AtLeast least xs → AtLeast least ys)
unfolding trim_last sum
trim_last-some least [] h = absurd (cc h)
trim_last-some least (x ∷ xs) {ys} h = elim (Option-cases (trim_last least xs)) [
  | inl e ↦ elim (Bool-cases (ltb least x)) [
    | inl more ↦
        let result : some ((x - 1) ∷ xs) ≡ some ys = rw (e, more) at h in
        let shape : (x - 1) ∷ xs ≡ ys = cc in
        rw (← shape) (ground arith, refl, λ a. (ground arith, a.1))
    | inr no_more ↦ absurd (ground arith)
  ]
  | inr (zs, e) ↦
      let (total, len, keep) = trim_last-some least xs e in
      let result : some (x ∷ zs) ≡ some ys = rw e at h in
      let shape : x ∷ zs ≡ ys = cc in
      rw (← shape) (omega (arith, total), omega (arith, len), λ a. (a.0, keep a.1))
]

pub trim_last-none : (least : ℕ) (xs : List ℕ) → trim_last least xs ≡ none → All (λ x. x ≤ least) xs
unfolding trim_last
trim_last-none least [] h = tt
trim_last-none least (x ∷ xs) h = ground (arith, trim_last-none least xs)

pub sum-drop_last : (x : ℕ) (xs : List ℕ) → sum (drop_last (x ∷ xs)) + last (x ∷ xs) ≡ x + sum xs
unfolding sum drop_last last
sum-drop_last x [] = omega arith
sum-drop_last x (y ∷ ys) = omega (arith, sum-drop_last y ys)

pub length-drop_last : (x : ℕ) (xs : List ℕ) → length (drop_last (x ∷ xs)) ≡ length xs
unfolding drop_last
length-drop_last x [] = refl
length-drop_last x (y ∷ ys) = ap suc (length-drop_last y ys)

pub drop_last-AtLeast :
    (least x : ℕ) (xs : List ℕ) → AtLeast least (x ∷ xs) → AtLeast least (drop_last (x ∷ xs))
unfolding drop_last
drop_last-AtLeast least x [] h = tt
drop_last-AtLeast least x (y ∷ ys) h = (h.0, drop_last-AtLeast least y ys h.1)

-- What the trimming leaves: nothing over-spent, the floors kept, and a peer at least.
pub record Trimmed (least total n : ℕ) (r : List ℕ × ℕ) : Type 0 where
  pub spent : r.1 ≡ sum r.0
  pub within : r.1 ≤ total
  pub floors : AtLeast least r.0
  pub some_peer : 0 < length r.0
  pub no_more_peers : length r.0 ≤ n

-- One round of the loop, in each of its three cases.
module _ (fuel least total x : ℕ) (xs : List ℕ) (spent : ℕ) where
  trim_fits : ltb total spent ≡ false → trim (suc fuel) least total (x ∷ xs) spent ≡ (x ∷ xs, spent)
  unfolding trim
  trim_fits h = ground (arith, h)

  trim_slot :
      (ys : List ℕ)
      → ltb total spent ≡ true
      → trim_last least (x ∷ xs) ≡ some ys
      → trim (suc fuel) least total (x ∷ xs) spent ≡ trim fuel least total ys (spent - 1)
  unfolding trim
  trim_slot ys h e = rw (h, e, trim)

  trim_drop :
      ltb total spent ≡ true
      → trim_last least (x ∷ xs) ≡ none
      → trim (suc fuel) least total (x ∷ xs) spent
        ≡ trim fuel least total (drop_last (x ∷ xs)) (spent - last (x ∷ xs))
  unfolding trim
  trim_drop h e = rw (h, e, trim)

-- A single slot at the floor is not over-spent, so there is another one.
others :
    (least total x : ℕ) (xs : List ℕ) (spent : ℕ)
    → least ≤ total
    → ltb total spent ≡ true
    → spent ≡ sum (x ∷ xs)
    → x ≤ least
    → 0 < length xs
unfolding sum
others least total x [] spent l over e h = absurd (omega (arith, ltb→lt total spent over))
others least total x (y ∷ ys) spent l over e h = omega arith

-- The loop from a list of any length that is not empty.
abbrev Trims : ℕ → ℕ → ℕ → List ℕ → ℕ → Type 0
Trims fuel least total ys spent =
    spent + length ys < fuel
    → 0 < length ys
    → spent ≡ sum ys
    → AtLeast least ys
    → Trimmed least total (length ys) (trim fuel least total ys spent)

weaken :
    (least total n m : ℕ) (r : List ℕ × ℕ)
    → n ≤ m
    → Trimmed least total n r
    → Trimmed least total m r
weaken least total n m r h t = record {
  spent = t.spent;
  within = t.within;
  floors = t.floors;
  some_peer = t.some_peer;
  no_more_peers = omega (arith, t.no_more_peers);
}

pub trim-Trimmed :
    (fuel least total : ℕ) (xs : List ℕ) (spent : ℕ)
    → least ≤ total
    → Trims fuel least total xs spent
trim-Trimmed zero least total xs spent l h n e a = absurd (omega arith)
trim-Trimmed (suc fuel) least total [] spent l h n e a = absurd (omega arith)
trim-Trimmed (suc fuel) least total (x ∷ xs) spent l h n e a = elim (Bool-cases (ltb total spent)) [
  | inr fits ↦ rw (trim_fits fuel least total x xs spent fits) (record {
    spent = e;
    within = ground arith;
    floors = a;
    some_peer = omega arith;
    no_more_peers = omega arith;
  })
  | inl over ↦ elim (Option-cases (trim_last least (x ∷ xs))) [
    | inr (ys, slot) ↦
        let (total', len, keep) = trim_last-some least (x ∷ xs) slot in
        let rest =
          trim-Trimmed fuel least total ys (spent - 1) l
            (omega (arith, len, ltb→lt total spent over)) (omega (arith, len))
            (omega (arith, total', e)) (keep a) in
        rw (trim_slot fuel least total x xs spent ys over slot)
          (weaken least total (length ys) (length (x ∷ xs)) _ (omega (arith, len)) rest)
    | inl none_left ↦
        let ys = drop_last (x ∷ xs) in
        let at_most = trim_last-none least (x ∷ xs) none_left in
        let total' = sum-drop_last x xs in
        let len = length-drop_last x xs in
        let rest =
          trim-Trimmed fuel least total ys (spent - last (x ∷ xs)) l (omega (arith, len))
            (omega (arith, len, others least total x xs spent l over e at_most.0))
            (unfold sum in omega (arith, total', e)) (drop_last-AtLeast least x xs a) in
        rw (trim_drop fuel least total x xs spent over none_left)
          (weaken least total (length ys) (length (x ∷ xs)) _ (omega (arith, len)) rest)
  ]
]

-- Handing out: every round adds one record to one slot.
sum-modify : (i : ℕ) (xs : List ℕ) → i < length xs → sum (modify i suc xs) ≡ sum xs + 1
unfolding sum
sum-modify i [] h = absurd (omega arith)
sum-modify zero (x ∷ xs) h = omega arith
sum-modify (suc i) (x ∷ xs) h = omega (arith, sum-modify i xs)

modify-AtLeast : (least i : ℕ) (xs : List ℕ) → AtLeast least xs → AtLeast least (modify i suc xs)
modify-AtLeast least i [] h = tt
modify-AtLeast least zero (x ∷ xs) h = (omega arith, h.1)
modify-AtLeast least (suc i) (x ∷ xs) h = (h.0, modify-AtLeast least i xs h.1)

pub length-distribute : (n i : ℕ) (xs : List ℕ) → length (distribute n i xs) ≡ length xs
unfolding distribute
length-distribute zero i xs = refl
length-distribute (suc n) i [] = refl
length-distribute (suc n) i (x ∷ xs) =
    let ys = modify (i % length (x ∷ xs)) suc (x ∷ xs) in
    length-distribute n (i + 1) ys ∙ length-modify (i % length (x ∷ xs)) suc (x ∷ xs)

pub sum-distribute : (n i : ℕ) (xs : List ℕ) → 0 < length xs → sum (distribute n i xs) ≡ sum xs + n
unfolding distribute
sum-distribute zero i xs h = omega arith
sum-distribute (suc n) i [] h = absurd (omega arith)
sum-distribute (suc n) i (x ∷ xs) h =
    let k = i % length (x ∷ xs) in
    let ys = modify k suc (x ∷ xs) in
    omega (
      arith,
      sum-distribute n (i + 1) ys (omega (arith, length-modify k suc (x ∷ xs))),
      sum-modify k (x ∷ xs) (omega arith),
    )

pub distribute-AtLeast :
    (least n i : ℕ) (xs : List ℕ) → AtLeast least xs → AtLeast least (distribute n i xs)
unfolding distribute
distribute-AtLeast least zero i xs h = h
distribute-AtLeast least (suc n) i [] h = h
distribute-AtLeast least (suc n) i (x ∷ xs) h =
    distribute-AtLeast least n (i + 1) (modify (i % length (x ∷ xs)) suc (x ∷ xs))
      (modify-AtLeast least (i % length (x ∷ xs)) (x ∷ xs) h)
