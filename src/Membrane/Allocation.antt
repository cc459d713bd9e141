-- ===== src/Membrane/Allocation.antt =====
-- crates/hansa/src/membrane/allocation.rs: the remote budget, shared out among scored peers.
-- The arithmetic of `u32` stays in range under the theorems' hypotheses; the one sum that could
-- wrap is written modulo 2^32.
pub mod Loops
pub mod Exact
use hansa.Prelude.{
  ℕ, zero, suc, ◌+◌, ◌-◌, ◌*◌, ◌/◌, ◌%◌, ◌^◌, ◌≤◌, ◌<◌, min, max, ◌≡◌, refl, sym, ap, ap₂, ◌∙◌,
  subst, ◌≢◌, ◌↔◌, ◌⊎◌, inl, inr, Bool, true, false, not, ◌&&◌, ◌||◌, Option, none, some, List, [],
  ◌∷◌, ◌++◌, map, append_assoc, append-nil, arith, ltb, leb, ◌==◌, if◌then◌else◌, ltb→lt, lt→ltb,
  leb→le, le→leb, ==_iff, Bool-cases, Option-cases, length, get_elem?, take, drop, modify,
  length-append, All, All-append, length-take, length-drop, length-map, length-modify,
  take-append-drop, take-append, drop-append, All-take,
}
use hansa.Floats.{Floats}
use hansa.Member.{MemberRecord}

abbrev pub default_max_peers : ℕ
default_max_peers = 8

pub record PeerAllocation : Type 0 where
  pub member : MemberRecord
  pub budget : ℕ

unfoldable pub sum : List ℕ → ℕ
sum [] = 0
sum (x ∷ xs) = x + sum xs

-- `alloc.iter_mut().rev().find(|v| **v > min)`, with one taken from the slot that is found.
unfoldable pub trim_last : ℕ → List ℕ → Option (List ℕ)
trim_last least [] = none
trim_last least (x ∷ xs) = elim (trim_last least xs) [
  | some xs' ↦ some (x ∷ xs')
  | none ↦ if ltb least x then some ((x - 1) ∷ xs) else none
]

-- `alloc.remove(alloc.len() - 1)`, and what stood there.
unfoldable pub drop_last : List ℕ → List ℕ
drop_last [] = []
drop_last (x ∷ []) = []
drop_last (x ∷ y ∷ ys) = x ∷ drop_last (y ∷ ys)

unfoldable pub last : List ℕ → ℕ
last [] = 0
last (x ∷ []) = x
last (x ∷ y ∷ ys) = last (y ∷ ys)

-- `while spent > total && !alloc.is_empty()`, on fuel. The result is `alloc` and `spent`.
unfoldable pub trim : ℕ → ℕ → ℕ → List ℕ → ℕ → List ℕ × ℕ
unfolding trim_last drop_last last
trim zero least total alloc spent = (alloc, spent)
trim (suc fuel) least total [] spent = ([], spent)
trim (suc fuel) least total (x ∷ xs) spent =
    let slot = λ (trimmed : List ℕ). trim fuel least total trimmed (spent - 1) in
    let dropped = trim fuel least total (drop_last (x ∷ xs)) (spent - last (x ∷ xs)) in
    elim (ltb total spent) [
      | true ↦ elim (trim_last least (x ∷ xs)) [ some trimmed ↦ slot trimmed | none ↦ dropped ]
      | false ↦ (x ∷ xs, spent)
    ]

-- `while spent < total && !alloc.is_empty()`: one for each of the `rounds` records that are left.
unfoldable pub distribute : ℕ → ℕ → List ℕ → List ℕ
distribute zero idx alloc = alloc
distribute (suc rounds) idx [] = []
distribute (suc rounds) idx (x ∷ xs) =
    distribute rounds (idx + 1) (modify (idx % length (x ∷ xs)) suc (x ∷ xs))

unfoldable pub pair_up {ℓ} : {A : Type ℓ} → List (MemberRecord × A) → List ℕ → List PeerAllocation
pair_up [] budgets = []
pair_up (s ∷ scored) [] = []
pair_up ((m, s) ∷ scored) (b ∷ budgets) = record { member = m; budget = b } ∷ pair_up scored budgets

-- `scored.is_empty()`
abbrev pub is_empty {ℓ} : {A : Type ℓ} → List A → Bool
is_empty [] = true
is_empty (x ∷ xs) = false

module _ (f : Floats) where
  open f use {
    F32, F64, infinity, milli, add, sub, min32, to_f64, of_u32, add64, mul64, div64, floor_u32,
  }

  unfoldable pub min_score : F32 → List (MemberRecord × F32) → F32
  min_score acc [] = acc
  min_score acc ((m, s) ∷ xs) = min_score (min32 acc s) xs

  unfoldable pub sum64 : F64 → List F32 → F64
  sum64 acc [] = acc
  sum64 acc (x ∷ xs) = sum64 (add64 acc (to_f64 x)) xs

  -- The first pass: a share in proportion to the shifted score, and at least the floor.
  unfoldable pub shares : List (MemberRecord × F32) → ℕ → ℕ → List ℕ
  unfolding min_score sum64
  shares trimmed total min_per_peer =
      let least = min_score infinity trimmed in
      let shifted = map (λ (e : MemberRecord × F32). add (sub e.1 least) milli) trimmed in
      let all = sum64 (of_u32 0) shifted in
      map (λ s. max (floor_u32 (mul64 (div64 (to_f64 s) all) (of_u32 total))) min_per_peer) shifted

  -- The function past its guard.
  unfoldable pub allocate : List (MemberRecord × F32) → ℕ → ℕ → ℕ → List PeerAllocation
  unfolding shares trim distribute pair_up sum
  allocate scored total min_per_peer max_peers =
      let trimmed = take max_peers scored in
      let first = shares trimmed total min_per_peer in
      let spent = sum first % 2 ^ 32 in
      let (alloc, left) = trim (spent + length first + 1) min_per_peer total first spent in
      let final = distribute (total - left) 0 alloc in pair_up (take (length final) trimmed) final

  unfoldable pub proportional_allocation :
      List (MemberRecord × F32) → ℕ → ℕ → ℕ → List PeerAllocation
  proportional_allocation scored total min_per_peer max_peers =
      if is_empty scored || total == 0 || max_peers == 0
      then []
      else allocate scored total min_per_peer max_peers
