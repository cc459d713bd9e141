-- ===== src/Tests/AllocationTests.antt =====
-- The theorems on the allocation of the budget, at two scored peers.
use hansa.Prelude.{ℕ, ◌^◌, ◌<◌, ◌≡◌, refl, List, [], ◌∷◌, arith, take}
use hansa.Floats.{thousandths}
use hansa.Member.{MemberRecord}
use hansa.Membrane.Allocation.{
  proportional_allocation, shares, min_score, sum64, allocate, trim, distribute, pair_up, sum,
  trim_last, drop_last, last,
}
use hansa.Membrane.Allocation.Exact
use hansa.Membrane.Allocation.Exact.{IsExact, budgets}
use hansa.Tests.Toy.{alice_record, bob_record}

abbrev scored : List (MemberRecord × ℕ)
scored = (alice_record, 900) ∷ (bob_record, 400) ∷ []

shares_fit : sum (shares thousandths (take 8 scored) 100 20) < 2 ^ 32
unfolding shares min_score sum64 sum
shares_fit = omega arith

-- Bob's floor is raised out of alice's share.
two_budgets : budgets (proportional_allocation thousandths scored 100 20 8) ≡ 80 ∷ 20 ∷ []
unfolding proportional_allocation allocate shares min_score sum64 sum trim trim_last drop_last last
    distribute pair_up
two_budgets = refl

proportional_allocation-IsExact_example :
    IsExact scored 100 20 8 (proportional_allocation thousandths scored 100 20 8)
proportional_allocation-IsExact_example =
    Exact.proportional_allocation-IsExact thousandths scored 100 20 8 (omega arith) (omega arith)
      (omega arith) (omega arith) shares_fit
