-- ===== src/Tests/CacheTests.antt =====
-- The theorems on the bundle cache, with thousandths as floats and numbers as bundles.
use hansa.Prelude.{ℕ, ◌≡◌, refl, ◌≢◌, ◌⊎◌, true, none, some, List, [], ◌∷◌, arith, leb}
use hansa.Floats.{thousandths, thousandths-IsOrdered}
use hansa.Cache
use hansa.Cache.{BundleCache, with_config, unit_normalise, expire, dot, squares, dot_from}
use hansa.Cache.Bounds
use hansa.Cache.Bounds.{IsBounded, run_all, Operation, insert, get, len, invalidate_all}
use hansa.Cache.Answers
use hansa.Cache.Answers.{IsServed, IsMissed}

abbrev query : List ℕ
query = 0 ∷ 1000 ∷ []

abbrev two_slots : BundleCache thousandths ℕ
two_slots = record { dim = 2; capacity = 2; ttl = 60; hit_threshold = 900; entries = [] }

abbrev operations : List (Operation thousandths ℕ)
operations =
    insert 0 0 query 7 ∷ get 5 query ∷ insert 9 9 query 8 ∷ insert 9 9 query 9 ∷ len 10 ∷ []

run_all-IsBounded_example :
    IsBounded thousandths ℕ
      (run_all thousandths ℕ operations (with_config thousandths ℕ 2 2 60 900))
run_all-IsBounded_example = Bounds.run_all-IsBounded thousandths ℕ operations 2 2 60 900

query_is_unit : unit_normalise thousandths ℕ query ≡ some query
unfolding unit_normalise squares
query_is_unit = refl

get-answers_example :
    let r = Cache.get thousandths ℕ 5 query two_slots in
    IsMissed thousandths ℕ (expire thousandths ℕ 5 two_slots) query r
    ⊎ IsServed thousandths ℕ (expire thousandths ℕ 5 two_slots) query r
get-answers_example =
    Answers.get-answers thousandths ℕ thousandths-IsOrdered 5 query query two_slots refl
      query_is_unit

close_enough : leb 900 (dot thousandths ℕ query query) ≡ true
unfolding dot dot_from
close_enough = refl

get-insert_example :
    (Cache.get thousandths ℕ 59 query (Cache.insert thousandths ℕ 1 1 query 7 two_slots)).0 ≢ none
get-insert_example =
    Answers.get-insert thousandths ℕ thousandths-IsOrdered 1 1 59 query query 7 two_slots refl
      query_is_unit close_enough (omega arith)
