-- ===== src/Tests/HybridTests.antt =====
-- The theorem on the hybrid registry, with one remote that lists bob and one that fails.
use hansa.Prelude.{◌≡◌, refl, List, [], ◌∷◌}
use hansa.Prelude.Bytes.{Bytes}
use hansa.Prelude.Assoc.{lookup}
use hansa.Error.{Result, ok, err, json}
use hansa.Member.{MemberRecord}
use hansa.Chain.Order.{IsAscending}
use hansa.Chain.Table.{find_member, or_else}
use hansa.Registry.File.{members}
use hansa.Hybrid.{hybrid_members}
use hansa.Hybrid.Merged
use hansa.Hybrid.Merged.{first_listed}
use hansa.Tests.Toy.{toy, team, bob_record}

abbrev fetch : Bytes → Bytes → Result (List MemberRecord)
fetch [] id = err json
fetch (x ∷ url) id = ok (bob_record ∷ [])

abbrev urls : List Bytes
urls = [] ∷ (104 ∷ []) ∷ []

no_members : members toy team [] ≡ (ok [], [])
unfolding members lookup
no_members = refl

hybrid_members-result_example :
    (all : List MemberRecord) × (hybrid_members fetch toy team urls [] ≡ (ok all, []))
    × IsAscending all
    × ((tid : Bytes)
        → find_member tid all ≡ or_else (find_member tid []) (first_listed fetch team tid urls))
hybrid_members-result_example = Merged.hybrid_members-result fetch team toy urls [] [] no_members tt
