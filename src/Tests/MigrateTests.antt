-- ===== src/Tests/MigrateTests.antt =====
-- The theorems on the migration, with alice in the snapshot and bob joining.
use hansa.Prelude.{◌≡◌, refl, none, List, [], ◌∷◌}
use hansa.Prelude.Assoc.{lookup}
use hansa.Error.{ok}
use hansa.Chain.Order.{IsAscending}
use hansa.Chain.Table.{find_member, settle, last_member}
use hansa.Registry.File.{members}
use hansa.Migrate.{V1Event, join, leave, read_v1_members, migrate_v1}
use hansa.Migrate.Kept
use hansa.Migrate.Kept.{last_event}
use hansa.Tests.Toy.{toy, toy-IsSound, key, team, alice, bob, alice_record, bob_record}

abbrev v1_log : List V1Event
v1_log = join bob_record ∷ leave alice ∷ join alice_record ∷ leave bob ∷ []

read_v1_members-result_example :
    IsAscending (read_v1_members (alice_record ∷ []) v1_log)
    × (find_member alice (read_v1_members (alice_record ∷ []) v1_log)
        ≡ settle (last_event alice v1_log) (settle (last_member alice (alice_record ∷ [])) none))
read_v1_members-result_example = Kept.read_v1_members-result (alice_record ∷ []) v1_log alice

migrate_v1-members_example :
    let done = migrate_v1 toy (alice_record ∷ []) v1_log key 4 5 6 [] in
    (done.0 ≡ ok team)
    × (members toy team done.1 ≡ (ok (read_v1_members (alice_record ∷ []) v1_log), done.1))
unfolding lookup
migrate_v1-members_example =
    Kept.migrate_v1-members toy toy-IsSound (alice_record ∷ []) v1_log key 4 5 6 [] refl
