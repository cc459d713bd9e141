-- ===== src/Tests/RegistryTests.antt =====
-- The theorems on the file registry, at the toy chain and an empty store.
use hansa.Prelude.{◌≡◌, refl, ◌≢◌, none, some, List, [], ◌∷◌, arith}
use hansa.Prelude.Bytes.{Bytes, eq_bytes}
use hansa.Prelude.Assoc.{insert, lookup}
use hansa.Error.{ok, err, unauthorized, id_mismatch}
use hansa.Exec.{◌>>◌}
use hansa.Chain.{Body, signed, replay, checkpoint, zero_hash}
use hansa.Chain.Order.{IsAscending}
use hansa.Chain.Table.{verdict, settle, find_member}
use hansa.Chain.Collapse.{id_of}
use hansa.Sign.{public, from_skipper}
use hansa.Registry.File.{FileRegistry, checkpoint_locked, append_next, found, members}
use hansa.Registry.Owned
use hansa.Registry.Owned.{Continues}
use hansa.Registry.Roster
use hansa.Registry.Roster.{Change, admit, revoke, collapse, change_all, update_all}
use hansa.Registry.Trust
use hansa.Tests.Toy.{
  toy, toy-IsSound, key, stranger, team, alice, alice_record, bob_record, root_link, admit_link,
  admitted,
}

-- A store that holds the chain on which alice is a member.
abbrev store : FileRegistry
store = (team, root_link ∷ admit_link ∷ []) ∷ []

checkpoint_locked-Continues_example :
    ((checkpoint_locked toy team key 30 store).0 ≡ ok tt)
    × Continues toy team key
        (checkpoint_locked toy team key 30 store).1
        admitted.0.embedding_dim
        (λ tid. find_member tid admitted.0.active)
unfolding lookup eq_bytes from_skipper public
checkpoint_locked-Continues_example =
    Owned.checkpoint_locked-Continues toy team key toy-IsSound 30 store admitted.1

append_next-Continues_example :
    ((append_next toy team key (Body.admit bob_record none) 30 store).0 ≡ ok tt)
    × Continues toy team key
        (append_next toy team key (Body.admit bob_record none) 30 store).1
        admitted.0.embedding_dim
        (λ tid.
          settle (verdict tid (Body.admit bob_record none)) (find_member tid admitted.0.active))
unfolding lookup eq_bytes from_skipper public
append_next-Continues_example =
    Owned.append_next-Continues toy team key toy-IsSound (Body.admit bob_record none) 30 store tt
      admitted.1

abbrev changes : List Change
changes =
    admit alice_record none 6 ∷ admit bob_record none 7 ∷ collapse 8 ∷ revoke alice 9 none 9 ∷ []

registry-refines-roster_example :
    let done = (found toy team key 4 5 >> change_all toy team key changes) [] in
    (done.0 ≡ ok tt)
    × ((ms : List _) × (members toy team done.1 ≡ (ok ms, done.1))
        × IsAscending ms
        × ((tid : Bytes) → find_member tid ms ≡ update_all changes (λ t. none) tid))
unfolding lookup eq_bytes from_skipper public
registry-refines-roster_example =
    Roster.registry-refines-roster toy toy-IsSound team key 4 5 changes [] refl

stranger_is_another : public toy stranger ≢ public toy key
unfolding public
stranger_is_another e = cc e

append_next-foreign_example :
    let after = append_next toy team stranger (Body.admit bob_record none) 30 store in
    (after.0 ≡ ok tt) × (members toy team after.1 ≡ (err unauthorized, after.1))
unfolding lookup eq_bytes from_skipper public
append_next-foreign_example =
    Trust.append_next-foreign toy team key stranger (Body.admit bob_record none) 30 store admitted.0
      admitted.1 stranger_is_another (omega arith)

stranger_has_another_id : id_of toy stranger ≢ zero_hash
unfolding from_skipper public
stranger_has_another_id e = cc e

members-forged_example :
    let log = signed toy stranger 9 zero_hash (checkpoint (bob_record ∷ []) 4 5) ∷ [] in
    let after = insert zero_hash log store in
    (members toy zero_hash after ≡ (ok (bob_record ∷ []), after))
    × (replay toy log (some zero_hash) ≡ err id_mismatch)
members-forged_example =
    Trust.members-forged toy toy-IsSound zero_hash stranger (bob_record ∷ []) 9 4 5 zero_hash store
      (tt, tt) stranger_has_another_id
