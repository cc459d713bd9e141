-- ===== src/Tests/HandleTests.antt =====
-- The theorems on the handle, at the toy chain on which alice is a member.
use hansa.Prelude.{◌≡◌, refl, ◌≢◌, ◌⊎◌, none, some, [], ◌∷◌}
use hansa.Prelude.Bytes.{eq_bytes}
use hansa.Prelude.Assoc.{lookup}
use hansa.Error.{ok, err, dim_mismatch}
use hansa.Sign.{from_skipper, public}
use hansa.Chain.{Body}
use hansa.Chain.Table.{find_member}
use hansa.Registry.File.{FileRegistry}
use hansa.Registry.Owned.{Continues}
use hansa.Handle.{Hansa, admit_member, revoke_member, leave_hansa, compact_hansa}
use hansa.Handle.Membership
use hansa.Handle.Membership.{after_body}
use hansa.Tests.Toy.{
  toy, toy-IsSound, key, team, alice, alice_record, bob_record, root_link, admit_link, admitted,
}

abbrev store : FileRegistry
store = (team, root_link ∷ admit_link ∷ []) ∷ []

abbrev handle : Hansa
handle = record {
  id = team;
  skipper = some key;
  local_tenant_id = alice;
  local_tenant_location = alice_record.tenant_location;
  embedding_dim = 4;
}

admit_member-result_example :
    let r = admit_member toy handle bob_record 9 store in
    (bob_record.embedding_dim ≢ admitted.0.embedding_dim)
      × (r ≡ (err (dim_mismatch admitted.0.embedding_dim bob_record.embedding_dim), store))
    ⊎ (bob_record.embedding_dim ≡ admitted.0.embedding_dim)
      × (r.0 ≡ ok tt)
      × Continues toy team key r.1 admitted.0.embedding_dim
          (after_body toy toy-IsSound handle key (Body.admit bob_record none) admitted.0)
unfolding lookup eq_bytes from_skipper public
admit_member-result_example =
    Membership.admit_member-result toy toy-IsSound handle key bob_record 9 store admitted.0 refl
      refl admitted.1

revoke_and_compact-result_example :
    (((revoke_member toy handle alice 8 9 store).0 ≡ ok tt)
      × Continues toy team key
          (revoke_member toy handle alice 8 9 store).1
          admitted.0.embedding_dim
          (after_body toy toy-IsSound handle key (Body.revoke alice 8 none) admitted.0))
    × (((leave_hansa toy handle 8 9 store).0 ≡ ok tt)
        × Continues toy team key
            (leave_hansa toy handle 8 9 store).1
            admitted.0.embedding_dim
            (after_body toy toy-IsSound handle key (Body.revoke alice 8 none) admitted.0))
    × (((compact_hansa toy handle 9 store).0 ≡ ok tt)
        × Continues toy team key
            (compact_hansa toy handle 9 store).1
            admitted.0.embedding_dim
            (λ tid. find_member tid admitted.0.active))
unfolding lookup eq_bytes from_skipper public
revoke_and_compact-result_example =
    Membership.revoke_and_compact-result toy toy-IsSound handle key alice 8 9 store admitted.0 refl
      admitted.1
