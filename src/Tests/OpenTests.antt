-- ===== src/Tests/OpenTests.antt =====
-- `Hansa::open` at the toy chain: a reader who has seen alice admitted is shown the log without her.
use hansa.Prelude.{◌≡◌, refl, ◌∙◌, true, none, some, [], ◌∷◌, arith, length, drop, All}
use hansa.Prelude.Bytes.{Bytes, IsByte, eq_bytes, lt_bytes}
use hansa.Error.{ok, chain_regressed}
use hansa.Sign.{public, from_skipper}
use hansa.Prelude.Assoc.{lookup, insert, remove}
use hansa.Prelude.Sort.{insert_by, sort_by}
use hansa.Genesis
use hansa.Sign
use hansa.Sign.Canonical
use hansa.Member
use hansa.Member.{write_auth, write_bearer, write_location}
use hansa.Chain
use hansa.Chain.{
  zero_hash, root, genesis_link, apply_body, before_member, check_pin, finish, insert_members,
  replay_links, step, verify_link, verify_root, write_canonical, write_member_pub, write_members,
  write_reason, Link, ReplayOutcome, Body, signed, hash, replay,
}
use hansa.Registry.File.{FileRegistry, read_chain, members}
use hansa.Hex.{returned, failed}
use hansa.Handle.Rollback
use hansa.Handle.Open.{HansaConfig, found_or_require, verified, open_hansa, opened, resolve_id}
use hansa.HeadCache.{check_and_record, check_loaded, load, load_text, store, HeadCache}
use hansa.Floats.{thousandths}
use hansa.Saga.{Saga}
use hansa.Membrane.Query.{MembraneQuery}
use hansa.Handle.Query.{SagaDir, Tenants, membrane_query, query, peer_sagas, load_peer_saga}
use hansa.Handle.Peers
use hansa.Handle.Peers.{IsBuilt}
use hansa.Tests.Toy.{bob, are_bytes_sound, toy, key, team, alice, alice_record, root_link}
use hansa.Handle.{Hansa}
use hansa.HeadCache.Regress.{check_all}

abbrev root_hash : Bytes
root_hash = hash toy root_link

abbrev second_link : Link
second_link = signed toy key 1 root_hash (Body.admit alice_record none)

abbrev short_log : FileRegistry
short_log = (team, root_link ∷ []) ∷ []

abbrev long_log : FileRegistry
long_log = (team, root_link ∷ second_link ∷ []) ∷ []

abbrev founded : ReplayOutcome
founded = record {
  skipper = key;
  embedding_dim = 4;
  active = [];
  head_seq = 0;
  head_hash = root_hash;
}

abbrev with_alice : ReplayOutcome
with_alice = record {
  skipper = key;
  embedding_dim = 4;
  active = alice_record ∷ [];
  head_seq = 1;
  head_hash = hash toy second_link;
}

abbrev reader : HansaConfig
reader = record {
  skipper = none;
  hansa_id = some team;
  local_tenant_id = alice;
  local_tenant_location = alice_record.tenant_location;
  embedding_dim = 4;
  has_head_cache = true;
}

later_founded : verified toy reader team 20 short_log ≡ (ok founded, short_log)
unfolding verified public from_skipper lookup eq_bytes replay root genesis_link Genesis.found
    Genesis.verify_for Genesis.verify_genesis Genesis.canonical Sign.verify Sign.sign Sign.framed
    Canonical.u8 Canonical.i64 Canonical.u32 Canonical.u64 Canonical.fixed Canonical.new
    Canonical.bytes Canonical.str Canonical.to_le_bytes apply_body before_member Chain.canonical
    check_pin finish hash insert_members replay_links step verify_link verify_root write_canonical
    write_member_pub write_members write_reason Member.canonical write_auth write_bearer
    write_location insert remove lt_bytes insert_by sort_by found_or_require read_chain signed
later_founded = refl

sees_alice : verified toy reader team 9 long_log ≡ (ok with_alice, long_log)
unfolding verified public from_skipper lookup eq_bytes replay root genesis_link Genesis.found
    Genesis.verify_for Genesis.verify_genesis Genesis.canonical Sign.verify Sign.sign Sign.framed
    Canonical.u8 Canonical.i64 Canonical.u32 Canonical.u64 Canonical.fixed Canonical.new
    Canonical.bytes Canonical.str Canonical.to_le_bytes apply_body before_member Chain.canonical
    check_pin finish hash insert_members replay_links step verify_link verify_root write_canonical
    write_member_pub write_members write_reason Member.canonical write_auth write_bearer
    write_location insert remove lt_bytes insert_by sort_by found_or_require read_chain signed
sees_alice = refl

knows_team : resolve_id toy reader.skipper reader.hansa_id ≡ ok team
unfolding resolve_id
knows_team = refl

abbrev handle : Hansa
handle = record {
  id = team;
  skipper = none;
  local_tenant_id = alice;
  local_tenant_location = alice_record.tenant_location;
  embedding_dim = 4;
}

abbrev heads : HeadCache
heads = store team 1 with_alice.head_hash []

first_head :
    opened reader team long_log (check_and_record team 1 with_alice.head_hash [])
    ≡ (returned handle, (long_log, heads))
unfolding opened check_and_record check_loaded load load_text lookup
first_head = refl

first_open : open_hansa toy reader 9 long_log [] ≡ (returned handle, (long_log, heads))
first_open =
    Rollback.open_hansa_lem toy reader team 9 long_log long_log [] with_alice refl knows_team
      sees_alice
    ∙ first_head

hash_size : length with_alice.head_hash ≡ 32
unfolding hash
hash_size = refl

hash_bytes : All IsByte with_alice.head_hash
unfolding hash
hash_bytes = (omega arith, are_bytes_sound (drop 1 zero_hash) refl)

open_hansa-rollback_example :
    open_hansa toy reader 20 short_log (check_all [] heads)
    ≡ (failed chain_regressed, (short_log, check_all [] heads))
open_hansa-rollback_example =
    Rollback.open_hansa-rollback toy reader team 9 20 long_log long_log short_log short_log [] heads
      handle with_alice founded [] refl knows_team sees_alice first_open (omega arith) hash_size
      hash_bytes later_founded (omega arith)

lists_alice : members toy team long_log ≡ (ok (alice_record ∷ []), long_log)
unfolding members public from_skipper lookup eq_bytes replay root genesis_link Genesis.found
    Genesis.verify_for Genesis.verify_genesis Genesis.canonical Sign.verify Sign.sign Sign.framed
    Canonical.u8 Canonical.i64 Canonical.u32 Canonical.u64 Canonical.fixed Canonical.new
    Canonical.bytes Canonical.str Canonical.to_le_bytes apply_body before_member Chain.canonical
    check_pin finish hash insert_members replay_links step verify_link verify_root write_canonical
    write_member_pub write_members write_reason Member.canonical write_auth write_bearer
    write_location insert remove lt_bytes insert_by sort_by found_or_require read_chain signed
lists_alice = refl

abbrev bobs_handle : Hansa
bobs_handle = record handle { local_tenant_id = bob }

abbrev tenants : Tenants thousandths
tenants = record {
  local_tenant = λ v k accept. ok [];
  peer_opener = none;
  default_budget = record { max_remote_records = 4; max_total_records = 2 };
}

abbrev alice_saga : Saga thousandths
alice_saga = record {
  tenant_id = alice;
  built_at = 0;
  record_count = 1;
  embedding_dim = 4;
  centroids = [];
  tags = [];
}

abbrev sagas : SagaDir thousandths
sagas = (alice, ok alice_saga) ∷ []

abbrev asked : MembraneQuery thousandths
asked =
    membrane_query thousandths bobs_handle tenants [] (alice_record ∷ [])
      ((alice_record, alice_saga) ∷ [])

bob_asks : query thousandths toy bobs_handle tenants sagas [] long_log ≡ (ok asked, long_log)
unfolding query peer_sagas load_peer_saga lookup eq_bytes
bob_asks = rw lists_alice refl

query-IsBuilt_example : IsBuilt toy thousandths bobs_handle sagas tenants long_log long_log asked
query-IsBuilt_example =
    Peers.query-IsBuilt toy thousandths bobs_handle sagas tenants [] long_log long_log asked
      bob_asks
