-- ===== src/Migrate.antt =====
-- crates/hansa/src/migrate.rs: a v1 (unsigned) hansa moved to a v2 chain. The v1 files are given as
-- what serde reads from them: the members of the snapshot and the events of the log.
pub mod Kept
use hansa.Prelude.{
  ℕ, zero, suc, ◌+◌, ◌-◌, ◌*◌, ◌/◌, ◌%◌, ◌^◌, ◌≤◌, ◌<◌, min, max, ◌≡◌, refl, sym, ap, ap₂, ◌∙◌,
  subst, ◌≢◌, ◌↔◌, ◌⊎◌, inl, inr, Bool, true, false, not, ◌&&◌, ◌||◌, Option, none, some, List, [],
  ◌∷◌, ◌++◌, map, append_assoc, append-nil, arith, ltb, leb, ◌==◌, if◌then◌else◌, ltb→lt, lt→ltb,
  leb→le, le→leb, ==_iff, Bool-cases, Option-cases, if_both, length, get_elem?, take, drop, modify,
  length-append, All, All-append, length-take, length-drop, length-map, length-modify,
  take-append-drop, take-append, drop-append, All-take,
}
use hansa.Prelude.Bytes.{Bytes, IsByte, eq_bytes, eq_bytes_iff, eq_bytes_refl, lt_bytes}
use hansa.Prelude.Assoc.{Assoc, insert, remove, values}
use hansa.Prelude.Sort.{sort_by}
use hansa.Exec.{Exec, pure, ◌>>=◌, ◌>>◌}
use hansa.Sign.{Crypto, from_skipper, public}
use hansa.Member.{MemberRecord}
use hansa.Chain.{Body, insert_members, before_member}
use hansa.Registry.File.{FileRegistry, found, append_next}

pub data V1Event : Type 0 where
  join : MemberRecord → V1Event
  leave : Bytes → V1Event

unfoldable pub apply_event : V1Event → Assoc MemberRecord → Assoc MemberRecord
apply_event (join m) active = insert m.tenant_id m active
apply_event (leave tenant_id) active = remove tenant_id active

unfoldable pub apply_events : List V1Event → Assoc MemberRecord → Assoc MemberRecord
unfolding apply_event
apply_events [] active = active
apply_events (e ∷ es) active = apply_events es (apply_event e active)

unfoldable pub read_v1_members : List MemberRecord → List V1Event → List MemberRecord
unfolding apply_events insert_members before_member
read_v1_members snap log =
    sort_by before_member (values (apply_events log (insert_members snap [])))

module _ (c : Crypto) where
  -- `for member in members { registry.append_next(..)?; }`
  unfoldable pub admit_all : Bytes → Bytes → List MemberRecord → ℕ → Exec FileRegistry (Unit {0})
  unfolding append_next
  admit_all v2_id skipper [] clock = pure tt
  admit_all v2_id skipper (m ∷ ms) clock =
      append_next c v2_id skipper (Body.admit m none) clock >>= λ _.
      admit_all v2_id skipper ms clock

  unfoldable pub migrate_v1 :
      List MemberRecord → List V1Event → Bytes → ℕ → ℕ → ℕ → Exec FileRegistry Bytes
  unfolding read_v1_members found admit_all
  migrate_v1 snap log skipper embedding_dim now clock =
      let v2_id = from_skipper c (public c skipper) in
      found c v2_id skipper embedding_dim now >>= λ _.
      admit_all v2_id skipper (read_v1_members snap log) clock >>= λ _. pure v2_id
