-- ===== src/Migrate/Kept.antt =====
-- The members of the migrated hansa are the active members of the v1 hansa.
use hansa.Prelude.{
  ℕ, ◌≡◌, refl, ap, ◌∙◌, Option, none, some, List, [], ◌∷◌, map, arith, if◌then◌else◌,
}
use hansa.Prelude.Bytes.{Bytes, eq_bytes, eq_bytes_iff}
use hansa.Prelude.Assoc.{Assoc, lookup-insert, lookup-remove, lookup, insert, remove}
use hansa.Error.{Result, ok, err}
use hansa.Exec.{Exec, continue, ◌>>◌}
use hansa.Sign.{Crypto, IsSound, from_skipper, public}
use hansa.Member.{MemberRecord}
use hansa.Chain.{Body, insert_members, apply_body}
use hansa.Chain.Table.{
  IsTable, find_member, insert_members-IsTable, find-sort_by, settle, last_member,
  lookup-insert_members, apply_body-IsTable, or_else,
}
use hansa.Chain.Order.{IsAscending, IsAscending-ext, sorted-IsAscending, not-found}
use hansa.Registry.File.{FileRegistry, log_of, found, append_next, members}
use hansa.Registry.Roster.{
  Change, change, change_all, update, update_all, Roster, registry-refines-roster,
}
use hansa.Migrate.{
  V1Event, join, leave, apply_event, apply_events, read_v1_members, admit_all, migrate_v1,
}

apply_events-IsTable :
    (es : List V1Event) (m : Assoc MemberRecord) → IsTable m → IsTable (apply_events es m)
unfolding apply_events apply_event apply_body
apply_events-IsTable [] m t = t
apply_events-IsTable (join x ∷ es) m t =
    apply_events-IsTable es (insert x.tenant_id x m)
      (apply_body-IsTable (Body.admit x none) 0 m t refl)
apply_events-IsTable (leave tid ∷ es) m t =
    apply_events-IsTable es (remove tid m) (apply_body-IsTable (Body.revoke tid 0 none) 0 m t refl)

read_v1_members-IsAscending :
    (snap : List MemberRecord) (log : List V1Event) → IsAscending (read_v1_members snap log)
unfolding read_v1_members
read_v1_members-IsAscending snap log =
    sorted-IsAscending (apply_events log (insert_members snap [])) (
      apply_events-IsTable log (insert_members snap [])
        (insert_members-IsTable snap [] (record { keyed = tt; distinct = tt })))

-- The last event of a v1 log that names a tenant.
unfoldable pub last_event : Bytes → List V1Event → Option (Option MemberRecord)
last_event tid [] = none
last_event tid (join m ∷ es) =
    or_else (last_event tid es) (if eq_bytes m.tenant_id tid then some (some m) else none)
last_event tid (leave t ∷ es) =
    or_else (last_event tid es) (if eq_bytes t tid then some none else none)

lookup-apply_events :
    (tid : Bytes) (es : List V1Event) (m : Assoc MemberRecord)
    → lookup tid (apply_events es m) ≡ settle (last_event tid es) (lookup tid m)
unfolding apply_events apply_event last_event
lookup-apply_events tid [] m = refl
lookup-apply_events tid (join x ∷ es) m =
    ground (
      arith,
      lookup-apply_events tid es (insert x.tenant_id x m),
      lookup-insert x.tenant_id tid x m,
    )
lookup-apply_events tid (leave t ∷ es) m =
    ground (arith, lookup-apply_events tid es (remove t m), lookup-remove t tid m)

-- What is read of a v1 hansa is, for each tenant, what the last event that names the tenant says, a
-- `Join` its record and a `Leave` its absence; where no event does, what the snapshot says last; and
-- the members are in ascending order of tenant ids.
pub read_v1_members-result :
    (snap : List MemberRecord) (log : List V1Event) (tid : Bytes)
    → IsAscending (read_v1_members snap log)
      × (find_member tid (read_v1_members snap log)
          ≡ settle (last_event tid log) (settle (last_member tid snap) none))
unfolding read_v1_members
read_v1_members-result snap log tid =
    let empty : IsTable [] = record { keyed = tt; distinct = tt } in
    let table =
      apply_events-IsTable log (insert_members snap []) (insert_members-IsTable snap [] empty) in
    let start : lookup tid (insert_members snap []) ≡ settle (last_member tid snap) none =
      lookup-insert_members tid snap [] ∙ unfold lookup in refl in
    (
      sorted-IsAscending (apply_events log (insert_members snap [])) table,
      find-sort_by tid (apply_events log (insert_members snap [])) table
          ∙ lookup-apply_events tid log (insert_members snap [])
          ∙ ap (settle (last_event tid log)) start,
    )

-- The admissions that the migration makes.
abbrev admissions : List MemberRecord → ℕ → List Change
admissions ms clock = map (λ m. Change.admit m none clock) ms

update_all-admissions :
    (ms : List MemberRecord) (clock : ℕ) (r : Roster) (tid : Bytes)
    → IsAscending ms
    → update_all (admissions ms clock) r tid ≡ or_else (find_member tid ms) (r tid)
unfolding update_all find_member
update_all-admissions [] clock r tid h = refl
update_all-admissions (m ∷ ms) clock r tid h =
    let rest = update_all-admissions ms clock (update (Change.admit m none clock) r) tid h.1 in
    rest
    ∙ unfold update in ground (arith, not-found m.tenant_id ms h.0, eq_bytes_iff m.tenant_id tid)

-- An answer after two operations that succeed.
then_answer :
    {S A : Type 0} (x : A) (r : Result (Unit {0}) × S) (next : Exec S (Unit {0}))
    → (continue r.0 (λ u. next) r.1).0 ≡ ok tt
    → continue r.0 (λ u s. continue (next s).0 (λ v s'. (ok x, s')) (next s).1) r.1
      ≡ (ok x, (continue r.0 (λ u. next) r.1).1)
then_answer x (ok u, s) next h = rw h refl
then_answer x (err e, s) next h = absurd (cc h)

module _ (c : Crypto) where
  admit_all-change_all :
      (id skipper : Bytes) (ms : List MemberRecord) (clock : ℕ) (reg : FileRegistry)
      → admit_all c id skipper ms clock reg ≡ change_all c id skipper (admissions ms clock) reg
  unfolding admit_all change_all change
  admit_all-change_all id skipper [] clock reg = refl
  admit_all-change_all id skipper (m ∷ ms) clock reg =
      let first = append_next c id skipper (Body.admit m none) clock reg in
      λ i. continue first.0 (λ u s. admit_all-change_all id skipper ms clock s i) first.1

  -- On a registry without a log for the skipper's hansa the migration succeeds with that hansa's id,
  -- and the members of the new hansa are exactly the active members of the old one.
  pub migrate_v1-members :
      IsSound c
      → (snap : List MemberRecord) (log : List V1Event) (skipper : Bytes)
      → (dim now clock : ℕ) (reg : FileRegistry)
      → let id = from_skipper c (public c skipper) in
        log_of id reg ≡ []
        → let done = migrate_v1 c snap log skipper dim now clock reg in
          (done.0 ≡ ok id) × (members c id done.1 ≡ (ok (read_v1_members snap log), done.1))
  unfolding migrate_v1
  migrate_v1-members sound snap log skipper dim now clock reg empty =
      let id = from_skipper c (public c skipper) in
      let v1 = read_v1_members snap log in
      let (done, ms_of) =
        registry-refines-roster c sound id skipper dim now (admissions v1 clock) reg empty in
      let (ms, listed, ascending, finds) = ms_of in
      let same : ms ≡ v1 =
        IsAscending-ext ms v1 ascending (read_v1_members-IsAscending snap log) (λ tid.
          finds tid
          ∙ update_all-admissions v1 clock (λ t. none) tid (read_v1_members-IsAscending snap log)
          ∙ unfold find_member in ground arith) in
      let end =
        then_answer id (found c id skipper dim now reg)
          (change_all c id skipper (admissions v1 clock)) done in
      let migrated : migrate_v1 c snap log skipper dim now clock reg ≡ (
        ok id,
        ((found c id skipper dim now >> change_all c id skipper (admissions v1 clock)) reg).1,
      ) =
        (λ i.
          continue (found c id skipper dim now reg).0
            (λ u s.
              continue (admit_all-change_all id skipper v1 clock s i).0 (λ v s'. (ok id, s'))
                (admit_all-change_all id skipper v1 clock s i).1)
            (found c id skipper dim now reg).1)
        ∙ end in
      rw migrated (refl, listed ∙ rw same refl)
