-- ===== src/Chain/Table.antt =====
-- The table of active members that `chain::replay` keeps, and the reading of a log from its end
-- that it is compared with: of the links that name a tenant, the last one decides.
use hansa.Prelude.{ℕ, ◌≡◌, refl, Option, none, some, List, [], ◌∷◌, arith, if◌then◌else◌}
use hansa.Prelude.Bytes.{Bytes, eq_bytes, eq_bytes_iff}
use hansa.Prelude.Assoc.{
  Assoc, lookup, insert, remove, values, IsDistinct, lookup-insert, lookup-remove,
  insert-IsDistinct, remove-IsDistinct,
}
use hansa.Prelude.Sort.{sort_by, insert_by}
use hansa.Error.{ok}
use hansa.Member.{MemberRecord}
use hansa.Chain.{
  Body, genesis, admit, revoke, checkpoint, Link, insert_members, before_member, apply_body,
}

-- The record of a tenant in a list of members.
unfoldable pub find_member : Bytes → List MemberRecord → Option MemberRecord
find_member tid [] = none
find_member tid (m ∷ ms) = if eq_bytes m.tenant_id tid then some m else find_member tid ms

-- A later answer, if there is one, and the earlier one otherwise.
abbrev pub or_else {ℓ} : {A : Type ℓ} → Option A → Option A → Option A
or_else none d = d
or_else (some v) d = some v

abbrev pub settle {ℓ} : {A : Type ℓ} → Option (Option A) → Option A → Option A
settle none d = d
settle (some v) d = v

unfoldable pub last_member : Bytes → List MemberRecord → Option (Option MemberRecord)
last_member tid [] = none
last_member tid (m ∷ ms) =
    or_else (last_member tid ms) (if eq_bytes m.tenant_id tid then some (some m) else none)

-- What a body says of a tenant: nothing, its record, or that it is out.
unfoldable pub verdict : Bytes → Body → Option (Option MemberRecord)
unfolding last_member
verdict tid (genesis g) = none
verdict tid (checkpoint members dim at) = last_member tid members
verdict tid (admit m member_pub) = if eq_bytes m.tenant_id tid then some (some m) else none
verdict tid (revoke t at reason) = if eq_bytes t tid then some none else none

-- The last verdict of a log.
unfoldable pub decided : Bytes → List Link → Option (Option MemberRecord)
unfolding verdict
decided tid [] = none
decided tid (l ∷ ls) = or_else (decided tid ls) (verdict tid l.body)

abbrev pub standing : Bytes → List Link → Option MemberRecord
standing tid ls = settle (decided tid ls) none

abbrev pub IsKeyed : Assoc MemberRecord → Type 0
IsKeyed [] = Unit
IsKeyed ((k, v) ∷ m) = (v.tenant_id ≡ k) × IsKeyed m

-- The table of a replay: each tenant once, under its own id.
pub record IsTable (m : Assoc MemberRecord) : Type 0 where
  pub keyed : IsKeyed m
  pub distinct : IsDistinct m

insert-IsKeyed :
    (v : MemberRecord) (m : Assoc MemberRecord) → IsKeyed m → IsKeyed (insert v.tenant_id v m)
unfolding insert
insert-IsKeyed v [] h = (refl, tt)
insert-IsKeyed v ((k, w) ∷ m) h = ground (arith, insert-IsKeyed v m h.1)

remove-IsKeyed : (k : Bytes) (m : Assoc MemberRecord) → IsKeyed m → IsKeyed (remove k m)
unfolding remove
remove-IsKeyed k [] h = tt
remove-IsKeyed k ((j, w) ∷ m) h = ground (arith, remove-IsKeyed k m h.1)

pub find-values :
    (tid : Bytes) (m : Assoc MemberRecord) → IsKeyed m → find_member tid (values m) ≡ lookup tid m
unfolding find_member lookup
find-values tid [] h = refl
find-values tid ((k, v) ∷ m) h = rw (h.0, find-values tid m h.1)

pub find-insert_by :
    (tid : Bytes) (x : MemberRecord) (xs : List MemberRecord)
    → find_member x.tenant_id xs ≡ none
    → find_member tid (insert_by before_member x xs)
      ≡ (if eq_bytes x.tenant_id tid then some x else find_member tid xs)
unfolding find_member insert_by
find-insert_by tid x [] h = refl
find-insert_by tid x (y ∷ ys) h = ground (
  arith,
  eq_bytes_iff x.tenant_id tid,
  eq_bytes_iff y.tenant_id tid,
  eq_bytes_iff y.tenant_id x.tenant_id,
  find-insert_by tid x ys,
)

-- Sorting a table keeps what can be found in it.
pub find-sort_by :
    (tid : Bytes) (m : Assoc MemberRecord)
    → IsTable m
    → find_member tid (sort_by before_member (values m)) ≡ lookup tid m
unfolding find_member sort_by lookup
find-sort_by tid [] t = refl
find-sort_by tid ((k, v) ∷ m) t =
    let rest : IsTable m = record { keyed = t.keyed.1; distinct = t.distinct.1 } in
    ground (
      arith,
      find-insert_by tid v (sort_by before_member (values m)),
      find-sort_by v.tenant_id m rest,
      find-sort_by tid m rest,
      t.keyed.0,
      t.distinct.0,
    )

pub insert_members-IsTable :
    (ms : List MemberRecord) (m : Assoc MemberRecord) → IsTable m → IsTable (insert_members ms m)
unfolding insert_members
insert_members-IsTable [] m t = t
insert_members-IsTable (x ∷ xs) m t = insert_members-IsTable xs (insert x.tenant_id x m) (record {
  keyed = insert-IsKeyed x m t.keyed;
  distinct = insert-IsDistinct x.tenant_id x m t.distinct;
})

pub lookup-insert_members :
    (tid : Bytes) (ms : List MemberRecord) (m : Assoc MemberRecord)
    → lookup tid (insert_members ms m) ≡ settle (last_member tid ms) (lookup tid m)
unfolding insert_members last_member
lookup-insert_members tid [] m = refl
lookup-insert_members tid (x ∷ xs) m = ground (
  arith,
  lookup-insert_members tid xs (insert x.tenant_id x m),
  lookup-insert x.tenant_id tid x m,
)

-- A link changes the standing of the tenants that it names, and of no other.
pub apply_body-IsTable :
    (b : Body) (seq : ℕ) (m : Assoc MemberRecord) {m' : Assoc MemberRecord}
    → IsTable m
    → apply_body b seq m ≡ ok m'
    → IsTable m'
unfolding apply_body
apply_body-IsTable (genesis g) seq m t h = cc
apply_body-IsTable (checkpoint ms d a) seq m t h = cc
apply_body-IsTable (admit x p) seq m t h =
    let done : IsTable (insert x.tenant_id x m) = record {
      keyed = insert-IsKeyed x m t.keyed;
      distinct = insert-IsDistinct x.tenant_id x m t.distinct;
    } in
    ground (arith, done)
apply_body-IsTable (revoke tid a r) seq m t h =
    let done : IsTable (remove tid m) = record {
      keyed = remove-IsKeyed tid m t.keyed;
      distinct = remove-IsDistinct tid m t.distinct;
    } in
    ground (arith, done)

pub apply_body-verdict :
    (tid : Bytes) (b : Body) (seq : ℕ) (m : Assoc MemberRecord) {m' : Assoc MemberRecord}
    → apply_body b seq m ≡ ok m'
    → lookup tid m' ≡ settle (verdict tid b) (lookup tid m)
unfolding apply_body verdict
apply_body-verdict tid (genesis g) seq m h = cc
apply_body-verdict tid (checkpoint ms d a) seq m h = cc
apply_body-verdict tid (admit x p) seq m h = ground (arith, lookup-insert x.tenant_id tid x m)
apply_body-verdict tid (revoke t a r) seq m h = ground (arith, lookup-remove t tid m)
