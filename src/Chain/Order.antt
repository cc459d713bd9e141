-- ===== src/Chain/Order.antt =====
-- The order of the active set that `chain::replay` returns.
use hansa.Prelude.{
  ◌≡◌, refl, sym, ap, ap₂, ◌∙◌, subst, inl, inr, true, false, Option, none, some, List, [], ◌∷◌,
  arith, Bool-cases, All,
}
use hansa.Error.{ok}
use hansa.Chain.{before_member, Link, ReplayOutcome, replay, finish}
use hansa.Chain.Table.{find_member, find-insert_by, IsTable, find-sort_by}
use hansa.Prelude.Sort.{IsStrict, IsSortedBy, insert_by, sort_by, sort_by-IsSortedBy}
use hansa.Member.{MemberRecord}
use hansa.Prelude.Bytes.{
  Bytes, eq_bytes_refl, eq_bytes_iff, lt_bytes, lt_bytes_total, lt_bytes_irrefl, lt_bytes_trans,
}
use hansa.Sign.{Crypto}
use hansa.Prelude.Assoc.{Assoc, values}
use hansa.Chain.Active.{replay-IsTable}

before_member-IsStrict : IsStrict before_member
unfolding before_member
before_member-IsStrict = record {
  asymm = λ a b h.
      ground
        (arith, lt_bytes_irrefl a.tenant_id, lt_bytes_trans a.tenant_id b.tenant_id a.tenant_id);
  chain = λ a b c h k. ground (
    arith,
    lt_bytes_total a.tenant_id b.tenant_id,
    lt_bytes_total b.tenant_id c.tenant_id,
    lt_bytes_trans c.tenant_id a.tenant_id b.tenant_id,
    lt_bytes_trans b.tenant_id c.tenant_id a.tenant_id,
    lt_bytes_trans c.tenant_id b.tenant_id a.tenant_id,
  );
}

-- Each member below every later one.
abbrev pub IsAscending : List MemberRecord → Type 0
IsAscending [] = Unit
IsAscending (m ∷ ms) = All (λ x. lt_bytes m.tenant_id x.tenant_id ≡ true) ms × IsAscending ms

-- Each tenant occurs once.
abbrev pub IsOnce : List MemberRecord → Type 0
IsOnce [] = Unit
IsOnce (m ∷ ms) = (find_member m.tenant_id ms ≡ none) × IsOnce ms

All-lt :
    (m : MemberRecord) (ms : List MemberRecord)
    → find_member m.tenant_id ms ≡ none
    → All (λ x. before_member x m ≡ false) ms
    → All (λ x. lt_bytes m.tenant_id x.tenant_id ≡ true) ms
unfolding find_member before_member
All-lt m [] once h = tt
All-lt m (x ∷ xs) once h = ground (
  arith,
  eq_bytes_iff x.tenant_id m.tenant_id,
  lt_bytes_total m.tenant_id x.tenant_id,
  All-lt m xs,
)

IsAscending-of : (ms : List MemberRecord) → IsOnce ms → IsSortedBy before_member ms → IsAscending ms
IsAscending-of [] once h = tt
IsAscending-of (m ∷ ms) once h = (All-lt m ms once.0 h.0, IsAscending-of ms once.1 h.1)

IsOnce-insert_by :
    (x : MemberRecord) (xs : List MemberRecord)
    → find_member x.tenant_id xs ≡ none
    → IsOnce xs
    → IsOnce (insert_by before_member x xs)
unfolding insert_by find_member
IsOnce-insert_by x [] h once = (refl, tt)
IsOnce-insert_by x (y ∷ ys) h once = ground (
  arith,
  eq_bytes_iff y.tenant_id x.tenant_id,
  eq_bytes_iff x.tenant_id y.tenant_id,
  IsOnce-insert_by x ys,
  find-insert_by y.tenant_id x ys,
)

IsOnce-sort_by : (m : Assoc MemberRecord) → IsTable m → IsOnce (sort_by before_member (values m))
unfolding sort_by
IsOnce-sort_by [] t = tt
IsOnce-sort_by ((k, v) ∷ m) t =
    let rest : IsTable m = record { keyed = t.keyed.1; distinct = t.distinct.1 } in
    let fresh : find_member v.tenant_id (sort_by before_member (values m)) ≡ none =
      find-sort_by v.tenant_id m rest ∙ rw t.keyed.0 t.distinct.0 in
    IsOnce-insert_by v (sort_by before_member (values m)) fresh (IsOnce-sort_by m rest)

IsOnce-sorted :
    (ms : List MemberRecord)
    → IsOnce ms
    → IsOnce (sort_by before_member ms)
      × ((tid : Bytes) → find_member tid (sort_by before_member ms) ≡ find_member tid ms)
unfolding sort_by find_member
IsOnce-sorted [] once = (tt, λ tid. refl)
IsOnce-sorted (m ∷ ms) once =
    let (sorted, finds) = IsOnce-sorted ms once.1 in
    let fresh : find_member m.tenant_id (sort_by before_member ms) ≡ none =
      finds m.tenant_id ∙ once.0 in
    (
      IsOnce-insert_by m (sort_by before_member ms) fresh sorted,
      λ tid. find-insert_by tid m (sort_by before_member ms) fresh ∙ rw (finds tid) refl,
    )

-- Sorting members of different tenants gives them in strictly ascending order, and keeps what is
-- found of each.
pub sort_once :
    (ms : List MemberRecord)
    → IsOnce ms
    → IsAscending (sort_by before_member ms)
      × ((tid : Bytes) → find_member tid (sort_by before_member ms) ≡ find_member tid ms)
sort_once ms once =
    let (sorted, finds) = IsOnce-sorted ms once in
    (
      IsAscending-of (sort_by before_member ms) sorted
          (sort_by-IsSortedBy before_member before_member-IsStrict ms),
      finds,
    )

-- A sorted table is in strictly ascending order.
pub sorted-IsAscending :
    (m : Assoc MemberRecord) → IsTable m → IsAscending (sort_by before_member (values m))
sorted-IsAscending m table =
    IsAscending-of (sort_by before_member (values m)) (IsOnce-sort_by m table)
      (sort_by-IsSortedBy before_member before_member-IsStrict (values m))

-- The active set of a replay is in strictly ascending order of tenant ids: no tenant twice.
pub replay-IsAscending :
    (c : Crypto) (links : List Link) (id : Option Bytes) {out : ReplayOutcome}
    → replay c links id ≡ ok out
    → IsAscending out.active
replay-IsAscending c links id {out} h =
    let (s, e, table) = replay-IsTable c links id h in
    unfold finish in
    subst (λ (o : ReplayOutcome). IsAscending o.active) (sym e) (sorted-IsAscending s.active table)

-- An id below all of a list is not found in it.
pub not-found :
    (tid : Bytes) (ms : List MemberRecord)
    → All (λ x. lt_bytes tid x.tenant_id ≡ true) ms
    → find_member tid ms ≡ none
unfolding find_member
not-found tid [] h = refl
not-found tid (x ∷ xs) h =
    ground (arith, eq_bytes_iff x.tenant_id tid, lt_bytes_irrefl tid, not-found tid xs)

All-below :
    (tid m : Bytes) (ms : List MemberRecord)
    → lt_bytes tid m ≡ true
    → All (λ x. lt_bytes m x.tenant_id ≡ true) ms
    → All (λ x. lt_bytes tid x.tenant_id ≡ true) ms
All-below tid m [] h below = tt
All-below tid m (x ∷ xs) h below =
    (lt_bytes_trans tid m x.tenant_id h below.0, All-below tid m xs h below.1)

find_self : (m : MemberRecord) (ms : List MemberRecord) → find_member m.tenant_id (m ∷ ms) ≡ some m
unfolding find_member
find_self m ms = rw (eq_bytes_refl m.tenant_id)

-- Of two ascending lists with the same findings, the first items are the same.
heads-eq :
    (m n : MemberRecord) (ms ns : List MemberRecord)
    → All (λ x. lt_bytes m.tenant_id x.tenant_id ≡ true) ms
    → All (λ x. lt_bytes n.tenant_id x.tenant_id ≡ true) ns
    → ((tid : Bytes) → find_member tid (m ∷ ms) ≡ find_member tid (n ∷ ns))
    → m ≡ n
heads-eq m n ms ns a b h = elim (Bool-cases (lt_bytes m.tenant_id n.tenant_id)) [
  | inl below ↦
      let absent =
        not-found m.tenant_id (n ∷ ns) (below, All-below m.tenant_id n.tenant_id ns below b) in
      absurd (cc (find_self m ms, h m.tenant_id, absent))
  | inr not_below ↦ elim (Bool-cases (lt_bytes n.tenant_id m.tenant_id)) [
    | inl below ↦
        let absent =
          not-found n.tenant_id (m ∷ ms) (below, All-below n.tenant_id m.tenant_id ms below a) in
        absurd (cc (find_self n ns, h n.tenant_id, absent))
    | inr not_above ↦
        let ids = lt_bytes_total m.tenant_id n.tenant_id not_below not_above in
        let found = h m.tenant_id in
        cc (find_self m ms, find_self n ns, ap (λ t. find_member t (n ∷ ns)) ids)
  ]
]

tails-eq :
    (m : MemberRecord) (ms ns : List MemberRecord)
    → All (λ x. lt_bytes m.tenant_id x.tenant_id ≡ true) ms
    → All (λ x. lt_bytes m.tenant_id x.tenant_id ≡ true) ns
    → (tid : Bytes) → find_member tid (m ∷ ms) ≡ find_member tid (m ∷ ns)
    → find_member tid ms ≡ find_member tid ns
unfolding find_member
tails-eq m ms ns a b tid h =
    ground
      (arith, eq_bytes_iff m.tenant_id tid, not-found m.tenant_id ms a, not-found m.tenant_id ns b)

-- An ascending list is determined by what is found in it.
pub IsAscending-ext :
    (ms ns : List MemberRecord)
    → IsAscending ms
    → IsAscending ns
    → ((tid : Bytes) → find_member tid ms ≡ find_member tid ns)
    → ms ≡ ns
IsAscending-ext [] [] a b h = refl
IsAscending-ext [] (n ∷ ns) a b h =
    let found = h n.tenant_id ∙ find_self n ns in unfold find_member in absurd (cc found)
IsAscending-ext (m ∷ ms) [] a b h =
    let found = sym (h m.tenant_id) ∙ find_self m ms in unfold find_member in absurd (cc found)
IsAscending-ext (m ∷ ms) (n ∷ ns) a b h =
    let same = heads-eq m n ms ns a.0 b.0 h in
    let below =
      subst (λ (x : MemberRecord). All (λ y. lt_bytes x.tenant_id y.tenant_id ≡ true) ns) (sym same)
        b.0 in
    let shared =
      subst
        (λ (x : MemberRecord). (tid : Bytes) → find_member tid (m ∷ ms) ≡ find_member tid (x ∷ ns))
        (sym same) h in
    ap₂ ◌∷◌ same
      (IsAscending-ext ms ns a.1 b.1 (λ tid. tails-eq m ms ns a.0 below tid (shared tid)))

-- An ascending list has each tenant once.
pub IsAscending-IsOnce : (ms : List MemberRecord) → IsAscending ms → IsOnce ms
IsAscending-IsOnce [] h = tt
IsAscending-IsOnce (m ∷ ms) h = (not-found m.tenant_id ms h.0, IsAscending-IsOnce ms h.1)
