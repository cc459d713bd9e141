-- ===== src/Hybrid/Merged.antt =====
-- What the merged listing of a `HybridRegistry` holds: the local members first, then what remotes add.
use hansa.Prelude.{
  ◌≡◌, refl, sym, ap, ◌∙◌, subst, inl, inr, true, false, Option, none, some, List, [], ◌∷◌, ◌++◌,
  arith, if◌then◌else◌, Bool-cases,
}
use hansa.Prelude.Bytes.{Bytes, eq_bytes, eq_bytes_iff, eq_bytes_sound}
use hansa.Member.{MemberRecord}
use hansa.Chain.Table.{find_member, or_else}
use hansa.Chain.Order.{IsOnce, IsAscending, IsAscending-IsOnce, sort_once}
use hansa.Hybrid.{has_tenant, merge, hybrid_members, merge_all, merge_result}
use hansa.Hex.{as_hex}
use hansa.Error.{Result, ok, err}
use hansa.Registry.File.{FileRegistry, members}
use hansa.Sign.{Crypto}
use hansa.Prelude.Sort.{sort_by}
use hansa.Chain.{before_member}

has_tenant-false :
    (tid : Bytes) (ms : List MemberRecord) → has_tenant tid ms ≡ false → find_member tid ms ≡ none
unfolding has_tenant find_member
has_tenant-false tid [] h = refl
has_tenant-false tid (x ∷ xs) h = ground (arith, h, has_tenant-false tid xs)

has_tenant-true :
    (tid : Bytes) (ms : List MemberRecord) (d : Option MemberRecord)
    → has_tenant tid ms ≡ true
    → or_else (find_member tid ms) d ≡ find_member tid ms
unfolding has_tenant find_member
has_tenant-true tid [] d h = absurd (cc h)
has_tenant-true tid (x ∷ xs) d h = ground (arith, h, has_tenant-true tid xs d)

find-append :
    (tid : Bytes) (ms ns : List MemberRecord)
    → find_member tid (ms ++ ns) ≡ or_else (find_member tid ms) (find_member tid ns)
unfolding find_member
find-append tid [] ns = refl
find-append tid (m ∷ ms) ns = ground (arith, find-append tid ms ns)

IsOnce-snoc :
    (ms : List MemberRecord) (m : MemberRecord)
    → find_member m.tenant_id ms ≡ none
    → IsOnce ms
    → IsOnce (ms ++ m ∷ [])
unfolding find_member
IsOnce-snoc [] m h once = (refl, tt)
IsOnce-snoc (x ∷ ms) m h once =
    let other : eq_bytes x.tenant_id m.tenant_id ≡ false = ground (arith, h) in
    (
      find-append x.tenant_id ms (m ∷ [])
          ∙ ground (
            arith,
            once.0,
            other,
            eq_bytes_iff x.tenant_id m.tenant_id,
            eq_bytes_iff m.tenant_id x.tenant_id,
          ),
      IsOnce-snoc ms m (ground (arith, h)) once.1,
    )

or_else-none {ℓ} : {A : Type ℓ} (a : Option A) → or_else a none ≡ a
or_else-none none = refl
or_else-none (some x) = refl

or_else_assoc {ℓ} :
    {A : Type ℓ} (a b d : Option A) → or_else (or_else a b) d ≡ or_else a (or_else b d)
or_else_assoc none b d = refl
or_else_assoc (some x) b d = refl

-- A list that grew by the tenants of another that it did not have.
abbrev Grown : List MemberRecord → (Bytes → Option MemberRecord) → List MemberRecord → Type 0
Grown all added more =
    IsOnce more × ((tid : Bytes) → find_member tid more ≡ or_else (find_member tid all) (added tid))

push-find :
    (all : List MemberRecord) (m : MemberRecord) (tid : Bytes)
    → has_tenant m.tenant_id all ≡ true
    → find_member tid all ≡ or_else (find_member tid all) (find_member tid (m ∷ []))
unfolding find_member
push-find all m tid here = elim (Bool-cases (eq_bytes m.tenant_id tid)) [
  | inl same ↦
      let e = eq_bytes_sound m.tenant_id tid same in
      sym (has_tenant-true tid all _ (subst (λ t. has_tenant t all ≡ true) e here))
  | inr other ↦ rw other (sym (or_else-none (find_member tid all)))
]

push-Grown :
    (all : List MemberRecord) (m : MemberRecord)
    → IsOnce all
    → Grown all
        (λ tid. find_member tid (m ∷ []))
        (if has_tenant m.tenant_id all then all else all ++ m ∷ [])
push-Grown all m once = elim (Bool-cases (has_tenant m.tenant_id all)) [
  | inl here ↦ rw here (once, λ tid. push-find all m tid here)
  | inr new ↦ rw new (
    IsOnce-snoc all m (has_tenant-false m.tenant_id all new) once,
    λ tid. find-append tid all (m ∷ []),
  )
]

merge-Grown :
    (all ms : List MemberRecord) → IsOnce all → Grown all (λ tid. find_member tid ms) (merge all ms)
unfolding merge
merge-Grown all [] once =
    (once, λ tid. unfold find_member in sym (or_else-none (find_member tid all)))
merge-Grown all (m ∷ ms) once =
    let (once1, finds1) = push-Grown all m once in
    let (once2, finds2) =
      merge-Grown (if has_tenant m.tenant_id all then all else all ++ m ∷ []) ms once1 in
    (
      once2,
      λ tid.
          finds2 tid
          ∙ ap (λ o. or_else o (find_member tid ms)) (finds1 tid)
          ∙ or_else_assoc (find_member tid all) (find_member tid (m ∷ [])) (find_member tid ms)
          ∙ ap (or_else (find_member tid all)) (sym (find-append tid (m ∷ []) ms)),
    )

-- What a remote's answer says of a tenant.
abbrev pub find_in : Bytes → Result (List MemberRecord) → Option MemberRecord
find_in tid (ok ms) = find_member tid ms
find_in tid (err e) = none

module _ (fetch : Bytes → Bytes → Result (List MemberRecord)) (hansa : Bytes) where
  -- What the remotes say of a tenant: the first that answers and lists it.
  unfoldable pub first_listed : Bytes → List Bytes → Option MemberRecord
  first_listed tid [] = none
  first_listed tid (url ∷ urls) =
      or_else (find_in tid (fetch url (as_hex hansa))) (first_listed tid urls)

  merge_result-Grown :
      (all : List MemberRecord) (r : Result (List MemberRecord))
      → IsOnce all
      → Grown all (λ tid. find_in tid r) (merge_result fetch all r)
  unfolding merge_result
  merge_result-Grown all (ok ms) once = merge-Grown all ms once
  merge_result-Grown all (err e) once = (once, λ tid. sym (or_else-none (find_member tid all)))

  merge_all-Grown :
      (all : List MemberRecord) (urls : List Bytes)
      → IsOnce all
      → Grown all (λ tid. first_listed tid urls) (merge_all fetch hansa all urls)
  unfolding merge_all first_listed
  merge_all-Grown all [] once = (once, λ tid. sym (or_else-none (find_member tid all)))
  merge_all-Grown all (url ∷ urls) once =
      let answer = fetch url (as_hex hansa) in
      let (once1, finds1) = merge_result-Grown all answer once in
      let (once2, finds2) = merge_all-Grown (merge_result fetch all answer) urls once1 in
      (
        once2,
        λ tid.
            finds2 tid
            ∙ ap (λ o. or_else o (first_listed tid urls)) (finds1 tid)
            ∙ or_else_assoc (find_member tid all) (find_in tid answer) (first_listed tid urls),
      )

  -- Where the local registry lists its members in ascending order, the hybrid one lists, in strictly
  -- ascending order of tenant ids, the local record of each tenant that is a local member and for
  -- any other tenant the record that the first remote that answers and lists it gives; a remote that
  -- fails takes nothing away.
  pub hybrid_members-result :
      (c : Crypto) (urls : List Bytes) (reg : FileRegistry) (ms : List MemberRecord)
      → members c hansa reg ≡ (ok ms, reg)
      → IsAscending ms
      → (all : List MemberRecord) × (hybrid_members fetch c hansa urls reg ≡ (ok all, reg))
        × IsAscending all
        × ((tid : Bytes)
            → find_member tid all ≡ or_else (find_member tid ms) (first_listed tid urls))
  unfolding hybrid_members
  hybrid_members-result c urls reg ms listed ascending =
      let more = merge_all fetch hansa ms urls in
      let (once, finds) = merge_all-Grown ms urls (IsAscending-IsOnce ms ascending) in
      let (sorted, same) = sort_once more once in
      (sort_by before_member more, rw listed refl, sorted, λ tid. same tid ∙ finds tid)
