-- ===== src/Hybrid.antt =====
-- crates/hansa/src/hybrid_registry.rs: a local registry beside remote listings of members. A remote
-- is its base URL; what its client fetches and serde decodes is the parameter `fetch`, by URL and by
-- the hex of the hansa id. The five writing operations are those of the local registry.
pub mod Merged
use hansa.Prelude.{
  ℕ, zero, suc, ◌+◌, ◌-◌, ◌*◌, ◌/◌, ◌%◌, ◌^◌, ◌≤◌, ◌<◌, min, max, ◌≡◌, refl, sym, ap, ap₂, ◌∙◌,
  subst, ◌≢◌, ◌↔◌, ◌⊎◌, inl, inr, Bool, true, false, not, ◌&&◌, ◌||◌, Option, none, some, List, [],
  ◌∷◌, ◌++◌, map, append_assoc, append-nil, arith, ltb, leb, ◌==◌, if◌then◌else◌, ltb→lt, lt→ltb,
  leb→le, le→leb, ==_iff, Bool-cases, Option-cases, if_both, length, get_elem?, take, drop, modify,
  length-append, All, All-append, length-take, length-drop, length-map, length-modify,
  take-append-drop, take-append, drop-append, All-take,
}
use hansa.Prelude.Bytes.{Bytes, IsByte, eq_bytes, eq_bytes_iff, eq_bytes_refl, lt_bytes}
use hansa.Prelude.Sort.{sort_by}
use hansa.Error.{Result, ok, err, invariant, map_err}
use hansa.Exec.{Exec, pure, lift, ◌>>=◌}
use hansa.Sign.{Crypto}
use hansa.Member.{MemberRecord}
use hansa.Chain.{Body, Link, before_member}
use hansa.Hex.{as_hex}
use hansa.Registry.{Registry}
use hansa.Registry.File.{
  FileRegistry, read_chain, append_link, found, append_next, compact, members,
}

pub record HybridRegistry : Type 0 where
  pub local : FileRegistry
  pub remotes : List Bytes

-- `HybridRegistry::new`
unfoldable pub new : FileRegistry → HybridRegistry
new local = record { local = local; remotes = [] }

unfoldable pub is_remote : Bytes → List Bytes → Bool
is_remote url [] = false
is_remote url (r ∷ rs) = eq_bytes r url || is_remote url rs

unfoldable pub add_remote : Bytes → HybridRegistry → HybridRegistry
unfolding is_remote
add_remote url h =
    if is_remote url h.remotes then h else record h { remotes = h.remotes ++ url ∷ [] }

unfoldable pub keep_others : Bytes → List Bytes → List Bytes
keep_others url [] = []
keep_others url (r ∷ rs) =
    let rest = keep_others url rs in if eq_bytes r url then rest else r ∷ rest

unfoldable pub remove_remote : Bytes → HybridRegistry → HybridRegistry
unfolding keep_others
remove_remote url h = record h { remotes = keep_others url h.remotes }

unfoldable pub remote_count : HybridRegistry → ℕ
remote_count h = length h.remotes

-- `all.iter().any(|x| x.tenant_id == m.tenant_id)`
unfoldable pub has_tenant : Bytes → List MemberRecord → Bool
has_tenant tid [] = false
has_tenant tid (x ∷ xs) = eq_bytes x.tenant_id tid || has_tenant tid xs

unfoldable pub merge : List MemberRecord → List MemberRecord → List MemberRecord
unfolding has_tenant
merge all [] = all
merge all (m ∷ ms) = merge (if has_tenant m.tenant_id all then all else all ++ m ∷ []) ms

module _ (fetch : Bytes → Bytes → Result (List MemberRecord)) where
  unfoldable pub fetch_remote_members : Bytes → Bytes → HybridRegistry → Result (List MemberRecord)
  unfolding is_remote as_hex
  fetch_remote_members url hansa h =
      if is_remote url h.remotes
      then map_err invariant (fetch url (as_hex hansa))
      else err invariant

  -- One remote: a failing one is passed over.
  unfoldable pub merge_result : List MemberRecord → Result (List MemberRecord) → List MemberRecord
  unfolding merge
  merge_result all (ok remote_members) = merge all remote_members
  merge_result all (err e) = all

  unfoldable pub merge_all : Bytes → List MemberRecord → List Bytes → List MemberRecord
  unfolding merge_result as_hex
  merge_all hansa all [] = all
  merge_all hansa all (url ∷ urls) =
      merge_all hansa (merge_result all (fetch url (as_hex hansa))) urls

  unfoldable pub hybrid_members :
      Crypto → Bytes → List Bytes → Exec FileRegistry (List MemberRecord)
  unfolding members merge_all before_member
  hybrid_members c hansa remotes = do
    all ← members c hansa
    pure (sort_by before_member (merge_all hansa all remotes))
