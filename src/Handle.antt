-- ===== src/Handle.antt =====
-- crates/hansa/src/hansa.rs: the membership operations of the `Hansa` handle, over the file registry.
-- The clock is an argument, once for each time that an operation reads it.
pub mod Membership
pub mod Open
pub mod Query
pub mod Peers
pub mod Useful
pub mod Join
pub mod Joined
pub mod Rollback
use hansa.Prelude.{
  ℕ, zero, suc, ◌+◌, ◌-◌, ◌*◌, ◌/◌, ◌%◌, ◌^◌, ◌≤◌, ◌<◌, min, max, ◌≡◌, refl, sym, ap, ap₂, ◌∙◌,
  subst, ◌≢◌, ◌↔◌, ◌⊎◌, inl, inr, Bool, true, false, not, ◌&&◌, ◌||◌, Option, none, some, List, [],
  ◌∷◌, ◌++◌, map, append_assoc, append-nil, arith, ltb, leb, ◌==◌, if◌then◌else◌, ltb→lt, lt→ltb,
  leb→le, le→leb, ==_iff, Bool-cases, Option-cases, if_both, length, get_elem?, take, drop, modify,
  length-append, All, All-append, length-take, length-drop, length-map, length-modify,
  take-append-drop, take-append, drop-append, All-take,
}
use hansa.Prelude.Bytes.{Bytes, IsByte, eq_bytes, eq_bytes_iff, eq_bytes_refl, lt_bytes}
use hansa.Error.{dim_mismatch, unauthorized, err, ok_or}
use hansa.Exec.{Exec, lift, ◌>>=◌}
use hansa.Sign.{Crypto}
use hansa.Member.{MemberRecord, TenantLocation}
use hansa.Chain.{Body, replay}
use hansa.Registry.File.{FileRegistry, read_chain, append_next, compact, members}

-- The fields that the membership operations read; `embedding_dim` is the local tenant's.
pub record Hansa : Type 0 where
  pub id : Bytes
  pub skipper : Option Bytes
  pub local_tenant_id : Bytes
  pub local_tenant_location : TenantLocation
  pub embedding_dim : ℕ

module _ (c : Crypto) where
  unfoldable pub admit_member : Hansa → MemberRecord → ℕ → Exec FileRegistry (Unit {0})
  unfolding read_chain append_next
  admit_member h member now = do
    skipper ← lift (ok_or unauthorized h.skipper)
    chain ← read_chain h.id
    head ← lift (replay c chain (some h.id))
    if not (member.embedding_dim == head.embedding_dim)
        then lift (err (dim_mismatch head.embedding_dim member.embedding_dim))
        else append_next c h.id skipper (Body.admit member none) now

  unfoldable pub revoke_member : Hansa → Bytes → ℕ → ℕ → Exec FileRegistry (Unit {0})
  unfolding append_next
  revoke_member h tenant revoked_at now = do
    skipper ← lift (ok_or unauthorized h.skipper)
    append_next c h.id skipper (Body.revoke tenant revoked_at none) now

  -- `leave`, before the saga file is removed.
  unfoldable pub leave_hansa : Hansa → ℕ → ℕ → Exec FileRegistry (Unit {0})
  unfolding revoke_member
  leave_hansa h revoked_at now = revoke_member h h.local_tenant_id revoked_at now

  unfoldable pub compact_hansa : Hansa → ℕ → Exec FileRegistry (Unit {0})
  unfolding compact
  compact_hansa h now = do skipper ← lift (ok_or unauthorized h.skipper); compact c h.id skipper now
