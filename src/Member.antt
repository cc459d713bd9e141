-- ===== src/Member.antt =====
-- crates/hansa/src/member.rs. `TenantLocation` is an enum of another crate, whose constructors the
-- source matches on. Texts are their UTF-8 bytes; a path is text (serde refuses any other), which
-- `to_string_lossy` leaves alone.
pub mod Encoding
use hansa.Prelude.{ℕ, Option, none, some}
use hansa.Prelude.Bytes.{Bytes}
use hansa.Sign.Canonical.{Writer, new, u8, u32, i64, fixed, str}

pub data TenantLocation : Type 0 where
  path : Bytes → TenantLocation
  resp3 : Bytes → Option (Bytes × Bytes) → TenantLocation
  http : Bytes → Option Bytes → TenantLocation

pub record MemberRecord : Type 0 where
  pub tenant_id : Bytes
  pub tenant_location : TenantLocation
  pub embedding_dim : ℕ
  pub joined_at : ℕ

unfoldable pub write_auth : Writer → Option (Bytes × Bytes) → Writer
write_auth w none = u8 w 0
write_auth w (some (user, pass)) = str (str (u8 w 1) user) pass

unfoldable pub write_bearer : Writer → Option Bytes → Writer
write_bearer w none = u8 w 0
write_bearer w (some token) = str (u8 w 1) token

unfoldable pub write_location : Writer → TenantLocation → Writer
unfolding write_auth write_bearer
write_location w (path p) = str (u8 w 0) p
write_location w (resp3 endpoint auth) = write_auth (str (u8 w 1) endpoint) auth
write_location w (http base_url bearer) = write_bearer (str (u8 w 2) base_url) bearer

unfoldable pub canonical : MemberRecord → Bytes
unfolding write_location
canonical m =
    write_location (i64 (u32 (fixed new m.tenant_id) m.embedding_dim) m.joined_at) m.tenant_location
