-- ===== src/Registry.antt =====
-- The trait `Registry` of crates/hansa/src/registry.rs, over a store of type `S`. Skippers are given
-- by their seeds, and the time that an operation reads is its last argument.
pub mod File
pub mod Owned
pub mod Roster
pub mod Trust
use hansa.Prelude.{ℕ, List}
use hansa.Prelude.Bytes.{Bytes}
use hansa.Exec.{Exec}
use hansa.Member.{MemberRecord}
use hansa.Chain.{Body, Link}

pub record Registry (S : Type 0) : Type 0 where
  pub append_link : Bytes → Link → Exec S (Unit {0})
  pub read_chain : Bytes → Exec S (List Link)
  pub found : Bytes → Bytes → ℕ → ℕ → Exec S (Unit {0})
  pub append_next : Bytes → Bytes → Body → ℕ → Exec S (Unit {0})
  pub compact : Bytes → Bytes → ℕ → Exec S (Unit {0})
  pub members : Bytes → Exec S (List MemberRecord)
