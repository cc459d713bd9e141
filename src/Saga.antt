-- ===== src/Saga.antt =====
-- crates/hansa/src/saga/: the centroid summary of a tenant's records.
pub mod Score
pub mod KMeans
pub mod Sampled
pub mod Whole
pub mod Seeds
pub mod Lloyd
pub mod Build
use hansa.Prelude.{
  ℕ, zero, suc, ◌+◌, ◌-◌, ◌*◌, ◌/◌, ◌%◌, ◌^◌, ◌≤◌, ◌<◌, min, max, ◌≡◌, refl, sym, ap, ap₂, ◌∙◌,
  subst, ◌≢◌, ◌↔◌, ◌⊎◌, inl, inr, Bool, true, false, not, ◌&&◌, ◌||◌, Option, none, some, List, [],
  ◌∷◌, ◌++◌, map, append_assoc, append-nil, arith, ltb, leb, ◌==◌, if◌then◌else◌, ltb→lt, lt→ltb,
  leb→le, le→leb, ==_iff, Bool-cases, Option-cases, if_both, length, get_elem?, take, drop, modify,
  length-append, All, All-append, length-take, length-drop, length-map, length-modify,
  take-append-drop, take-append, drop-append, All-take,
}
use hansa.Prelude.Bytes.{Bytes, IsByte, eq_bytes, eq_bytes_iff, eq_bytes_refl, lt_bytes}
use hansa.Floats.{Floats}

module _ (f : Floats) where
  pub record Centroid : Type 0 where
    pub cluster_size : ℕ
    pub vector : List f.F32

  pub record TagAggregate : Type 0 where
    pub count : ℕ
    pub tag : Bytes

  pub record Saga : Type 0 where
    pub tenant_id : Bytes
    pub built_at : ℕ
    pub record_count : ℕ
    pub embedding_dim : ℕ
    pub centroids : List Centroid
    pub tags : List TagAggregate
