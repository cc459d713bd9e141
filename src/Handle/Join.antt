-- ===== src/Handle/Join.antt =====
-- crates/hansa/src/hansa.rs: `refresh_saga`, `join` and `leave`, with the saga files. What the tenant holds,
-- the tags and the clock are arguments, and so is what writing or removing the file answers; a write
-- that fails leaves the old file.
use hansa.Prelude.{ℕ, Option, none, some, List}
use hansa.Prelude.Bytes.{Bytes}
use hansa.Prelude.Assoc.{lookup, insert, remove}
use hansa.Error.{Result, ok, err}
use hansa.Panics.{returning}
use hansa.Floats.{Floats}
use hansa.Sign.{Crypto}
use hansa.Member.{MemberRecord}
use hansa.Saga.{Saga}
use hansa.Saga.KMeans.{Rng}
use hansa.Saga.Build.{build_saga_from_tenant}
use hansa.Registry.File.{FileRegistry}
use hansa.Handle.{Hansa, admit_member, leave_hansa}
use hansa.Handle.Query.{SagaDir}

-- The record that `join` admits.
unfoldable pub own_record : Hansa → ℕ → MemberRecord
own_record h joined_at = record {
  tenant_id = h.local_tenant_id;
  tenant_location = h.local_tenant_location;
  embedding_dim = h.embedding_dim;
  joined_at = joined_at;
}

module _ (f : Floats) where
  -- What the local tenant holds when it is read.
  pub record Holdings : Type 0 where
    pub record_count : ℕ
    pub vectors : List (List f.F32)
    pub tags : List Bytes

  -- What the operations change: the registry, and the directory of the sagas.
  pub record Place : Type 0 where
    pub registry : FileRegistry
    pub saga_dir : SagaDir f

  -- `saga.write_to_path(&self.local_saga_path())?`
  unfoldable pub write_saga :
      Hansa → Result (Unit {0}) → SagaDir f → Saga f → Result (Unit {0}) × SagaDir f
  write_saga h (ok tt) dir saga = (ok tt, insert h.local_tenant_id (ok saga) dir)
  write_saga h (err e) dir saga = (err e, dir)

  module _ (g : Rng f) where
    unfoldable pub refresh_saga :
        Hansa
        → Holdings
        → ℕ
        → ℕ
        → Result (Unit {0})
        → SagaDir f
        → Option (Result (Unit {0}) × SagaDir f)
    unfolding write_saga
    refresh_saga h held built_at seed written dir = returning (write_saga h written dir) (
        build_saga_from_tenant f g h.local_tenant_id h.embedding_dim held.record_count held.vectors
          held.tags built_at seed)

    -- The file is there, or it is built, from the seed 0.
    unfoldable pub ensure_saga :
        Hansa
        → Holdings
        → ℕ
        → Result (Unit {0})
        → SagaDir f
        → Option (Result (Saga f))
        → Option (Result (Unit {0}) × SagaDir f)
    unfolding refresh_saga
    ensure_saga h held built_at written dir none = refresh_saga h held built_at 0 written dir
    ensure_saga h held built_at written dir (some file) = some (ok tt, dir)

    module _ (c : Crypto) where
      -- What follows the `?` of the refresh.
      unfoldable pub announce :
          Hansa → ℕ → ℕ → FileRegistry → Result (Unit {0}) × SagaDir f → Result (Unit {0}) × Place
      unfolding admit_member own_record
      announce h joined_at now registry (ok tt, dir) =
          let (result, after) = admit_member c h (own_record h joined_at) now registry in
          (result, record { registry = after; saga_dir = dir })
      announce h joined_at now registry (err e, dir) =
          (err e, record { registry = registry; saga_dir = dir })

      unfoldable pub join_hansa :
          Hansa
          → Holdings
          → ℕ
          → ℕ
          → ℕ
          → Result (Unit {0})
          → Place
          → Option (Result (Unit {0}) × Place)
      unfolding ensure_saga announce
      join_hansa h held built_at joined_at now written place =
          returning (announce h joined_at now place.registry) (
            ensure_saga h held built_at written place.saga_dir
              (lookup h.local_tenant_id place.saga_dir))

  -- The end of `leave`: the file is removed where there is one.
  unfoldable pub remove_saga :
      Hansa
      → Result (Unit {0})
      → SagaDir f
      → Option (Result (Saga f))
      → Result (Unit {0}) × SagaDir f
  remove_saga h removed dir none = (ok tt, dir)
  remove_saga h (ok tt) dir (some file) = (ok tt, remove h.local_tenant_id dir)
  remove_saga h (err e) dir (some file) = (err e, dir)

  -- What follows the `?` of the revocation.
  unfoldable pub forget :
      Hansa
      → Result (Unit {0})
      → SagaDir f
      → Result (Unit {0}) × FileRegistry
      → Result (Unit {0}) × Place
  unfolding remove_saga
  forget h removed dir (ok tt, registry) =
      let (result, after) = remove_saga h removed dir (lookup h.local_tenant_id dir) in
      (result, record { registry = registry; saga_dir = after })
  forget h removed dir (err e, registry) = (err e, record { registry = registry; saga_dir = dir })

  unfoldable pub leave_with_saga :
      Crypto → Hansa → ℕ → ℕ → Result (Unit {0}) → Place → Result (Unit {0}) × Place
  unfolding leave_hansa forget
  leave_with_saga c h revoked_at now removed place =
      forget h removed place.saga_dir (leave_hansa c h revoked_at now place.registry)
