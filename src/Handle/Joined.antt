-- ===== src/Handle/Joined.antt =====
-- What `join` publishes and `leave` takes back.
use hansa.Prelude.{
  ℕ, ◌≡◌, refl, ◌⊎◌, inl, inr, Option, none, some, [], ◌∷◌, Bool-cases, All, length,
}
use hansa.Prelude.Bytes.{Bytes, eq_bytes, eq_bytes_refl}
use hansa.Prelude.Assoc.{Assoc, lookup, insert, remove, lookup-insert}
use hansa.Error.{Result, ok, err}
use hansa.Panics.{Returns, returning}
use hansa.Floats.{Floats}
use hansa.Sign.{Crypto, IsSound}
use hansa.Chain.{Body, ReplayOutcome}
use hansa.Chain.Collapse.{IsOwned, id_of}
use hansa.Registry.File.{FileRegistry, log_of}
use hansa.Registry.Owned.{Continues}
use hansa.Saga.{Saga}
use hansa.Saga.KMeans.{Rng}
use hansa.Saga.Build.{build_saga_from_tenant}
use hansa.Saga.Seeds.{IsDrawing, IsSummable}
use hansa.Saga.Whole.{IsFit, IsDigest, build_saga_from_tenant-IsDigest}
use hansa.Handle.{Hansa, leave_hansa}
use hansa.Handle.Membership.{after_body, admit_member-result, revoke_and_compact-result}
use hansa.Handle.Query.{SagaDir, load_peer_saga}
use hansa.Handle.Join.{
  Holdings, Place, own_record, write_saga, refresh_saga, ensure_saga, announce, join_hansa,
  remove_saga, forget, leave_with_saga,
}

lookup-remove {ℓ} : {V : Type ℓ} (k : Bytes) (m : Assoc V) → lookup k (remove k m) ≡ none
unfolding lookup remove
lookup-remove k [] = refl
lookup-remove k ((j, v) ∷ m) = elim (Bool-cases (eq_bytes j k)) [
  | inl same ↦ rw same (lookup-remove k m)
  | inr other ↦ rw (other, other) (lookup-remove k m)
]

module _ (f : Floats) (g : Rng f) (drawing : IsDrawing f g) (summable : IsSummable f) (c : Crypto)
    (sound : IsSound c) where
  -- The saga file that was there is left as it was, or there was none and now there is one, which reads back,
  -- a digest of what the tenant holds, and no other file has changed.
  abbrev pub IsPublished : Hansa → Holdings f → SagaDir f → SagaDir f → Type 0
  IsPublished h held dir after =
      ((file : Result (Saga f)) × (lookup h.local_tenant_id dir ≡ some file) × (after ≡ dir))
      ⊎ ((saga : Saga f) × (lookup h.local_tenant_id dir ≡ none)
          × (after ≡ insert h.local_tenant_id (ok saga) dir)
          × (load_peer_saga f h.local_tenant_id after ≡ ok (some saga))
          × IsDigest f g drawing summable h.embedding_dim held.record_count (length held.vectors)
              saga)

  abbrev Ensured : Hansa → Holdings f → SagaDir f → Result (Unit {0}) × SagaDir f → Type 0
  Ensured h held dir (result, after) = (result ≡ ok tt) × IsPublished h held dir after

  write_saga-Ensured :
      (h : Hansa) (held : Holdings f) (dir : SagaDir f) (saga : Option (Saga f))
      → lookup h.local_tenant_id dir ≡ none
      → Returns
          (IsDigest f g drawing summable h.embedding_dim held.record_count (length held.vectors))
          saga
      → Returns (Ensured h held dir) (returning (write_saga f h (ok tt) dir) saga)
  unfolding write_saga load_peer_saga
  write_saga-Ensured h held dir none missing good = good
  write_saga-Ensured h held dir (some saga) missing good =
      let own = h.local_tenant_id in
      let there : lookup own (insert own (ok saga) dir) ≡ some (ok saga) =
        rw (lookup-insert own own (ok saga) dir, eq_bytes_refl own) refl in
      (refl, inr (saga, missing, refl, rw there refl, good))

  ensure_saga-Ensured :
      (h : Hansa) (held : Holdings f) (built_at : ℕ) (dir : SagaDir f)
      (found : Option (Result (Saga f)))
      → lookup h.local_tenant_id dir ≡ found
      → All (IsFit f g drawing summable h.embedding_dim held.vectors) held.vectors
      → Returns (Ensured h held dir) (ensure_saga f g h held built_at (ok tt) dir found)
  unfolding ensure_saga refresh_saga
  ensure_saga-Ensured h held built_at dir (some file) there fit = (refl, inl (file, there, refl))
  ensure_saga-Ensured h held built_at dir none missing fit =
      write_saga-Ensured h held dir
        (build_saga_from_tenant f g h.local_tenant_id h.embedding_dim held.record_count held.vectors
          held.tags built_at 0)
        missing
        (build_saga_from_tenant-IsDigest f g drawing summable h.embedding_dim h.local_tenant_id
          held.record_count held.vectors held.tags built_at 0 fit)

  module _ (h : Hansa) (seed : Bytes) (out : ReplayOutcome) where
    -- The operation succeeded, the skipper still owns the log, and the active set is that after the body.
    abbrev pub IsDone : Body → Result (Unit {0}) × Place f → Type 0
    IsDone body (result, after) =
        (result ≡ ok tt)
        × Continues c h.id seed after.registry out.embedding_dim
            (after_body c sound h seed body out)

    announce-IsDone :
        (held : Holdings f) (joined_at now : ℕ) (place : Place f)
        (ensured : Option (Result (Unit {0}) × SagaDir f))
        → h.skipper ≡ some seed
        → h.id ≡ id_of c seed
        → IsOwned c seed (log_of h.id place.registry) out
        → h.embedding_dim ≡ out.embedding_dim
        → Returns (Ensured h held place.saga_dir) ensured
        → Returns
            (λ r.
              IsDone (Body.admit (own_record h joined_at) none) r
              × IsPublished h held place.saga_dir r.1.saga_dir)
            (returning (announce f g c h joined_at now place.registry) ensured)
    unfolding announce
    announce-IsDone held joined_at now place none skipper mine owned same there = there
    announce-IsDone held joined_at now place (some (err e, dir)) skipper mine owned same there =
        absurd (cc there.0)
    announce-IsDone held joined_at now place (some (ok done, dir)) skipper mine owned same there =
        elim (admit_member-result c sound h seed (own_record h joined_at) now place.registry out
          skipper mine owned) [
            | inl (other, failed) ↦ absurd (other (unfold own_record in same))
            | inr (equal, succeeded, goes_on) ↦ ((succeeded, goes_on), there.1)
          ]

    -- The registry and the directory after `leave`.
    remove_saga-IsGone :
        (dir : SagaDir f) (found : Option (Result (Saga f)))
        → lookup h.local_tenant_id dir ≡ found
        → ((remove_saga f h (ok tt) dir found).0 ≡ ok tt)
          × (load_peer_saga f h.local_tenant_id (remove_saga f h (ok tt) dir found).1 ≡ ok none)
    unfolding remove_saga load_peer_saga
    remove_saga-IsGone dir none missing = (refl, rw missing refl)
    remove_saga-IsGone dir (some file) there = (refl, rw (lookup-remove h.local_tenant_id dir) refl)

    forget-IsGone :
        (body : Body) (dir : SagaDir f) (revoked : Result (Unit {0}) × FileRegistry)
        → revoked.0 ≡ ok tt
        → Continues c h.id seed revoked.1 out.embedding_dim (after_body c sound h seed body out)
        → IsDone body (forget f h (ok tt) dir revoked)
          × (load_peer_saga f h.local_tenant_id (forget f h (ok tt) dir revoked).1.saga_dir
              ≡ ok none)
    unfolding forget
    forget-IsGone body dir (err e, registry) done left = absurd (cc done)
    forget-IsGone body dir (ok done', registry) done left =
        let gone = remove_saga-IsGone dir (lookup h.local_tenant_id dir) refl in
        ((gone.0, left), gone.1)

    -- On a log that the handle's skipper owns, of the dimension of the tenant, whose vectors a saga can be built
    -- of, and where the saga file can be written and removed: `join` does not panic and succeeds, takes in
    -- the tenant and changes no other, and leaves a saga file, the one that was there or a new one, which
    -- reads back and is a digest of the tenant; `leave` succeeds, takes the tenant out and changes no other,
    -- and its saga file is gone.
    pub join_and_leave-result :
        (held : Holdings f) (built_at joined_at now revoked_at : ℕ) (place : Place f)
        → h.skipper ≡ some seed
        → h.id ≡ id_of c seed
        → IsOwned c seed (log_of h.id place.registry) out
        → h.embedding_dim ≡ out.embedding_dim
        → All (IsFit f g drawing summable h.embedding_dim held.vectors) held.vectors
        → Returns
            (λ r.
              IsDone (Body.admit (own_record h joined_at) none) r
              × IsPublished h held place.saga_dir r.1.saga_dir)
            (join_hansa f g c h held built_at joined_at now (ok tt) place)
          × (let r = leave_with_saga f c h revoked_at now (ok tt) place in
              IsDone (Body.revoke h.local_tenant_id revoked_at none) r
              × (load_peer_saga f h.local_tenant_id r.1.saga_dir ≡ ok none))
    unfolding join_hansa leave_with_saga
    join_and_leave-result held built_at joined_at now revoked_at place skipper mine owned same fit =
        let found = lookup h.local_tenant_id place.saga_dir in
        let (revoked, left, compacted) =
          revoke_and_compact-result c sound h seed h.local_tenant_id revoked_at now place.registry
            out skipper owned in
        (
          announce-IsDone held joined_at now place
              (ensure_saga f g h held built_at (ok tt) place.saga_dir found) skipper mine owned same
              (ensure_saga-Ensured h held built_at place.saga_dir found refl fit),
          forget-IsGone (Body.revoke h.local_tenant_id revoked_at none) place.saga_dir
              (leave_hansa c h revoked_at now place.registry) left.0 left.1,
        )
