-- ===== src/Handle/Membership.antt =====
-- What the membership operations do to a log that the handle's skipper owns.
use hansa.Prelude.{
  ℕ, ◌≡◌, refl, sym, ◌∙◌, ◌≢◌, ◌⊎◌, inl, inr, Option, none, some, ◌==◌, ==_iff, Bool-cases,
}
use hansa.Prelude.Bytes.{Bytes}
use hansa.Error.{ok, err, dim_mismatch}
use hansa.Sign.{Crypto, IsSound}
use hansa.Member.{MemberRecord}
use hansa.Chain.{Body, ReplayOutcome}
use hansa.Chain.Table.{find_member, settle, verdict}
use hansa.Chain.Collapse.{IsOwned, id_of}
use hansa.Registry.File.{FileRegistry, log_of, compact}
use hansa.Registry.Owned.{Continues, append_next-Continues, checkpoint_locked-Continues}
use hansa.Handle.{Hansa, admit_member, revoke_member, leave_hansa, compact_hansa}

module _ (c : Crypto) where
  module _ (sound : IsSound c) (h : Hansa) (seed : Bytes) where
    -- The active set after a body that changes one tenant.
    abbrev pub after_body : Body → ReplayOutcome → Bytes → Option MemberRecord
    after_body b out tid = settle (verdict tid b) (find_member tid out.active)

    -- On a log that the handle's skipper owns, `admit` refuses a member of another dimension and
    -- changes nothing; it takes in any other, and the log stays owned, with its dimension, and with
    -- no other tenant changed.
    pub admit_member-result :
        (m : MemberRecord) (now : ℕ) (reg : FileRegistry) (out : ReplayOutcome)
        → h.skipper ≡ some seed
        → h.id ≡ id_of c seed
        → IsOwned c seed (log_of h.id reg) out
        → let r = admit_member c h m now reg in
          (m.embedding_dim ≢ out.embedding_dim)
            × (r ≡ (err (dim_mismatch out.embedding_dim m.embedding_dim), reg))
          ⊎ (m.embedding_dim ≡ out.embedding_dim)
            × (r.0 ≡ ok tt)
            × Continues c h.id seed r.1 out.embedding_dim (after_body (Body.admit m none) out)
    unfolding admit_member
    admit_member-result m now reg out held mine own =
        let replays = rw (sym mine) at own.replays in
        elim (Bool-cases (m.embedding_dim == out.embedding_dim)) [
          | inl same ↦
              let (done, after) =
                append_next-Continues c h.id seed sound (Body.admit m none) now reg tt own in
              inr (
                (==_iff m.embedding_dim out.embedding_dim).0 same,
                rw (held, replays, same) done,
                rw (held, replays, same) after,
              )
          | inr other ↦ inl (
            λ e. absurd (cc (sym other ∙ (==_iff m.embedding_dim out.embedding_dim).1 e)),
            rw (held, replays, other) refl,
          )
        ]

    -- On a log that the handle's skipper owns, `revoke` and `leave` take out the tenant they name,
    -- `leave` the handle's own, and `compact` takes out nobody; all succeed, the log stays owned,
    -- with its dimension, and with no other tenant changed.
    pub revoke_and_compact-result :
        (tenant : Bytes) (at now : ℕ) (reg : FileRegistry) (out : ReplayOutcome)
        → h.skipper ≡ some seed
        → IsOwned c seed (log_of h.id reg) out
        → (((revoke_member c h tenant at now reg).0 ≡ ok tt)
            × Continues c h.id seed
                (revoke_member c h tenant at now reg).1
                out.embedding_dim
                (after_body (Body.revoke tenant at none) out))
          × (((leave_hansa c h at now reg).0 ≡ ok tt)
              × Continues c h.id seed
                  (leave_hansa c h at now reg).1
                  out.embedding_dim
                  (after_body (Body.revoke h.local_tenant_id at none) out))
          × (((compact_hansa c h now reg).0 ≡ ok tt)
              × Continues c h.id seed
                  (compact_hansa c h now reg).1
                  out.embedding_dim
                  (λ tid. find_member tid out.active))
    unfolding revoke_member leave_hansa compact_hansa compact
    revoke_and_compact-result tenant at now reg out held own = rw held (
      append_next-Continues c h.id seed sound (Body.revoke tenant at none) now reg tt own,
      append_next-Continues c h.id seed sound (Body.revoke h.local_tenant_id at none) now reg tt
          own,
      checkpoint_locked-Continues c h.id seed sound now reg own,
    )
