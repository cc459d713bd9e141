-- ===== src/Registry/Owned.antt =====
-- `FileRegistry` under one skipper: what its operations do to a log that the skipper owns.
use hansa.Prelude.{
  ℕ, ◌+◌, ◌≡◌, refl, sym, ap, ◌∙◌, subst, Bool, true, false, Option, none, List, [], ◌∷◌, ◌++◌,
  arith, ltb, leb, if◌then◌else◌, length,
}
use hansa.Prelude.Bytes.{Bytes, eq_bytes, eq_bytes_refl}
use hansa.Error.{Result, ok}
use hansa.Prelude.Assoc.{insert, lookup-insert}
use hansa.Sign.{Crypto, IsSound}
use hansa.Member.{MemberRecord}
use hansa.Chain.{Body, Link, ReplayOutcome, replay}
use hansa.Chain.Table.{verdict, settle, find_member}
use hansa.Chain.Extend.{IsEntry}
use hansa.Chain.Collapse.{
  IsOwned, id_of, next_link, checkpoint_link, replay-unpin, extend-IsOwned, collapse-IsOwned,
}
use hansa.Registry.File.{
  FileRegistry, log_of, checkpoint_after_links, checkpoint_locked, append_next,
}

pub log_of-insert :
    (i j : Bytes) (ls : List Link) (reg : FileRegistry)
    → log_of j (insert i ls reg) ≡ (if eq_bytes i j then ls else log_of j reg)
log_of-insert i j ls reg = ground (arith, lookup-insert i j ls reg)

pub log_of-insert_self :
    (i : Bytes) (ls : List Link) (reg : FileRegistry) → log_of i (insert i ls reg) ≡ ls
log_of-insert_self i ls reg = ground (arith, log_of-insert i i ls reg, eq_bytes_refl i)

abbrev Outcome : Type 0
Outcome = Result (Unit {0}) × FileRegistry

split_if :
    (P : Outcome → Type 0) (b : Bool) {r x y : Outcome} → r ≡ (if b then x else y) → P x → P y → P r
split_if P true e hx hy = subst P (sym e) hx
split_if P false e hx hy = subst P (sym e) hy

done_if :
    (P : FileRegistry → Type 0) (b : Bool) (r : Outcome) {x y : FileRegistry}
    → r ≡ (if b then (ok tt, x) else (ok tt, y))
    → P x
    → P y
    → (r.0 ≡ ok tt) × P r.1
done_if P b r e hx hy = split_if (λ o. (o.0 ≡ ok tt) × P o.1) b e (refl, hx) (refl, hy)

module _ (c : Crypto) (hansa seed : Bytes) where
  checkpoint_locked-result :
      (now : ℕ) (reg : FileRegistry) {out : ReplayOutcome}
      → replay c (log_of hansa reg) none ≡ ok out
      → checkpoint_locked c hansa seed now reg ≡ (
          if leb (length (log_of hansa reg)) 1
          then (ok tt, reg)
          else (ok tt, insert hansa (checkpoint_link c seed out now ∷ []) reg))
  unfolding checkpoint_locked
  checkpoint_locked-result now reg h = ground (arith, h)

  pub append_next-result :
      (b : Body) (now : ℕ) (reg : FileRegistry) {out : ReplayOutcome}
      → replay c (log_of hansa reg) none ≡ ok out
      → let appended = insert hansa (log_of hansa reg ++ next_link c seed out b ∷ []) reg in
        append_next c hansa seed b now reg ≡ (
          if ltb checkpoint_after_links (length (log_of hansa reg) + 1)
          then checkpoint_locked c hansa seed now appended
          else (ok tt, appended))
  unfolding append_next
  append_next-result b now reg h = ground (arith, h)

  -- A hansa's log after an operation, with the skipper still its owner.
  pub record Continues (reg : FileRegistry) (dim : ℕ) (find : Bytes → Option MemberRecord)
      : Type 0 where
    pub out : ReplayOutcome
    pub owned : IsOwned c seed (log_of hansa reg) out
    pub same_dim : out.embedding_dim ≡ dim
    pub finds : (tid : Bytes) → find_member tid out.active ≡ find tid

  module _ (sound : IsSound c) where
    checkpointed :
        (now : ℕ) (reg : FileRegistry) {out : ReplayOutcome}
        → IsOwned c seed (log_of hansa reg) out
        → Continues
            (insert hansa (checkpoint_link c seed out now ∷ []) reg)
            out.embedding_dim
            (λ tid. find_member tid out.active)
    checkpointed now reg {out} own =
        let links = checkpoint_link c seed out now ∷ [] in
        let (new, owned, active, dim, _) =
          collapse-IsOwned c sound seed (log_of hansa reg) own now in
        record {
          out = new;
          owned = rw (log_of-insert_self hansa links reg) owned;
          same_dim = dim;
          finds = λ tid. ap (find_member tid) active;
        }

    -- Collapsing an owned log succeeds, and leaves its active set and dimension as they were.
    pub checkpoint_locked-Continues :
        (now : ℕ) (reg : FileRegistry) {out : ReplayOutcome}
        → IsOwned c seed (log_of hansa reg) out
        → ((checkpoint_locked c hansa seed now reg).0 ≡ ok tt)
          × Continues
              (checkpoint_locked c hansa seed now reg).1
              out.embedding_dim
              (λ tid. find_member tid out.active)
    checkpoint_locked-Continues now reg {out} own =
        done_if (λ r. Continues r out.embedding_dim (λ tid. find_member tid out.active))
          (leb (length (log_of hansa reg)) 1) (checkpoint_locked c hansa seed now reg)
          (checkpoint_locked-result now reg
            (replay-unpin c (log_of hansa reg) (id_of c seed) own.replays))
          (record { out = out; owned = own; same_dim = refl; finds = λ tid. refl })
          (checkpointed now reg own)

    -- On an owned log `append_next` of an admission or a revocation succeeds, whether or not it
    -- collapses the log: the skipper still owns it, the dimension stays, and of the active set only
    -- the tenant that the body names changes, as the body says.
    pub append_next-Continues :
        (b : Body) (now : ℕ) (reg : FileRegistry) {out : ReplayOutcome}
        → IsEntry b
        → IsOwned c seed (log_of hansa reg) out
        → ((append_next c hansa seed b now reg).0 ≡ ok tt)
          × Continues
              (append_next c hansa seed b now reg).1
              out.embedding_dim
              (λ tid. settle (verdict tid b) (find_member tid out.active))
    append_next-Continues b now reg {out} entry own =
        let chain = log_of hansa reg in
        let links = chain ++ next_link c seed out b ∷ [] in
        let reg1 = insert hansa links reg in
        let (new, owned, dim, finds) = extend-IsOwned c sound seed chain own b entry in
        let owned1 : IsOwned c seed (log_of hansa reg1) new =
          rw (log_of-insert_self hansa links reg) owned in
        let (done, after) = checkpoint_locked-Continues now reg1 owned1 in
        let collapsed : Continues (checkpoint_locked c hansa seed now reg1).1 out.embedding_dim
            (λ tid. settle (verdict tid b) (find_member tid out.active)) =
          record {
            out = after.out;
            owned = after.owned;
            same_dim = after.same_dim ∙ dim;
            finds = λ tid. after.finds tid ∙ finds tid;
          } in
        let kept : Continues reg1 out.embedding_dim
            (λ tid. settle (verdict tid b) (find_member tid out.active)) =
          record { out = new; owned = owned1; same_dim = dim; finds = finds } in
        split_if
          (λ r.
            (r.0 ≡ ok tt)
            × Continues r.1 out.embedding_dim
                (λ tid. settle (verdict tid b) (find_member tid out.active)))
          (ltb checkpoint_after_links (length chain + 1))
          (append_next-result b now reg (replay-unpin c chain (id_of c seed) own.replays))
          (done, collapsed) (refl, kept)
