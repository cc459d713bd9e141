-- ===== src/Chain/Collapse.antt =====
-- A checkpoint that carries the active set of a replay stands for the chain that it replaces.
use hansa.Prelude.{ℕ, ◌≡◌, refl, sym, ap, ◌∙◌, Option, none, some, List, [], ◌∷◌, ◌++◌, arith}
use hansa.Prelude.Bytes.{Bytes, eq_bytes_iff, eq_bytes_refl}
use hansa.Error.{ok}
use hansa.Sign.{Crypto, IsSound, public, from_skipper}
use hansa.Member.{MemberRecord}
use hansa.Chain.{
  Body, genesis, admit, revoke, checkpoint, Link, Replayer, ReplayOutcome, signed, next_seq, root,
  replay, finish, check_pin, verify_root, zero_hash,
}
use hansa.Chain.Steps.{replay-inv, root-genesis-inv, root-checkpoint-inv}
use hansa.Chain.Table.{verdict, decided, standing, settle, find_member, last_member}
use hansa.Chain.Active.{replay-standing}
use hansa.Chain.Order.{IsAscending, IsAscending-ext, replay-IsAscending, not-found}
use hansa.Chain.Extend.{signed-verifies, replay-checkpoint, IsEntry, replay-append, standing-append}
use hansa.Genesis.{verify_for}

abbrev wrap {ℓ} : {A : Type ℓ} → Option A → Option (Option A)
wrap none = none
wrap (some a) = some (some a)

last_member-find :
    (tid : Bytes) (ms : List MemberRecord)
    → IsAscending ms
    → last_member tid ms ≡ wrap (find_member tid ms)
unfolding last_member find_member
last_member-find tid [] h = refl
last_member-find tid (m ∷ ms) h =
    ground (
      arith,
      last_member-find tid ms h.1,
      eq_bytes_iff m.tenant_id tid,
      not-found m.tenant_id ms h.0,
    )

settle-wrap {ℓ} : {A : Type ℓ} (o : Option A) → settle (wrap o) none ≡ o
settle-wrap none = refl
settle-wrap (some a) = refl

-- What one checkpoint says of a tenant.
pub standing-checkpoint :
    (tid : Bytes) (l : Link) (ms : List MemberRecord) (dim at : ℕ)
    → l.body ≡ checkpoint ms dim at
    → IsAscending ms
    → standing tid (l ∷ []) ≡ find_member tid ms
unfolding decided
standing-checkpoint tid l ms dim at e h =
    ground (arith, e, last_member-find tid ms h, settle-wrap (find_member tid ms))

module _ (c : Crypto) where
  root-unpin :
      (b : Body) (l : Link) (id : Bytes) {s : Replayer}
      → root c b l (some id) ≡ ok s
      → root c b l none ≡ ok s
  root-unpin (genesis g) l id h =
      let (e1, e2, e3, e4, e5) = root-genesis-inv c g l (some id) h in
      unfold root verify_root verify_for in
      ground (arith, e1, eq_bytes_iff l.prev zero_hash, eq_bytes_iff l.signed_by g.skipper_pub, e5)
  root-unpin (checkpoint ms d a) l id h =
      let (_, e2, e3) = root-checkpoint-inv c ms d a l (some id) h in
      unfold root check_pin in ground (arith, e2, e3)
  root-unpin (admit m p) l id h = unfold root in absurd (cc h)
  root-unpin (revoke t a r) l id h = unfold root in absurd (cc h)

  -- What replays under a pin replays without one, to the same outcome.
  pub replay-unpin :
      (ls : List Link) (id : Bytes) {out : ReplayOutcome}
      → replay c ls (some id) ≡ ok out
      → replay c ls none ≡ ok out
  unfolding replay
  replay-unpin [] id h = h
  replay-unpin (first ∷ ls) id {out} h =
      let (s, s', rooted, run, e) = replay-inv c first ls (some id) h in
      rw (root-unpin first.body first id rooted, run) (ap ok (sym e))

  -- The id that commits to the skipper with this seed.
  abbrev pub id_of : Bytes → Bytes
  id_of seed = from_skipper c (public c seed)

  -- A chain that replays, under the skipper's id, to an outcome with that skipper.
  pub record IsOwned (seed : Bytes) (ls : List Link) (out : ReplayOutcome) : Type 0 where
    pub replays : replay c ls (some (id_of seed)) ≡ ok out
    pub skipper : out.skipper ≡ public c seed

  -- The next link of an owned chain, as `append_next` makes it.
  abbrev pub next_link : Bytes → ReplayOutcome → Body → Link
  next_link seed o b = signed c seed (next_seq o.head_seq) o.head_hash b

  -- The checkpoint that `checkpoint_locked` makes.
  abbrev pub checkpoint_link : Bytes → ReplayOutcome → ℕ → Link
  checkpoint_link seed o now =
      signed c seed (next_seq o.head_seq) o.head_hash (checkpoint o.active o.embedding_dim now)

  module _ (sound : IsSound c) (seed : Bytes) (ls : List Link) {out : ReplayOutcome} where
    pub extend-IsOwned :
        IsOwned seed ls out
        → (b : Body) → IsEntry b
        → (new : ReplayOutcome) × IsOwned seed (ls ++ next_link seed out b ∷ []) new
          × (new.embedding_dim ≡ out.embedding_dim)
          × ((tid : Bytes)
              → find_member tid new.active ≡ settle (verdict tid b) (find_member tid out.active))
    unfolding signed
    extend-IsOwned own b entry =
        let l = next_link seed out b in
        let (new, h, skipper, dim, _, _) =
          replay-append c ls (some (id_of seed)) l own.replays refl refl (sym own.skipper)
            (signed-verifies c sound seed (next_seq out.head_seq) out.head_hash b) entry in
        (
          new,
          record { replays = h; skipper = skipper ∙ own.skipper },
          dim,
          λ tid.
              replay-standing c (ls ++ l ∷ []) (some (id_of seed)) h tid
              ∙ standing-append tid ls l
              ∙ ap (settle (verdict tid b))
                  (sym (replay-standing c ls (some (id_of seed)) own.replays tid)),
        )

    pub collapse-IsOwned :
        IsOwned seed ls out
        → (now : ℕ)
        → (new : ReplayOutcome) × IsOwned seed (checkpoint_link seed out now ∷ []) new
          × (new.active ≡ out.active)
          × (new.embedding_dim ≡ out.embedding_dim)
          × (new.head_seq ≡ next_seq out.head_seq)
    unfolding signed check_pin finish
    collapse-IsOwned own now =
        let l = checkpoint_link seed out now in
        let checked =
          signed-verifies c sound seed (next_seq out.head_seq) out.head_hash
            (checkpoint out.active out.embedding_dim now) in
        let pinned : check_pin c (some (id_of seed)) l.signed_by ≡ ok tt =
          rw (eq_bytes_refl (id_of seed)) in
        let h =
          replay-checkpoint c l out.active out.embedding_dim now (some (id_of seed)) refl pinned
            checked in
        let ordered = replay-IsAscending c ls (some (id_of seed)) own.replays in
        (
          _,
          record { replays = h; skipper = refl },
          IsAscending-ext _ out.active (replay-IsAscending c (l ∷ []) (some (id_of seed)) h) ordered
              (λ tid.
                replay-standing c (l ∷ []) (some (id_of seed)) h tid
                ∙ standing-checkpoint tid l out.active out.embedding_dim now refl ordered),
          refl,
          refl,
        )
