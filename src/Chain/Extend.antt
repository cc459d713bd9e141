-- ===== src/Chain/Extend.antt =====
-- Extending an accepted chain by a link, and starting one from a signed checkpoint.
use hansa.Prelude.{ℕ, ◌≡◌, refl, sym, ap, ◌∙◌, subst, Option, List, [], ◌∷◌, ◌++◌, arith}
use hansa.Prelude.Bytes.{Bytes}
use hansa.Error.{ok, ◌>>=◌}
use hansa.Sign.{Crypto, IsSound, verify-sign}
use hansa.Member.{MemberRecord}
use hansa.Chain.{
  Body, genesis, admit, revoke, checkpoint, Link, ReplayOutcome, canonical, hash, signed, next_seq,
  root, replay_links, replay, finish, verify_link, check_pin, apply_body,
}
use hansa.Chain.Steps.{replay-inv, step-ok, replay_links-append, from_checkpoint}
use hansa.Chain.Table.{verdict, decided, standing, or_else, settle}

-- The bodies that may follow a root.
abbrev pub IsEntry : Body → Type 0
IsEntry (genesis g) = ⊥
IsEntry (checkpoint ms d a) = ⊥
IsEntry (admit m p) = Unit
IsEntry (revoke t a r) = Unit

pub decided-append :
    (tid : Bytes) (ls : List Link) (l : Link)
    → decided tid (ls ++ l ∷ []) ≡ or_else (verdict tid l.body) (decided tid ls)
unfolding decided
decided-append tid [] l = ground arith
decided-append tid (x ∷ ls) l = ground (arith, decided-append tid ls l)

pub standing-append :
    (tid : Bytes) (ls : List Link) (l : Link)
    → standing tid (ls ++ l ∷ []) ≡ settle (verdict tid l.body) (standing tid ls)
standing-append tid ls l = ground (arith, decided-append tid ls l)

apply_body-ok : (b : Body) (seq : ℕ) (m : _) → IsEntry b → (m' : _) × (apply_body b seq m ≡ ok m')
unfolding apply_body
apply_body-ok (genesis g) seq m e = absurd e
apply_body-ok (checkpoint ms d a) seq m e = absurd e
apply_body-ok (admit x p) seq m e = (_, refl)
apply_body-ok (revoke t a r) seq m e = (_, refl)

module _ (c : Crypto) where
  -- An accepted chain is extended by a link that continues it; the skipper and the dimension stay.
  pub replay-append :
      (ls : List Link) (id : Option Bytes) (l : Link) {out : ReplayOutcome}
      → replay c ls id ≡ ok out
      → l.seq ≡ next_seq out.head_seq
      → l.prev ≡ out.head_hash
      → l.signed_by ≡ out.skipper
      → verify_link c l ≡ ok tt
      → IsEntry l.body
      → (new : ReplayOutcome) × (replay c (ls ++ l ∷ []) id ≡ ok new)
        × (new.skipper ≡ out.skipper)
        × (new.embedding_dim ≡ out.embedding_dim)
        × (new.head_seq ≡ l.seq)
        × (new.head_hash ≡ hash c l)
  replay-append [] id l h e1 e2 e3 e4 e5 = unfold replay in absurd (cc h)
  replay-append (first ∷ ls) id l {out} h e1 e2 e3 e4 e5 =
      let (s, s', rooted, run, e) = replay-inv c first ls id h in
      let (m, applied) = apply_body-ok l.body l.seq s'.active e5 in
      unfold finish replay replay_links in
      let seq : out.head_seq ≡ s'.prev_seq = ap (λ (o : ReplayOutcome). o.head_seq) e in
      let head : out.head_hash ≡ s'.prev_hash = ap (λ (o : ReplayOutcome). o.head_hash) e in
      let skipper : out.skipper ≡ s'.skipper = ap (λ (o : ReplayOutcome). o.skipper) e in
      let dim : out.embedding_dim ≡ s'.embedding_dim =
        ap (λ (o : ReplayOutcome). o.embedding_dim) e in
      let stepped = step-ok c s' l m (e1 ∙ ap next_seq seq) (e2 ∙ head) (e3 ∙ skipper) e4 applied in
      (
        finish (record s' { active = m; prev_hash = hash c l; prev_seq = l.seq }),
        rw (rooted, replay_links-append c s ls (l ∷ []), run, stepped) refl,
        sym skipper,
        sym dim,
        refl,
        refl,
      )

  -- What `Link::signed` makes verifies.
  pub signed-verifies :
      IsSound c
      → (seed : Bytes) (seq : ℕ) (prev : Bytes) (b : Body)
      → verify_link c (signed c seed seq prev b) ≡ ok tt
  unfolding verify_link signed canonical
  signed-verifies sound seed seq prev b = rw (verify-sign c sound seed)

  -- A signed checkpoint alone is a chain, with its members in standing.
  pub replay-checkpoint :
      (l : Link) (ms : List MemberRecord) (dim at : ℕ) (id : Option Bytes)
      → l.body ≡ checkpoint ms dim at
      → check_pin c id l.signed_by ≡ ok tt
      → verify_link c l ≡ ok tt
      → replay c (l ∷ []) id ≡ ok (finish (from_checkpoint c ms dim l))
  unfolding replay replay_links root
  replay-checkpoint l ms dim at id e pinned checked =
      subst (λ b. (root c b l id >>= λ s. ok (finish s)) ≡ ok (finish (from_checkpoint c ms dim l)))
        (sym e) (rw (pinned, checked) refl)
