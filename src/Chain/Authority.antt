-- ===== src/Chain/Authority.antt =====
-- Who can have written an accepted chain: every link is signed by the one skipper, and a pinned
-- replay ties that skipper to the id.
use hansa.Prelude.{
  ◌≡◌, refl, sym, ap, ◌∙◌, subst, true, Option, none, some, List, [], ◌∷◌, arith, All,
}
use hansa.Prelude.Bytes.{Bytes, eq_bytes_iff}
use hansa.Error.{ok}
use hansa.Sign.{Crypto, framed, verify, from_skipper, domain_genesis, domain_link}
use hansa.Genesis
use hansa.Genesis.{Genesis, verify_genesis, verify_for, genesis_v}
use hansa.Chain.{
  apply_body, Body, genesis, admit, revoke, checkpoint, Link, Replayer, ReplayOutcome, canonical,
  root, replay_links, replay, finish, verify_root, verify_link, check_pin,
}
use hansa.Chain.Steps.{replay-inv, replay_links-inv, root-genesis-inv, root-checkpoint-inv}

-- The bytes that a link's signature is over: a genesis signs its record, any other link itself,
-- each under its own domain.
abbrev pub signed_bytes : Link → Body → Bytes
signed_bytes l (genesis g) = framed domain_genesis (Genesis.canonical g)
signed_bytes l (checkpoint ms dim at) = framed domain_link (canonical l)
signed_bytes l (admit m member_pub) = framed domain_link (canonical l)
signed_bytes l (revoke tid at reason) = framed domain_link (canonical l)

module _ (c : Crypto) where
  -- The link is by `skipper`, and its signature verifies under that key.
  abbrev pub IsAuthentic : Bytes → Link → Type 0
  IsAuthentic skipper l =
      (l.signed_by ≡ skipper) × (c.verify_strict skipper (signed_bytes l l.body) l.sig ≡ true)

  verify-inv :
      (key domain msg sig : Bytes)
      → verify c key domain msg sig ≡ ok tt
      → c.verify_strict key (framed domain msg) sig ≡ true
  unfolding verify
  verify-inv key domain msg sig h = ground arith

  verify_link-inv :
      (l : Link)
      → verify_link c l ≡ ok tt
      → c.verify_strict l.signed_by (framed domain_link (canonical l)) l.sig ≡ true
  unfolding verify_link verify
  verify_link-inv l h = ground arith

  verify_genesis-inv :
      (g : Genesis) (sig : Bytes)
      → verify_genesis c g sig ≡ ok tt
      → (from_skipper c g.skipper_pub ≡ g.hansa_id)
        × (c.verify_strict g.skipper_pub (framed domain_genesis (Genesis.canonical g)) sig ≡ true)
  unfolding verify_genesis verify
  verify_genesis-inv g sig h =
      (ground (arith, eq_bytes_iff (from_skipper c g.skipper_pub) g.hansa_id), ground arith)

  verify_for-inv :
      (g : Genesis) (id sig : Bytes)
      → verify_for c g id sig ≡ ok tt
      → (g.hansa_id ≡ id) × (verify_genesis c g sig ≡ ok tt)
  unfolding verify_for
  verify_for-inv g id sig h = (ground (arith, eq_bytes_iff g.hansa_id id), ground arith)

  -- The id that a replay was pinned to is the skipper's.
  abbrev pub IsPinned : Option Bytes → Bytes → Type 0
  IsPinned none skipper = Unit
  IsPinned (some id) skipper = from_skipper c skipper ≡ id

  root-authority :
      (b : Body) (l : Link) (id : Option Bytes) {s : Replayer}
      → root c b l id ≡ ok s
      → IsPinned id s.skipper
        × (l.signed_by ≡ s.skipper)
        × (c.verify_strict s.skipper (signed_bytes l b) l.sig ≡ true)
  root-authority (genesis g) l none {s} h =
      let (_, _, signer, checked, e) = root-genesis-inv c g l none h in
      let (_, sig_ok) = verify_genesis-inv g l.sig (unfold verify_root in checked) in
      rw e (tt, signer, sig_ok)
  root-authority (genesis g) l (some id) {s} h =
      let (_, _, signer, checked, e) = root-genesis-inv c g l (some id) h in
      let (ids, inner) = verify_for-inv g id l.sig (unfold verify_root in checked) in
      let (committed, sig_ok) = verify_genesis-inv g l.sig inner in
      rw e (committed ∙ ids, signer, sig_ok)
  root-authority (checkpoint ms d a) l none h =
      let (_, checked, e) = root-checkpoint-inv c ms d a l none h in
      rw e (tt, refl, verify_link-inv l checked)
  root-authority (checkpoint ms d a) l (some id) h =
      let (pinned, checked, e) = root-checkpoint-inv c ms d a l (some id) h in
      let same : from_skipper c l.signed_by ≡ id =
        unfold check_pin in ground (arith, pinned, eq_bytes_iff (from_skipper c l.signed_by) id) in
      rw e (same, refl, verify_link-inv l checked)
  root-authority (admit m p) l id h = unfold root in absurd (cc h)
  root-authority (revoke t a r) l id h = unfold root in absurd (cc h)

  -- A link that the loop accepts is no genesis, so its signature is under the link domain.
  entry-bytes :
      (b : Body) (l : Link) (m : _) {m' : _}
      → apply_body b l.seq m ≡ ok m'
      → signed_bytes l b ≡ framed domain_link (canonical l)
  unfolding apply_body
  entry-bytes (genesis g) l m h = absurd (cc h)
  entry-bytes (checkpoint ms d a) l m h = absurd (cc h)
  entry-bytes (admit x p) l m h = refl
  entry-bytes (revoke t a r) l m h = refl

  replay_links-authority :
      (s : Replayer) (ls : List Link) {t : Replayer}
      → replay_links c s ls ≡ ok t
      → (t.skipper ≡ s.skipper) × All (IsAuthentic s.skipper) ls
  unfolding replay_links
  replay_links-authority s [] h = (ground arith, tt)
  replay_links-authority s (l ∷ ls) {t} h =
      let (s', st, run) = replay_links-inv c s l ls h in
      let (same, rest) = replay_links-authority s' ls run in
      let checked : c.verify_strict s.skipper (signed_bytes l l.body) l.sig ≡ true =
        ap (λ k. c.verify_strict k (signed_bytes l l.body) l.sig) (sym st.signer)
        ∙ ap (λ b. c.verify_strict l.signed_by b l.sig) (entry-bytes l.body l s.active st.active)
        ∙ verify_link-inv l st.verified in
      (
        same ∙ st.same_skipper,
        ((st.signer, checked), subst (λ k. All (IsAuthentic k) ls) st.same_skipper rest),
      )

  -- In a chain that replays, every link is signed by the outcome's skipper under the domain of its
  -- kind; and where the replay was pinned to an id, the id is that skipper's.
  pub replay-authority :
      (links : List Link) (id : Option Bytes) {out : ReplayOutcome}
      → replay c links id ≡ ok out
      → IsPinned id out.skipper × All (IsAuthentic out.skipper) links
  replay-authority [] id h = unfold replay in absurd (cc h)
  replay-authority (first ∷ links) id {out} h =
      let (s, s', rooted, run, e) = replay-inv c first links id h in
      let (pinned, signer, checked) = root-authority first.body first id rooted in
      let (same, rest) = replay_links-authority s links run in
      let skipper : out.skipper ≡ s.skipper =
        unfold finish in ap (λ (o : ReplayOutcome). o.skipper) e ∙ same in
      subst (λ k. IsPinned id k × All (IsAuthentic k) (first ∷ links)) (sym skipper)
        (pinned, ((signer, checked), rest))
