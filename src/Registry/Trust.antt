-- ===== src/Registry/Trust.antt =====
-- What a writer who is not the skipper can do to a log of `FileRegistry`, and what a pinned replay
-- says of it.
use hansa.Prelude.{
  ℕ, ◌+◌, ◌≤◌, ◌≡◌, refl, sym, ap, ◌∙◌, ◌≢◌, false, Option, none, some, List, [], ◌∷◌, ◌++◌, arith,
  ltb, length,
}
use hansa.Prelude.Bytes.{Bytes, eq_bytes_iff}
use hansa.Error.{ok, err, unauthorized, id_mismatch}
use hansa.Prelude.Assoc.{insert}
use hansa.Sign.{Crypto, IsSound, public}
use hansa.Member.{MemberRecord}
use hansa.Chain.{
  Body, checkpoint, Link, Replayer, ReplayOutcome, replay, replay_links, root, step, finish, signed,
  next_seq, check_pin,
}
use hansa.Chain.Active.{replay-standing}
use hansa.Chain.Order.{IsAscending, IsAscending-ext, replay-IsAscending}
use hansa.Chain.Steps.{replay-inv, replay_links-append}
use hansa.Chain.Extend.{signed-verifies, replay-checkpoint}
use hansa.Chain.Collapse.{IsOwned, id_of, next_link, replay-unpin, standing-checkpoint}
use hansa.Registry.File.{
  FileRegistry, log_of, is_empty, append_next, members, checkpoint_after_links,
}
use hansa.Registry.Owned.{log_of-insert_self, append_next-result}

is_empty-snoc : (ls : List Link) (l : Link) → is_empty (ls ++ l ∷ []) ≡ false
is_empty-snoc [] l = refl
is_empty-snoc (x ∷ ls) l = refl

module _ (c : Crypto) where
  step-foreign :
      (s : Replayer) (l : Link)
      → l.seq ≡ next_seq s.prev_seq
      → l.prev ≡ s.prev_hash
      → l.signed_by ≢ s.skipper
      → step c s l ≡ err unauthorized
  unfolding step
  step-foreign s l e1 e2 ne =
      ground (arith, eq_bytes_iff l.prev s.prev_hash, eq_bytes_iff l.signed_by s.skipper)

  -- A link by another signer, however well it continues the chain, voids the whole of it.
  replay-foreign :
      (ls : List Link) (id : Option Bytes) (l : Link) {out : ReplayOutcome}
      → replay c ls id ≡ ok out
      → l.seq ≡ next_seq out.head_seq
      → l.prev ≡ out.head_hash
      → l.signed_by ≢ out.skipper
      → replay c (ls ++ l ∷ []) id ≡ err unauthorized
  replay-foreign [] id l h e1 e2 ne = unfold replay in absurd (cc h)
  replay-foreign (first ∷ ls) id l {out} h e1 e2 ne =
      let (s, s', rooted, run, e) = replay-inv c first ls id h in
      unfold finish replay replay_links in
      let seq : out.head_seq ≡ s'.prev_seq = ap (λ (o : ReplayOutcome). o.head_seq) e in
      let head : out.head_hash ≡ s'.prev_hash = ap (λ (o : ReplayOutcome). o.head_hash) e in
      let skipper : out.skipper ≡ s'.skipper = ap (λ (o : ReplayOutcome). o.skipper) e in
      let refused =
        step-foreign s' l (e1 ∙ ap next_seq seq) (e2 ∙ head) (λ same. ne (same ∙ sym skipper)) in
      rw (rooted, replay_links-append c s ls (l ∷ []), run, refused) refl

  -- `append_next` does not compare its skipper with the chain's: on a log of at most 255 links that
  -- another skipper owns it reports success, and from then on `members` fails on that log.
  pub append_next-foreign :
      (hansa owner seed : Bytes) (b : Body) (now : ℕ) (reg : FileRegistry) (out : ReplayOutcome)
      → IsOwned c owner (log_of hansa reg) out
      → public c seed ≢ public c owner
      → length (log_of hansa reg) ≤ 255
      → let after = append_next c hansa seed b now reg in
        (after.0 ≡ ok tt) × (members c hansa after.1 ≡ (err unauthorized, after.1))
  append_next-foreign hansa owner seed b now reg out own ne short =
      let ls = log_of hansa reg in
      let links = ls ++ next_link c seed out b ∷ [] in
      let plain = replay-unpin c ls (id_of c owner) own.replays in
      let void : replay c links none ≡ err unauthorized =
        unfold signed in
        replay-foreign ls none (next_link c seed out b) plain refl refl
          (λ same. ne (same ∙ own.skipper)) in
      let result = append_next-result c hansa seed b now reg plain in
      let small : ltb checkpoint_after_links (length ls + 1) ≡ false = ground arith in
      let done : append_next c hansa seed b now reg ≡ (ok tt, insert hansa links reg) =
        result ∙ rw small refl in
      rw done (
        refl,
        unfold members in
            ground (
              arith,
              log_of-insert_self hansa links reg,
              void,
              is_empty-snoc ls (next_link c seed out b),
            ),
      )

  -- Whoever can write the log can put any ascending list of members into it under a key of their
  -- own: `members`, which replays without a pin, returns that list. A replay pinned to an id that is
  -- not that key's refuses the same log.
  pub members-forged :
      IsSound c
      → (hansa seed : Bytes) (ms : List MemberRecord) (seq dim at : ℕ) (prev : Bytes)
      → (reg : FileRegistry) → IsAscending ms
      → id_of c seed ≢ hansa
      → let log = signed c seed seq prev (checkpoint ms dim at) ∷ [] in
        let after = insert hansa log reg in
        (members c hansa after ≡ (ok ms, after)) × (replay c log (some hansa) ≡ err id_mismatch)
  members-forged sound hansa seed ms seq dim at prev reg ascending ne =
      let l = signed c seed seq prev (checkpoint ms dim at) in
      let checked = signed-verifies c sound seed seq prev (checkpoint ms dim at) in
      unfold signed in
      let h = replay-checkpoint c l ms dim at none refl (unfold check_pin in refl) checked in
      let same = IsAscending-ext _ ms (replay-IsAscending c (l ∷ []) none h) ascending (λ tid.
        replay-standing c (l ∷ []) none h tid
        ∙ standing-checkpoint tid l ms dim at refl ascending) in
      (
        unfold members in ground (arith, log_of-insert_self hansa (l ∷ []) reg, h, same),
        unfold replay root check_pin in ground (arith, eq_bytes_iff (id_of c seed) hansa),
      )
