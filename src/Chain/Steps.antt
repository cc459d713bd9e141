-- ===== src/Chain/Steps.antt =====
-- What an accepted root and an accepted link have passed, and that nothing else is asked.
use hansa.Prelude.{ℕ, ◌≡◌, refl, ◌&&◌, Option, List, [], ◌∷◌, ◌++◌, arith, ◌==◌}
use hansa.Error.{
  Result, ok, err, guard, map_err, guard-eq-ok, >>=-eq-ok, ◌>>=◌, chain_broken, unauthorized,
}
use hansa.Prelude.Bytes.{Bytes, eq_bytes, eq_bytes_iff}
use hansa.Prelude.Assoc.{Assoc}
use hansa.Sign.{Crypto}
use hansa.Member.{MemberRecord}
use hansa.Chain.{
  genesis, checkpoint, Link, Replayer, ReplayOutcome, next_seq, hash, apply_body, verify_link, root,
  step, replay_links, replay, finish, check_pin, insert_members, zero_hash, verify_root,
}
use hansa.Genesis.{Genesis}

map_err-eq-ok {ℓ} : {A : Type ℓ} (e : _) (r : Result A) {a : A} → map_err e r ≡ ok a → r ≡ ok a
map_err-eq-ok e (ok a) h = h
map_err-eq-ok e (err x) h = cc

-- The checks of the loop body, and what it leaves in the loop's variables.
pub record Stepped (c : Crypto) (s : Replayer) (l : Link) (s' : Replayer) : Type 0 where
  pub seq : l.seq ≡ next_seq s.prev_seq
  pub prev : l.prev ≡ s.prev_hash
  pub signer : l.signed_by ≡ s.skipper
  pub verified : verify_link c l ≡ ok tt
  pub active : apply_body l.body l.seq s.active ≡ ok s'.active
  pub same_skipper : s'.skipper ≡ s.skipper
  pub same_dim : s'.embedding_dim ≡ s.embedding_dim
  pub prev_seq : s'.prev_seq ≡ l.seq
  pub prev_hash : s'.prev_hash ≡ hash c l

module _ (c : Crypto) where
  pub step-inv : (s : Replayer) (l : Link) {s' : Replayer} → step c s l ≡ ok s' → Stepped c s l s'
  unfolding step
  step-inv s l {s'} h =
      let numbered = l.seq == next_seq s.prev_seq in
      let linked = eq_bytes l.prev s.prev_hash in
      let (_, g1, h1) = >>=-eq-ok (guard (numbered && linked) (chain_broken l.seq)) _ h in
      let (_, g2, h2) = >>=-eq-ok (guard (eq_bytes l.signed_by s.skipper) unauthorized) _ h1 in
      let (_, g3, h3) = >>=-eq-ok (verify_link c l) _ h2 in
      let (active, g4, h4) = >>=-eq-ok (apply_body l.body l.seq s.active) _ h3 in
      let both = guard-eq-ok (numbered && linked) _ g1 in
      let signer = (eq_bytes_iff l.signed_by s.skipper).0 (guard-eq-ok _ _ g2) in
      record {
        seq = ground (arith, both);
        prev = ground (arith, both, eq_bytes_iff l.prev s.prev_hash);
        signer = signer;
        verified = g3;
        active = ground (arith, g4, h4);
        same_skipper = ground (arith, h4);
        same_dim = ground (arith, h4);
        prev_seq = ground (arith, h4);
        prev_hash = ground (arith, h4);
      }

  pub step-ok :
      (s : Replayer) (l : Link) (active : Assoc MemberRecord)
      → l.seq ≡ next_seq s.prev_seq
      → l.prev ≡ s.prev_hash
      → l.signed_by ≡ s.skipper
      → verify_link c l ≡ ok tt
      → apply_body l.body l.seq s.active ≡ ok active
      → step c s l ≡ ok (record s { active = active; prev_hash = hash c l; prev_seq = l.seq })
  unfolding step
  step-ok s l active e1 e2 e3 e4 e5 =
      ground (arith, eq_bytes_iff l.prev s.prev_hash, eq_bytes_iff l.signed_by s.skipper)

  pub replay_links-append :
      (s : Replayer) (ls ms : List Link)
      → replay_links c s (ls ++ ms) ≡ (replay_links c s ls >>= λ s'. replay_links c s' ms)
  unfolding replay_links
  replay_links-append s [] ms = refl
  replay_links-append s (l ∷ ls) ms = go (step c s l) (λ s'. replay_links-append s' ls ms)
    where
      go :
          (r : Result Replayer)
          → ((s' : Replayer)
              → replay_links c s' (ls ++ ms) ≡ (replay_links c s' ls >>= λ t. replay_links c t ms))
          → (r >>= λ s'. replay_links c s' (ls ++ ms))
            ≡ (r >>= (λ s'. replay_links c s' ls) >>= λ t. replay_links c t ms)
      go (ok s') ih = ih s'
      go (err e) ih = refl

  -- The parts of a successful replay.
  pub replay-inv :
      (first : Link) (links : List Link) (id : Option Bytes) {out : ReplayOutcome}
      → replay c (first ∷ links) id ≡ ok out
      → (s s' : Replayer) × (root c first.body first id ≡ ok s)
        × (replay_links c s links ≡ ok s')
        × (out ≡ finish s')
  unfolding replay
  replay-inv first links id h =
      let (s, rooted, h1) = >>=-eq-ok (root c first.body first id) _ h in
      let (s', run, h2) = >>=-eq-ok (replay_links c s links) _ h1 in
      (s, s', rooted, run, ground arith)

  pub replay_links-inv :
      (s : Replayer) (l : Link) (ls : List Link) {t : Replayer}
      → replay_links c s (l ∷ ls) ≡ ok t
      → (s' : Replayer) × Stepped c s l s' × (replay_links c s' ls ≡ ok t)
  unfolding replay_links
  replay_links-inv s l ls h =
      let (s', stepped, rest) = >>=-eq-ok (step c s l) _ h in (s', step-inv s l stepped, rest)

  -- The loop's variables behind an accepted genesis, and behind an accepted checkpoint.
  abbrev pub from_genesis : Genesis → Link → Replayer
  from_genesis g first = record {
    skipper = g.skipper_pub;
    embedding_dim = g.embedding_dim;
    active = [];
    prev_seq = 0;
    prev_hash = hash c first;
  }

  abbrev pub from_checkpoint : List MemberRecord → ℕ → Link → Replayer
  from_checkpoint members dim first = record {
    skipper = first.signed_by;
    embedding_dim = dim;
    active = insert_members members [];
    prev_seq = first.seq;
    prev_hash = hash c first;
  }

  pub root-genesis-inv :
      (g : Genesis) (first : Link) (id : Option Bytes) {s : Replayer}
      → root c (genesis g) first id ≡ ok s
      → (first.seq ≡ 0)
        × (first.prev ≡ zero_hash)
        × (first.signed_by ≡ g.skipper_pub)
        × (verify_root c g id first.sig ≡ ok tt)
        × (s ≡ from_genesis g first)
  unfolding root
  root-genesis-inv g first id h =
      let tests =
        first.seq == 0 && eq_bytes first.prev zero_hash && eq_bytes first.signed_by g.skipper_pub in
      let (_, g1, h1) = >>=-eq-ok (guard tests (chain_broken 0)) _ h in
      let (_, g2, h2) = >>=-eq-ok (verify_root c g id first.sig) _ h1 in
      let all = guard-eq-ok tests (chain_broken 0) g1 in
      (
        ground (arith, all),
        ground (arith, all, eq_bytes_iff first.prev zero_hash),
        ground (arith, all, eq_bytes_iff first.signed_by g.skipper_pub),
        g2,
        ground (arith, h2),
      )

  pub root-checkpoint-inv :
      (ms : List MemberRecord) (dim at : ℕ) (first : Link) (id : Option Bytes) {s : Replayer}
      → root c (checkpoint ms dim at) first id ≡ ok s
      → (check_pin c id first.signed_by ≡ ok tt)
        × (verify_link c first ≡ ok tt)
        × (s ≡ from_checkpoint ms dim first)
  unfolding root
  root-checkpoint-inv ms dim at first id h =
      let (_, g1, h1) = >>=-eq-ok (check_pin c id first.signed_by) _ h in
      let (_, g2, h2) = >>=-eq-ok (verify_link c first) _ h1 in (g1, g2, ground (arith, h2))
