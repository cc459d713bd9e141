-- ===== src/Chain/Unambiguous.antt =====
-- The signing bytes of a link determine the link, up to its signature.
use hansa.Prelude.{
  ℕ, ◌%◌, ◌^◌, ◌≡◌, refl, sym, ap, ap₂, ◌∙◌, Option, none, some, List, [], ◌∷◌, ◌++◌, append_assoc,
  arith, length, All,
}
use hansa.Prelude.Bytes.{Bytes}
use hansa.Sign.Canonical.{to_le_bytes}
use hansa.Sign.Prefix.{prefixed, prefixed-inj, append-inj, to_le_bytes-inj}
use hansa.Member
use hansa.Member.{MemberRecord}
use hansa.Member.Encoding as MemberEncoding
use hansa.Genesis.Encoding as GenesisEncoding
use hansa.Chain.{Body, genesis, admit, revoke, checkpoint, Link, canonical}
use hansa.Chain.Encoding.{
  IsSizedPub, IsSizedReason, IsSizedBody, IsSized, pub_bytes, reason_bytes, members_bytes,
  body_bytes, canonical-parts,
}

cons-inj : (x y : ℕ) (r s : Bytes) → x ∷ r ≡ y ∷ s → (x ≡ y) × (r ≡ s)
cons-inj x y r s e = (cc, cc)

pub_bytes-inj :
    (a b : Option Bytes) (r s : Bytes)
    → IsSizedPub a
    → IsSizedPub b
    → pub_bytes a ++ r ≡ pub_bytes b ++ s
    → (a ≡ b) × (r ≡ s)
pub_bytes-inj none none r s ha hb e = (refl, (cons-inj 0 0 r s e).1)
pub_bytes-inj none (some q) r s ha hb e = absurd (omega (arith, (cons-inj 0 1 r (q ++ s) e).0))
pub_bytes-inj (some p) none r s ha hb e = absurd (omega (arith, (cons-inj 1 0 (p ++ r) s e).0))
pub_bytes-inj (some p) (some q) r s ha hb e =
    let (same, rest) = append-inj p q r s (ha ∙ sym hb) (cons-inj 1 1 (p ++ r) (q ++ s) e).1 in
    (ap some same, rest)

reason_bytes-inj :
    (a b : Option Bytes) (r s : Bytes)
    → IsSizedReason a
    → IsSizedReason b
    → reason_bytes a ++ r ≡ reason_bytes b ++ s
    → (a ≡ b) × (r ≡ s)
reason_bytes-inj none none r s ha hb e = (refl, (cons-inj 0 0 r s e).1)
reason_bytes-inj none (some q) r s ha hb e =
    absurd (omega (arith, (cons-inj 0 1 r (prefixed q ++ s) e).0))
reason_bytes-inj (some p) none r s ha hb e =
    absurd (omega (arith, (cons-inj 1 0 (prefixed p ++ r) s e).0))
reason_bytes-inj (some p) (some q) r s ha hb e =
    let (same, rest) =
      prefixed-inj p q r s ha hb (cons-inj 1 1 (prefixed p ++ r) (prefixed q ++ s) e).1 in
    (ap some same, rest)

members_bytes-inj :
    (ms ns : List MemberRecord) (r s : Bytes)
    → length ms ≡ length ns
    → All MemberEncoding.IsSized ms
    → All MemberEncoding.IsSized ns
    → members_bytes ms ++ r ≡ members_bytes ns ++ s
    → (ms ≡ ns) × (r ≡ s)
members_bytes-inj [] [] r s n hm hn e = (refl, e)
members_bytes-inj [] (x ∷ ns) r s n hm hn e = absurd (omega arith)
members_bytes-inj (x ∷ ms) [] r s n hm hn e = absurd (omega arith)
members_bytes-inj (x ∷ ms) (y ∷ ns) r s n hm hn e =
    let a = Member.canonical x in
    let b = Member.canonical y in
    let regrouped : prefixed a ++ (members_bytes ms ++ r) ≡ prefixed b ++ (members_bytes ns ++ s) =
      sym (append_assoc (prefixed a) (members_bytes ms) r)
      ∙ e
      ∙ append_assoc (prefixed b) (members_bytes ns) s in
    let (first, rest) =
      prefixed-inj a b (members_bytes ms ++ r) (members_bytes ns ++ s) hm.0.whole hn.0.whole
        regrouped in
    let same = MemberEncoding.canonical-injective x y hm.0 hn.0 first in
    let (others, after) = members_bytes-inj ms ns r s (omega arith) hm.1 hn.1 rest in
    (ap₂ ◌∷◌ same others, after)

-- The tag byte in front of a body.
abbrev tag : Body → ℕ
tag (genesis g) = 0
tag (admit m p) = 1
tag (revoke t a r) = 2
tag (checkpoint ms d a) = 3

abbrev SameBody : Body → Body → Bytes → Bytes → Type 0
SameBody a b r s =
    IsSizedBody a → IsSizedBody b → body_bytes a ++ r ≡ body_bytes b ++ s → (a ≡ b) × (r ≡ s)

same_tag : (a b : Body) (r s : Bytes) → body_bytes a ++ r ≡ body_bytes b ++ s → tag a ≡ tag b
same_tag (genesis _) (genesis _) r s e = refl
same_tag (genesis _) (admit _ _) r s e = (cons-inj _ _ _ _ e).0
same_tag (genesis _) (revoke _ _ _) r s e = (cons-inj _ _ _ _ e).0
same_tag (genesis _) (checkpoint _ _ _) r s e = (cons-inj _ _ _ _ e).0
same_tag (admit _ _) (genesis _) r s e = (cons-inj _ _ _ _ e).0
same_tag (admit _ _) (admit _ _) r s e = refl
same_tag (admit _ _) (revoke _ _ _) r s e = (cons-inj _ _ _ _ e).0
same_tag (admit _ _) (checkpoint _ _ _) r s e = (cons-inj _ _ _ _ e).0
same_tag (revoke _ _ _) (genesis _) r s e = (cons-inj _ _ _ _ e).0
same_tag (revoke _ _ _) (admit _ _) r s e = (cons-inj _ _ _ _ e).0
same_tag (revoke _ _ _) (revoke _ _ _) r s e = refl
same_tag (revoke _ _ _) (checkpoint _ _ _) r s e = (cons-inj _ _ _ _ e).0
same_tag (checkpoint _ _ _) (genesis _) r s e = (cons-inj _ _ _ _ e).0
same_tag (checkpoint _ _ _) (admit _ _) r s e = (cons-inj _ _ _ _ e).0
same_tag (checkpoint _ _ _) (revoke _ _ _) r s e = (cons-inj _ _ _ _ e).0
same_tag (checkpoint _ _ _) (checkpoint _ _ _) r s e = refl

admit-inj :
    (m n : MemberRecord) (p q : Option Bytes) (r s : Bytes) → SameBody (admit m p) (admit n q) r s
admit-inj m n p q r s ha hb e =
    let a = prefixed (Member.canonical m) in
    let b = prefixed (Member.canonical n) in
    let tails = (cons-inj 1 1 (a ++ pub_bytes p ++ r) (b ++ pub_bytes q ++ s) e).1 in
    let regrouped = sym (append_assoc a (pub_bytes p) r) ∙ tails ∙ append_assoc b (pub_bytes q) s in
    let (members, rest) =
      prefixed-inj (Member.canonical m) (Member.canonical n) (pub_bytes p ++ r) (pub_bytes q ++ s)
        ha.0.whole hb.0.whole regrouped in
    let (keys, after) = pub_bytes-inj p q r s ha.1 hb.1 rest in
    (ap₂ admit (MemberEncoding.canonical-injective m n ha.0 hb.0 members) keys, after)

revoke-inj :
    (t u : Bytes) (x y : ℕ) (p q : Option Bytes) (r s : Bytes)
    → SameBody (revoke t x p) (revoke u y q) r s
revoke-inj t u x y p q r s ha hb e =
    let left = to_le_bytes 8 x ++ (reason_bytes p ++ r) in
    let right = to_le_bytes 8 y ++ (reason_bytes q ++ s) in
    let tails : t ++ left ≡ u ++ right = simp append_assoc at (cons-inj 2 2 _ _ e).1 in
    let (ids, r1) = append-inj t u left right (ha.0 ∙ sym hb.0) tails in
    let (times, r2) =
      to_le_bytes-inj 8 x y (reason_bytes p ++ r) (reason_bytes q ++ s) ha.1 hb.1 r1 in
    let (reasons, after) = reason_bytes-inj p q r s ha.2 hb.2 r2 in
    (λ i. revoke (ids i) (times i) (reasons i), after)

checkpoint-inj :
    (ms ns : List MemberRecord) (d f x y : ℕ) (r s : Bytes)
    → SameBody (checkpoint ms d x) (checkpoint ns f y) r s
checkpoint-inj ms ns d f x y r s ha hb e =
    let m = to_le_bytes 4 (length ms % 2 ^ 32) ++ (members_bytes ms ++ r) in
    let n = to_le_bytes 4 (length ns % 2 ^ 32) ++ (members_bytes ns ++ s) in
    let tails : to_le_bytes 4 d ++ (to_le_bytes 8 x ++ m)
        ≡ to_le_bytes 4 f ++ (to_le_bytes 8 y ++ n) =
      simp append_assoc at (cons-inj 3 3 _ _ e).1 in
    let (dims, r1) =
      to_le_bytes-inj 4 d f (to_le_bytes 8 x ++ m) (to_le_bytes 8 y ++ n) ha.2 hb.2 tails in
    let (times, r2) = to_le_bytes-inj 8 x y m n ha.3 hb.3 r1 in
    let (counts, r3) =
      to_le_bytes-inj 4 (length ms % 2 ^ 32) (length ns % 2 ^ 32) (members_bytes ms ++ r)
        (members_bytes ns ++ s) (omega arith) (omega arith) r2 in
    let (members, after) = members_bytes-inj ms ns r s (omega (arith, counts)) ha.0 hb.0 r3 in
    (λ i. checkpoint (members i) (dims i) (times i), after)

body_bytes-inj : (a b : Body) (r s : Bytes) → SameBody a b r s
body_bytes-inj a b r s ha hb e = go a b ha hb e (same_tag a b r s e)
  where
    go :
        (a b : Body)
        → IsSizedBody a
        → IsSizedBody b
        → body_bytes a ++ r ≡ body_bytes b ++ s
        → tag a ≡ tag b
        → (a ≡ b) × (r ≡ s)
    go (genesis g) (genesis h) ha hb e t =
        let (same, rest) = GenesisEncoding.canonical-inj g h r s ha hb (cons-inj 0 0 _ _ e).1 in
        (ap genesis same, rest)
    go (admit m p) (admit n q) ha hb e t = admit-inj m n p q r s ha hb e
    go (revoke t x p) (revoke u y q) ha hb e _ = revoke-inj t u x y p q r s ha hb e
    go (checkpoint ms d x) (checkpoint ns f y) ha hb e t = checkpoint-inj ms ns d f x y r s ha hb e
    go (genesis _) (admit _ _) ha hb e t = absurd (omega arith)
    go (genesis _) (revoke _ _ _) ha hb e t = absurd (omega arith)
    go (genesis _) (checkpoint _ _ _) ha hb e t = absurd (omega arith)
    go (admit _ _) (genesis _) ha hb e t = absurd (omega arith)
    go (admit _ _) (revoke _ _ _) ha hb e t = absurd (omega arith)
    go (admit _ _) (checkpoint _ _ _) ha hb e t = absurd (omega arith)
    go (revoke _ _ _) (genesis _) ha hb e t = absurd (omega arith)
    go (revoke _ _ _) (admit _ _) ha hb e t = absurd (omega arith)
    go (revoke _ _ _) (checkpoint _ _ _) ha hb e t = absurd (omega arith)
    go (checkpoint _ _ _) (genesis _) ha hb e t = absurd (omega arith)
    go (checkpoint _ _ _) (admit _ _) ha hb e t = absurd (omega arith)
    go (checkpoint _ _ _) (revoke _ _ _) ha hb e t = absurd (omega arith)

-- Two links of the Rust types' widths with the same signing bytes agree in sequence number, previous
-- hash, body and signer: a signature over one link says nothing about any other.
pub canonical-unambiguous :
    (l k : Link)
    → IsSized l
    → IsSized k
    → canonical l ≡ canonical k
    → (l.seq ≡ k.seq) × (l.prev ≡ k.prev) × (l.body ≡ k.body) × (l.signed_by ≡ k.signed_by)
canonical-unambiguous l k hl hk e =
    let same = sym (canonical-parts l) ∙ e ∙ canonical-parts k in
    let lt = body_bytes l.body ++ l.signed_by in
    let kt = body_bytes k.body ++ k.signed_by in
    let (seqs, r1) =
      to_le_bytes-inj 8 l.seq k.seq (l.prev ++ lt) (k.prev ++ kt) hl.seq hk.seq same in
    let (prevs, r2) = append-inj l.prev k.prev lt kt (hl.prev ∙ sym hk.prev) r1 in
    let (bodies, keys) = body_bytes-inj l.body k.body l.signed_by k.signed_by hl.body hk.body r2 in
    (seqs, prevs, bodies, keys)
