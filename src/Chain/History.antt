-- ===== src/Chain/History.antt =====
-- The head hash of a chain commits to the whole chain: what `HeadCache` rests on.
use mathlib.Core.List.{reverse, reverse-append, reverse-reverse, reverse-cons, map-append}
use hansa.Prelude.{
  ℕ, ◌≡◌, refl, sym, ap, ap₂, ◌∙◌, subst, ◌≢◌, ◌⊎◌, inl, inr, Option, List, [], ◌∷◌, ◌++◌, map,
  append_assoc, arith, Bool-cases, All, All-append,
}
use hansa.Prelude.Bytes.{Bytes, eq_bytes, eq_bytes_iff}
use hansa.Error.{ok}
use hansa.Sign.{Crypto}
use hansa.Chain.{
  Body, genesis, admit, revoke, checkpoint, Link, Replayer, ReplayOutcome, canonical, hash, root,
  replay_links, replay, apply_body, finish,
}
use hansa.Chain.Encoding.{IsSized}
use hansa.Chain.Unambiguous.{canonical-unambiguous}
use hansa.Chain.Steps.{replay-inv, replay_links-inv, root-genesis-inv, root-checkpoint-inv}

-- What a link says: all of it but the signature.
abbrev pub content : Link → ℕ × Bytes × Body × Bytes
content l = (l.seq, l.prev, l.body, l.signed_by)

-- Two byte strings that BLAKE3 takes to one hash.
abbrev pub Collision : Crypto → Type 0
Collision c = (x : Bytes) × (y : Bytes) × (x ≢ y) × (c.blake3 x ≡ c.blake3 y)

abbrev IsRoot : Body → Type 0
IsRoot (genesis g) = Unit
IsRoot (checkpoint ms d a) = Unit
IsRoot (admit m p) = ⊥
IsRoot (revoke t a r) = ⊥

-- `map` and `reverse` commute.
map-reverse {ℓ κ} :
    {A : Type ℓ} {B : Type κ} (f : A → B) (xs : List A) → map f (reverse xs) ≡ reverse (map f xs)
map-reverse f [] = refl
map-reverse f (x ∷ xs) =
    ap (map f) (reverse-cons x xs)
    ∙ map-append f (reverse xs) (x ∷ [])
    ∙ ap (λ t. t ++ f x ∷ []) (map-reverse f xs)
    ∙ sym (reverse-cons (f x) (map f xs))

All-reverse {ℓ κ} : {A : Type ℓ} (P : A → Type κ) (xs : List A) → All P xs → All P (reverse xs)
All-reverse P [] h = tt
All-reverse P (x ∷ xs) h =
    rw (reverse-cons x xs) (All-append P (reverse xs) (x ∷ []) (All-reverse P xs h.1) (h.0, tt))

module _ (c : Crypto) where
  -- An accepted chain, newest link first: only the oldest link is a root, and every other carries
  -- the hash of the one before it.
  abbrev Back : List Link → Type 0
  Back [] = ⊥
  Back (l ∷ []) = IsRoot l.body
  Back (l ∷ k ∷ ls) = (¬ IsRoot l.body) × (l.prev ≡ hash c k) × Back (k ∷ ls)

  apply_body-entry : (b : Body) (seq : ℕ) (m : _) {m' : _} → apply_body b seq m ≡ ok m' → ¬ IsRoot b
  unfolding apply_body
  apply_body-entry (genesis g) seq m e = absurd (cc e)
  apply_body-entry (checkpoint ms d a) seq m e = absurd (cc e)
  apply_body-entry (admit x p) seq m e = λ h. h
  apply_body-entry (revoke t a r) seq m e = λ h. h

  run-Back :
      (s : Replayer) (ls : List Link) (k : Link) (older : List Link) {t : Replayer}
      → s.prev_hash ≡ hash c k
      → Back (k ∷ older)
      → replay_links c s ls ≡ ok t
      → (l : Link) × (rest : List Link) × (reverse ls ++ k ∷ older ≡ l ∷ rest)
        × Back (l ∷ rest)
        × (t.prev_hash ≡ hash c l)
  unfolding replay_links
  run-Back s [] k older e back h = (k, older, refl, back, ground (arith, h, e))
  run-Back s (x ∷ ls) k older e back h =
      let (s', st, run) = replay_links-inv c s x ls h in
      let entry = apply_body-entry x.body x.seq s.active st.active in
      let (l, rest, order, final, head) =
        run-Back s' ls x (k ∷ older) st.prev_hash (entry, st.prev ∙ e, back) run in
      (
        l,
        rest,
        ap (λ t. t ++ k ∷ older) (reverse-append (x ∷ []) ls)
            ∙ append_assoc (reverse ls) (x ∷ []) (k ∷ older)
            ∙ order,
        final,
        head,
      )

  root-Back :
      (b : Body) (first : Link) (id : Option Bytes) {s : Replayer}
      → root c b first id ≡ ok s
      → IsRoot b × (s.prev_hash ≡ hash c first)
  root-Back (genesis g) first id h =
      (tt, ap (λ (s : Replayer). s.prev_hash) (root-genesis-inv c g first id h).4)
  root-Back (checkpoint ms d a) first id h =
      (tt, ap (λ (s : Replayer). s.prev_hash) (root-checkpoint-inv c ms d a first id h).2)
  root-Back (admit m p) first id h = unfold root in absurd (cc h)
  root-Back (revoke t a r) first id h = unfold root in absurd (cc h)

  replay-Back :
      (links : List Link) (id : Option Bytes) {out : ReplayOutcome}
      → replay c links id ≡ ok out
      → (l : Link) × (rest : List Link) × (reverse links ≡ l ∷ rest)
        × Back (l ∷ rest)
        × (out.head_hash ≡ hash c l)
  replay-Back [] id h = unfold replay in absurd (cc h)
  replay-Back (first ∷ links) id h =
      let (s, s', rooted, run, e) = replay-inv c first links id h in
      let (isroot, start) = root-Back first.body first id rooted in
      let (l, rest, order, final, head) = run-Back s links first [] start isroot run in
      (
        l,
        rest,
        reverse-append (first ∷ []) links ∙ order,
        final,
        unfold finish in ap (λ (o : ReplayOutcome). o.head_hash) e ∙ head,
      )

  same_content :
      (l k : Link)
      → IsSized l
      → IsSized k
      → hash c l ≡ hash c k
      → ((content l ≡ content k) ⊎ Collision c)
  unfolding hash
  same_content l k hl hk e = elim (Bool-cases (eq_bytes (canonical l) (canonical k))) [
    | inl same ↦
        let (a, b, d, f) =
          canonical-unambiguous l k hl hk ((eq_bytes_iff (canonical l) (canonical k)).0 same) in
        inl (λ i. (a i, b i, d i, f i))
    | inr differ ↦ inr (
      canonical l,
      canonical k,
      λ p. absurd (cc (differ, (eq_bytes_iff (canonical l) (canonical k)).1 p)),
      e,
    )
  ]

  -- Walking back from two heads of one hash, link by link.
  same_chain :
      (l k : Link) (ls ks : List Link)
      → Back (l ∷ ls)
      → Back (k ∷ ks)
      → All IsSized (l ∷ ls)
      → All IsSized (k ∷ ks)
      → hash c l ≡ hash c k
      → ((map content (l ∷ ls) ≡ map content (k ∷ ks)) ⊎ Collision c)
  same_chain l k [] [] bl bk sl sk e = elim (same_content l k sl.0 sk.0 e) [
    | inr clash ↦ inr clash
    | inl same ↦ inl (ap (λ x. x ∷ []) same)
  ]
  same_chain l k [] (k' ∷ ks) bl bk sl sk e = elim (same_content l k sl.0 sk.0 e) [
    | inr clash ↦ inr clash
    | inl same ↦ absurd (bk.0 (subst IsRoot (ap (λ (t : ℕ × Bytes × Body × Bytes). t.2) same) bl))
  ]
  same_chain l k (l' ∷ ls) [] bl bk sl sk e = elim (same_content l k sl.0 sk.0 e) [
    | inr clash ↦ inr clash
    | inl same ↦
        absurd (bl.0 (subst IsRoot (sym (ap (λ (t : ℕ × Bytes × Body × Bytes). t.2) same)) bk))
  ]
  same_chain l k (l' ∷ ls) (k' ∷ ks) bl bk sl sk e =
      let joined = same_chain l' k' ls ks bl.2 bk.2 sl.1 sk.1 in
      elim (same_content l k sl.0 sk.0 e) [
        | inr clash ↦ inr clash
        | inl same ↦
            let prevs = ap (λ (t : ℕ × Bytes × Body × Bytes). t.1) same in
            elim (joined (sym bl.1 ∙ prevs ∙ bk.1)) [
              | inr clash ↦ inr clash
              | inl older ↦ inl (ap₂ ◌∷◌ same older)
            ]
      ]

  -- Two accepted chains of links of the Rust types' widths with one head hash say the same, link for
  -- link, from the root on; or else
  -- two byte strings with one BLAKE3 hash are at hand.
  pub head_hash_commits :
      (a b : List Link) (ida idb : Option Bytes) {outa outb : ReplayOutcome}
      → All IsSized a
      → All IsSized b
      → replay c a ida ≡ ok outa
      → replay c b idb ≡ ok outb
      → outa.head_hash ≡ outb.head_hash
      → ((map content a ≡ map content b) ⊎ Collision c)
  head_hash_commits a b ida idb sa sb ha hb e =
      let (l, ls, ea, ba, la) = replay-Back a ida ha in
      let (k, ks, eb, bb, lb) = replay-Back b idb hb in
      let sized_a = rw ea at (All-reverse IsSized a sa) in
      let sized_b = rw eb at (All-reverse IsSized b sb) in
      elim (same_chain l k ls ks ba bb sized_a sized_b (sym la ∙ e ∙ lb)) [
        | inr clash ↦ inr clash
        | inl same ↦ inl (
            sym (reverse-reverse (map content a))
            ∙ ap reverse (
                sym (map-reverse content a)
                ∙ ap (map content) ea
                ∙ same
                ∙ sym (ap (map content) eb)
                ∙ map-reverse content b)
            ∙ reverse-reverse (map content b))
      ]
