-- ===== src/Genesis/Encoding.antt =====
-- `Genesis::canonical` covers every field, and what follows it can be told apart.
use hansa.Prelude.{
  ℕ, ◌^◌, ◌<◌, ◌≡◌, refl, sym, ◌∙◌, Bool, true, false, ◌∷◌, ◌++◌, append_assoc, arith,
  if◌then◌else◌, length,
}
use hansa.Prelude.Bytes.{Bytes}
use hansa.Sign.Canonical
use hansa.Sign.Canonical.{to_le_bytes}
use hansa.Sign.Prefix.{append-inj, to_le_bytes-inj}
use hansa.Genesis.{Genesis, canonical}

-- The widths that the Rust types give.
pub record IsSized (g : Genesis) : Type 0 where
  pub hansa_id : length g.hansa_id ≡ 32
  pub skipper_pub : length g.skipper_pub ≡ 32
  pub dim : g.embedding_dim < 2 ^ 32
  pub created : g.created_at < 2 ^ 64

abbrev flag : Bool → ℕ
flag b = if b then 1 else 0

abbrev genesis_bytes : Genesis → Bytes → Bytes
genesis_bytes g r =
    g.v
    ∷ (g.hansa_id
        ++ (g.skipper_pub
            ++ (to_le_bytes 4 g.embedding_dim
                ++ (to_le_bytes 8 g.created_at ++ (flag g.rotation_allowed ∷ r)))))

canonical-parts : (g : Genesis) (r : Bytes) → canonical g ++ r ≡ genesis_bytes g r
unfolding canonical Canonical.new Canonical.u8 Canonical.fixed Canonical.u32 Canonical.i64
canonical-parts g r = simp append_assoc

flag-injective : (a b : Bool) → flag a ≡ flag b → a ≡ b
flag-injective true true e = refl
flag-injective true false e = absurd (omega arith)
flag-injective false true e = absurd (omega arith)
flag-injective false false e = refl

head-tail : (x y : ℕ) (r s : Bytes) → x ∷ r ≡ y ∷ s → (x ≡ y) × (r ≡ s)
head-tail x y r s e = (cc, cc)

pub canonical-inj :
    (g h : Genesis) (r s : Bytes)
    → IsSized g
    → IsSized h
    → canonical g ++ r ≡ canonical h ++ s
    → (g ≡ h) × (r ≡ s)
canonical-inj g h r s hg hh e =
    let same_bytes = sym (canonical-parts g r) ∙ e ∙ canonical-parts h s in
    let (versions, r1) = head-tail g.v h.v _ _ same_bytes in
    let (ids, r2) = append-inj g.hansa_id h.hansa_id _ _ (hg.hansa_id ∙ sym hh.hansa_id) r1 in
    let (keys, r3) =
      append-inj g.skipper_pub h.skipper_pub _ _ (hg.skipper_pub ∙ sym hh.skipper_pub) r2 in
    let (dims, r4) = to_le_bytes-inj 4 g.embedding_dim h.embedding_dim _ _ hg.dim hh.dim r3 in
    let (times, r5) = to_le_bytes-inj 8 g.created_at h.created_at _ _ hg.created hh.created r4 in
    let (flags, rest) = head-tail (flag g.rotation_allowed) (flag h.rotation_allowed) r s r5 in
    let rotations = flag-injective g.rotation_allowed h.rotation_allowed flags in
    (
      λ i. record {
        v = versions i;
        hansa_id = ids i;
        skipper_pub = keys i;
        embedding_dim = dims i;
        created_at = times i;
        rotation_allowed = rotations i;
      },
      rest,
    )
