-- ===== src/Manifest/Counts.antt =====
-- The counts of a `ManifestStore` over any sequence of bumps.
use hansa.Prelude.{
  ℕ, ◌+◌, ◌-◌, ◌^◌, min, ◌≡◌, refl, ◌∙◌, subst, inl, inr, List, [], ◌∷◌, arith, if◌then◌else◌,
  Bool-cases,
}
use hansa.Prelude.Bytes.{Bytes, eq_bytes, eq_bytes_iff, eq_bytes_refl, eq_bytes_sound}
use hansa.Prelude.Assoc.{lookup, lookup-insert}
use hansa.Manifest.{
  PeerManifest, ManifestStore, saturating_add, blank_manifest, read, write, bump_total, bump_useful,
}

-- Each manifest stands in the file of its own peer.
abbrev pub IsFiled : ManifestStore → Type 0
IsFiled store = (peer : Bytes) → (read peer store).peer_id_bytes ≡ peer

pub empty-IsFiled : IsFiled []
unfolding read lookup blank_manifest
empty-IsFiled peer = refl

read-write :
    (m : PeerManifest) (peer : Bytes) (store : ManifestStore)
    → read peer (write m store) ≡ (if eq_bytes m.peer_id_bytes peer then m else read peer store)
unfolding read write
read-write m peer store = ground (arith, lookup-insert m.peer_id_bytes peer m store)

pub write-IsFiled :
    (m : PeerManifest) (store : ManifestStore) → IsFiled store → IsFiled (write m store)
write-IsFiled m store filed peer =
    ground (arith, read-write m peer store, eq_bytes_iff m.peer_id_bytes peer, filed peer)

-- A bump of either kind.
pub data Bump : Type 0 where
  total : Bytes → ℕ → Bump
  useful : Bytes → ℕ → ℕ → Bump

unfoldable pub bump : Bump → ManifestStore → ManifestStore
unfolding bump_total bump_useful
bump (total peer delta) = bump_total peer delta
bump (useful peer delta now) = bump_useful peer delta now

unfoldable pub bump_all : List Bump → ManifestStore → ManifestStore
bump_all [] store = store
bump_all (b ∷ bs) store = bump_all bs (bump b store)

-- What the bumps add to a peer's counts.
unfoldable pub returned_by : Bytes → List Bump → ℕ
returned_by peer [] = 0
returned_by peer (total p d ∷ bs) = (if eq_bytes p peer then d else 0) + returned_by peer bs
returned_by peer (useful p d now ∷ bs) = returned_by peer bs

unfoldable pub useful_by : Bytes → List Bump → ℕ
useful_by peer [] = 0
useful_by peer (total p d ∷ bs) = useful_by peer bs
useful_by peer (useful p d now ∷ bs) = (if eq_bytes p peer then d else 0) + useful_by peer bs

bump-IsFiled : (b : Bump) (store : ManifestStore) → IsFiled store → IsFiled (bump b store)
unfolding bump bump_total bump_useful
bump-IsFiled (total p d) store filed = write-IsFiled _ store filed
bump-IsFiled (useful p d now) store filed = write-IsFiled _ store filed

read-bump_total :
    (p peer : Bytes) (d : ℕ) (store : ManifestStore)
    → IsFiled store
    → let m = read peer store in
      read peer (bump_total p d store)
      ≡ (if eq_bytes p peer then record m { total_hits = saturating_add m.total_hits d } else m)
unfolding bump_total
read-bump_total p peer d store filed = elim (Bool-cases (eq_bytes p peer)) [
  | inl same ↦
      subst
        (λ q. read q (bump_total p d store) ≡ (
          if eq_bytes p q
          then record (read q store) { total_hits = saturating_add (read q store).total_hits d }
          else read q store))
        (eq_bytes_sound p peer same)
        (rw (eq_bytes_refl p) (read-write _ p store ∙ rw (filed p, eq_bytes_refl p) refl))
  | inr other ↦ rw other (read-write _ peer store ∙ rw (filed p, other) refl)
]

pub read-bump_useful :
    (p peer : Bytes) (d now : ℕ) (store : ManifestStore)
    → IsFiled store
    → let m = read peer store in
      read peer (bump_useful p d now store) ≡ (
        if eq_bytes p peer
        then record m { useful_hits = saturating_add m.useful_hits d; last_useful_at = now }
        else m)
unfolding bump_useful
read-bump_useful p peer d now store filed = elim (Bool-cases (eq_bytes p peer)) [
  | inl same ↦
      subst
        (λ q. read q (bump_useful p d now store) ≡ (
          if eq_bytes p q
          then record (read q store) {
            useful_hits = saturating_add (read q store).useful_hits d;
            last_useful_at = now;
          }
          else read q store))
        (eq_bytes_sound p peer same)
        (rw (eq_bytes_refl p) (read-write _ p store ∙ rw (filed p, eq_bytes_refl p) refl))
  | inr other ↦ rw other (read-write _ peer store ∙ rw (filed p, other) refl)
]

-- The counts of one peer.
abbrev Counts : Bytes → ℕ → ℕ → ManifestStore → Type 0
Counts peer t u store =
    ((read peer store).total_hits ≡ min t (2 ^ 64 - 1))
    × ((read peer store).useful_hits ≡ min u (2 ^ 64 - 1))

bump-Counts :
    (b : Bump) (peer : Bytes) (t u : ℕ) (store : ManifestStore)
    → IsFiled store
    → Counts peer t u store
    → Counts peer (t + returned_by peer (b ∷ [])) (u + useful_by peer (b ∷ [])) (bump b store)
unfolding bump returned_by useful_by saturating_add
bump-Counts (total p d) peer t u store filed (ht, hu) =
    let after = read-bump_total p peer d store filed in
    elim (Bool-cases (eq_bytes p peer)) [
      | inl same ↦ rw (after, same) (omega (arith, ht), omega (arith, hu))
      | inr other ↦ rw (after, other) (omega (arith, ht), omega (arith, hu))
    ]
bump-Counts (useful p d now) peer t u store filed (ht, hu) =
    let after = read-bump_useful p peer d now store filed in
    elim (Bool-cases (eq_bytes p peer)) [
      | inl same ↦ rw (after, same) (omega (arith, ht), omega (arith, hu))
      | inr other ↦ rw (after, other) (omega (arith, ht), omega (arith, hu))
    ]

sums :
    (peer : Bytes) (b : Bump) (bs : List Bump)
    → (returned_by peer (b ∷ bs) ≡ returned_by peer (b ∷ []) + returned_by peer bs)
      × (useful_by peer (b ∷ bs) ≡ useful_by peer (b ∷ []) + useful_by peer bs)
unfolding returned_by useful_by
sums peer (total p d) bs = (omega arith, omega arith)
sums peer (useful p d now) bs = (omega arith, omega arith)

bump_all-Counts :
    (bs : List Bump) (peer : Bytes) (t u : ℕ) (store : ManifestStore)
    → IsFiled store
    → Counts peer t u store
    → Counts peer (t + returned_by peer bs) (u + useful_by peer bs) (bump_all bs store)
unfolding bump_all
bump_all-Counts [] peer t u store filed (ht, hu) =
    unfold returned_by useful_by in (omega (arith, ht), omega (arith, hu))
bump_all-Counts (b ∷ bs) peer t u store filed counts =
    let rest =
      bump_all-Counts bs peer (t + returned_by peer (b ∷ [])) (u + useful_by peer (b ∷ []))
        (bump b store) (bump-IsFiled b store filed) (bump-Counts b peer t u store filed counts) in
    (omega (arith, rest.0, sums peer b bs), omega (arith, rest.1, sums peer b bs))

-- From an empty store, any sequence of bumps leaves as a peer's counts the sums of what was added
-- for that peer, kept at the largest `u64`.
pub bump_all-sums :
    (bs : List Bump) (peer : Bytes)
    → ((read peer (bump_all bs [])).total_hits ≡ min (returned_by peer bs) (2 ^ 64 - 1))
      × ((read peer (bump_all bs [])).useful_hits ≡ min (useful_by peer bs) (2 ^ 64 - 1))
bump_all-sums bs peer =
    let (t, u) =
      bump_all-Counts bs peer 0 0 [] empty-IsFiled
        (unfold read lookup blank_manifest in (omega arith, omega arith)) in
    (omega (arith, t), omega (arith, u))
