-- ===== src/Handle/Useful.antt =====
-- `record_useful_hits` credits every peer with its hits.
use hansa.Prelude.{
  ℕ, ◌+◌, ◌-◌, ◌^◌, ◌<◌, min, ◌≡◌, refl, sym, ap, ◌∙◌, inl, inr, none, List, [], ◌∷◌, arith,
  if◌then◌else◌, Bool-cases,
}
use hansa.Prelude.Bytes.{Bytes, eq_bytes}
use hansa.Prelude.Assoc.{Assoc, lookup, IsDistinct, lookup-insert, insert-IsDistinct}
use hansa.Prelude.Bytes.{eq_bytes_sound}
use hansa.Floats.{Floats}
use hansa.Manifest.{ManifestStore, read, bump_useful, saturating_add}
use hansa.Manifest.Counts.{IsFiled, write-IsFiled, read-bump_useful}
use hansa.Membrane.Query.{HitOrigin, local, remote, MembraneHit, count_origin, hit_count, or_zero}
use hansa.Handle.Query.{bump_useful_each, record_useful_hits}

module _ (f : Floats) where
  -- How many of the hits a peer sent.
  abbrev sent : Bytes → HitOrigin → ℕ
  sent peer local = 0
  sent peer (remote p) = if eq_bytes p peer then 1 else 0

  abbrev pub sent_by : Bytes → List (MembraneHit f) → ℕ
  sent_by peer [] = 0
  sent_by peer (hit ∷ hits) = sent peer hit.origin + sent_by peer hits

  count_origin_lem :
      (peer : Bytes) (o : HitOrigin) (counts : Assoc ℕ)
      → or_zero f (lookup peer (count_origin f o counts))
        ≡ or_zero f (lookup peer counts) + sent peer o
  unfolding count_origin
  count_origin_lem peer local counts = omega arith
  count_origin_lem peer (remote p) counts = elim (Bool-cases (eq_bytes p peer)) [
    | inl same ↦
        rw (lookup-insert p peer (or_zero f (lookup p counts) + 1) counts, same)
          (ap (λ q. or_zero f (lookup q counts) + 1) (eq_bytes_sound p peer same))
    | inr other ↦
        rw (lookup-insert p peer (or_zero f (lookup p counts) + 1) counts, other) (omega arith)
  ]

  hit_count_lem :
      (peer : Bytes) (hits : List (MembraneHit f)) (counts : Assoc ℕ)
      → or_zero f (lookup peer (hit_count f hits counts))
        ≡ or_zero f (lookup peer counts) + sent_by peer hits
  unfolding hit_count
  hit_count_lem peer [] counts = omega arith
  hit_count_lem peer (hit ∷ hits) counts = omega (
    arith,
    hit_count_lem peer hits (count_origin f hit.origin counts),
    count_origin_lem peer hit.origin counts,
  )

  count_origin-IsDistinct :
      (o : HitOrigin) (counts : Assoc ℕ) → IsDistinct counts → IsDistinct (count_origin f o counts)
  unfolding count_origin
  count_origin-IsDistinct local counts h = h
  count_origin-IsDistinct (remote p) counts h = insert-IsDistinct p _ counts h

  hit_count-IsDistinct :
      (hits : List (MembraneHit f)) (counts : Assoc ℕ)
      → IsDistinct counts
      → IsDistinct (hit_count f hits counts)
  unfolding hit_count
  hit_count-IsDistinct [] counts h = h
  hit_count-IsDistinct (hit ∷ hits) counts h =
      hit_count-IsDistinct hits (count_origin f hit.origin counts)
        (count_origin-IsDistinct hit.origin counts h)

  abbrev useful_of : Bytes → ManifestStore → ℕ
  useful_of peer store = (read peer store).useful_hits

  useful-bump_useful :
      (p peer : Bytes) (d now : ℕ) (store : ManifestStore)
      → IsFiled store
      → useful_of peer (bump_useful p d now store) ≡ (
          if eq_bytes p peer then saturating_add (useful_of peer store) d else useful_of peer store)
  useful-bump_useful p peer d now store filed =
      ap (λ m. m.useful_hits) (read-bump_useful p peer d now store filed)
      ∙ (elim (Bool-cases (eq_bytes p peer)) [ inl e ↦ rw e refl | inr e ↦ rw e refl ])

  bump_useful_each_lem :
      (peer : Bytes) (now : ℕ) (counts : Assoc ℕ) (store : ManifestStore)
      → IsDistinct counts
      → IsFiled store
      → useful_of peer store < 2 ^ 64
      → useful_of peer (bump_useful_each f now counts store)
        ≡ saturating_add (useful_of peer store) (or_zero f (lookup peer counts))
  unfolding bump_useful_each lookup saturating_add
  bump_useful_each_lem peer now [] store distinct filed fits = omega (arith, fits)
  bump_useful_each_lem peer now ((p, d) ∷ counts) store distinct filed fits =
      let after = bump_useful p d now store in
      let filed_after : IsFiled after = unfold bump_useful in write-IsFiled _ store filed in
      let first = useful-bump_useful p peer d now store filed in
      elim (Bool-cases (eq_bytes p peer)) [
        | inl same ↦
            let once : lookup peer counts ≡ none =
              ap (λ q. lookup q counts) (sym (eq_bytes_sound p peer same)) ∙ distinct.0 in
            let now_useful : useful_of peer after ≡ min (useful_of peer store + d) (2 ^ 64 - 1) =
              first ∙ rw same refl in
            let rest =
              bump_useful_each_lem peer now counts after distinct.1 filed_after
                (omega (arith, now_useful)) in
            rw same (rest ∙ rw once (omega (arith, now_useful)))
        | inr other ↦
            let unchanged : useful_of peer after ≡ useful_of peer store = first ∙ rw other refl in
            let rest =
              bump_useful_each_lem peer now counts after distinct.1 filed_after
                (omega (arith, unchanged, fits)) in
            rw other
              (rest ∙ ap (λ u. min (u + or_zero f (lookup peer counts)) (2 ^ 64 - 1)) unchanged)
      ]

  -- On a store in which each manifest stands in its peer's file and whose counts fit `u64`, the useful hits of a
  -- peer grow by the number of the hits that it sent, and stop at the largest `u64`.
  pub record_useful_hits-credits :
      (peer : Bytes) (now : ℕ) (hits : List (MembraneHit f)) (store : ManifestStore)
      → IsFiled store
      → (read peer store).useful_hits < 2 ^ 64
      → (read peer (record_useful_hits f now hits store)).useful_hits
        ≡ saturating_add (read peer store).useful_hits (sent_by peer hits)
  unfolding record_useful_hits
  record_useful_hits-credits peer now hits store filed fits =
      bump_useful_each_lem peer now (hit_count f hits []) store (hit_count-IsDistinct hits [] tt)
        filed fits
      ∙ ap (saturating_add (useful_of peer store))
          (hit_count_lem peer hits [] ∙ unfold lookup in omega arith)
