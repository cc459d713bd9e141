-- ===== src/Manifest.antt =====
-- crates/hansa/src/manifest.rs: what is remembered of each peer's usefulness. The store is a map from
-- tenant ids to the manifests in their files; a file that cannot be read is as good as none, and
-- writes are taken to succeed. The clock is an argument.
pub mod Counts
use hansa.Prelude.{
  ℕ, zero, suc, ◌+◌, ◌-◌, ◌*◌, ◌/◌, ◌%◌, ◌^◌, ◌≤◌, ◌<◌, min, max, ◌≡◌, refl, sym, ap, ap₂, ◌∙◌,
  subst, ◌≢◌, ◌↔◌, ◌⊎◌, inl, inr, Bool, true, false, not, ◌&&◌, ◌||◌, Option, none, some, List, [],
  ◌∷◌, ◌++◌, map, append_assoc, append-nil, arith, ltb, leb, ◌==◌, if◌then◌else◌, ltb→lt, lt→ltb,
  leb→le, le→leb, ==_iff, Bool-cases, Option-cases, if_both, length, get_elem?, take, drop, modify,
  length-append, All, All-append, length-take, length-drop, length-map, length-modify,
  take-append-drop, take-append, drop-append, All-take,
}
use hansa.Prelude.Bytes.{Bytes, IsByte, eq_bytes, eq_bytes_iff, eq_bytes_refl, lt_bytes}
use hansa.Prelude.Assoc.{Assoc, lookup, insert}
use hansa.Floats.{Floats}

pub record PeerManifest : Type 0 where
  pub peer_id_bytes : Bytes
  pub useful_hits : ℕ
  pub total_hits : ℕ
  pub last_useful_at : ℕ

abbrev pub trial_returns : ℕ
trial_returns = 20

-- `u64::saturating_add`
unfoldable pub saturating_add : ℕ → ℕ → ℕ
saturating_add a b = min (a + b) (2 ^ 64 - 1)

-- `PeerManifest::empty`
unfoldable pub blank_manifest : Bytes → PeerManifest
blank_manifest peer = record {
  peer_id_bytes = peer;
  useful_hits = 0;
  total_hits = 0;
  last_useful_at = 0;
}

unfoldable pub is_cold : PeerManifest → Bool
is_cold m = m.useful_hits == 0 && leb trial_returns m.total_hits

module _ (f : Floats) where
  open f use {F32, of_u64, half, four_fifths, day, add, sub, mul, div, neg, min32, exp}

  unfoldable pub usefulness_factor : PeerManifest → ℕ → F32
  usefulness_factor m now_unix_s =
      if m.total_hits == 0
      then of_u64 1
      else if m.useful_hits == 0
      then if ltb m.total_hits trial_returns
        then of_u64 1
        else (let excess = of_u64 (m.total_hits - trial_returns) in
            let pull = min32 (div excess (of_u64 trial_returns)) (of_u64 1) in
            sub (of_u64 1) (mul four_fifths pull))
      else (let ratio = div (of_u64 m.useful_hits) (of_u64 m.total_hits) in
          let age_s = of_u64 (now_unix_s - m.last_useful_at) in
          let recency = exp (div (neg age_s) day) in
          let bias = min32 (mul ratio recency) half in add (of_u64 1) bias)

abbrev pub ManifestStore : Type 0
ManifestStore = Assoc PeerManifest

abbrev pub or_blank : Bytes → Option PeerManifest → PeerManifest
or_blank peer none = blank_manifest peer
or_blank peer (some m) = m

unfoldable pub read : Bytes → ManifestStore → PeerManifest
read peer store = or_blank peer (lookup peer store)

unfoldable pub write : PeerManifest → ManifestStore → ManifestStore
write m store = insert m.peer_id_bytes m store

unfoldable pub bump_total : Bytes → ℕ → ManifestStore → ManifestStore
unfolding read write saturating_add
bump_total peer delta store =
    let m = read peer store in
    write (record m { total_hits = saturating_add m.total_hits delta }) store

unfoldable pub bump_useful : Bytes → ℕ → ℕ → ManifestStore → ManifestStore
unfolding read write saturating_add
bump_useful peer delta now store =
    let m = read peer store in
    write (record m { useful_hits = saturating_add m.useful_hits delta; last_useful_at = now })
      store
