-- ===== src/Tests/HeadTests.antt =====
-- The theorems on hex text and on the head cache.
use hansa.Prelude.{
  ◌<◌, ◌≡◌, refl, ◌∙◌, ◌≢◌, ◌⊎◌, some, [], ◌∷◌, arith, if◌then◌else◌, take, drop, All,
}
use hansa.Prelude.Bytes.{Bytes, IsByte, eq_bytes, eq_bytes_refl}
use hansa.Error.{chain_regressed}
use hansa.Chain.{zero_hash}
use hansa.Hex.{
  returned, failed, panicked, hex, unhex, serialize_hash, deserialize_hash, serialize_tenant_id,
  deserialize_tenant_id, as_hex, deserialize_hansa_id, parse_tenant_hex,
}
use hansa.Hex.Codec
use hansa.HeadCache.{HeadCache, load, store, check_and_record}
use hansa.HeadCache.Text
use hansa.HeadCache.Regress
use hansa.HeadCache.Regress.{Check, check_all}
use hansa.Tests.Toy.{alice, team}

zero_hash-IsByte : All IsByte zero_hash
zero_hash-IsByte = ground arith

alice-IsByte : All IsByte alice
alice-IsByte = ground arith

codecs_read_back_example :
    (unhex 2 (hex (255 ∷ 10 ∷ [])) ≡ returned (255 ∷ 10 ∷ []))
    × (deserialize_hash (serialize_hash zero_hash) ≡ returned zero_hash)
    × (deserialize_hansa_id (as_hex zero_hash) ≡ returned zero_hash)
    × (deserialize_tenant_id (serialize_tenant_id alice) ≡ returned alice)
    × (parse_tenant_hex (serialize_tenant_id alice) ≡ returned alice)
codecs_read_back_example =
    Codec.codecs_read_back 2 (255 ∷ 10 ∷ []) zero_hash alice (ground arith) zero_hash-IsByte
      alice-IsByte refl refl refl

readers_are_calm_example :
    (unhex 1 (43 ∷ 102 ∷ []) ≢ panicked)
    × (deserialize_hash (43 ∷ 102 ∷ []) ≢ panicked)
    × (deserialize_hansa_id (43 ∷ 102 ∷ []) ≢ panicked)
    × (deserialize_tenant_id (43 ∷ 102 ∷ []) ≢ panicked)
    × (parse_tenant_hex (43 ∷ 102 ∷ []) ≢ panicked)
readers_are_calm_example = Codec.readers_are_calm 1 (43 ∷ 102 ∷ []) (omega arith, (omega arith, tt))

non_ascii_tenant_panics :
    (parse_tenant_hex (48 ∷ 195 ∷ 169 ∷ take 29 zero_hash) ≡ panicked)
    × (deserialize_tenant_id (48 ∷ 195 ∷ 169 ∷ take 29 zero_hash) ≡ panicked)
non_ascii_tenant_panics =
    Codec.parse_tenant_hex_panics 48 195 169 (take 29 zero_hash) refl (omega arith) (omega arith)

abbrev other_hash : Bytes
other_hash = 1 ∷ drop 1 zero_hash

other_hash-IsByte : All IsByte other_hash
other_hash-IsByte = ground arith

abbrev fifth : Check
fifth = record {
  hansa = team;
  seq = 5;
  hash = zero_hash;
  seq_fits = omega arith;
  hash_fits = refl;
  hash_bytes = zero_hash-IsByte;
}

abbrev recorded : HeadCache
recorded = store team 5 zero_hash []

load-store_example :
    load team (store team 5 zero_hash [])
    ≡ (if eq_bytes team team then returned (some (5, zero_hash)) else load team [])
load-store_example = Text.load-store team team 5 zero_hash [] (omega arith) refl zero_hash-IsByte

fifth_is_known : load team recorded ≡ returned (some (5, zero_hash))
fifth_is_known =
    Text.load-store team team 5 zero_hash [] (omega arith) refl zero_hash-IsByte
    ∙ rw (eq_bytes_refl team) refl

no_rollback_example :
    check_and_record team 4 other_hash (check_all (fifth ∷ []) recorded)
    ≡ (failed chain_regressed, check_all (fifth ∷ []) recorded)
no_rollback_example =
    Regress.no_rollback team 5 zero_hash (fifth ∷ []) recorded 4 other_hash fifth_is_known
      (omega arith)

check_and_record-result_example :
    ((fifth.seq < 5) ⊎ ((fifth.seq ≡ 5) × (zero_hash ≢ zero_hash)))
      × (check_and_record team 5 zero_hash recorded ≡ (failed chain_regressed, recorded))
    ⊎ ((5 < fifth.seq) ⊎ ((fifth.seq ≡ 5) × (zero_hash ≡ zero_hash)))
      × ((check_and_record team 5 zero_hash recorded).0 ≡ returned tt)
      × ((other : Bytes)
          → load other (check_and_record team 5 zero_hash recorded).1
            ≡ (if eq_bytes team other then returned (some (5, zero_hash)) else load other recorded))
check_and_record-result_example =
    Regress.check_and_record-result fifth recorded 5 zero_hash fifth_is_known
