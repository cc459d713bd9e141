-- ===== src/Member/Encoding.antt =====
-- `MemberRecord::canonical` covers every field: the bytes determine the record.
use hansa.Prelude.{
  ◌^◌, ◌<◌, ◌≡◌, refl, sym, ap, ◌∙◌, Option, none, some, [], ◌∷◌, ◌++◌, append_assoc, arith, length,
}
use hansa.Prelude.Bytes.{Bytes}
use hansa.Sign.Canonical
use hansa.Sign.Canonical.{to_le_bytes}
use hansa.Sign.Prefix.{prefixed, prefixed-inj, append-inj, to_le_bytes-inj}
use hansa.Member.{
  TenantLocation, path, resp3, http, MemberRecord, canonical, write_location, write_auth,
  write_bearer,
}

-- Texts that a `u32` length can describe.
abbrev pub IsShort : Bytes → Type 0
IsShort s = length s < 2 ^ 32

abbrev pub IsSizedAuth : Option (Bytes × Bytes) → Type 0
IsSizedAuth none = Unit
IsSizedAuth (some (user, pass)) = IsShort user × IsShort pass

abbrev pub IsSizedBearer : Option Bytes → Type 0
IsSizedBearer none = Unit
IsSizedBearer (some token) = IsShort token

abbrev pub IsSizedLocation : TenantLocation → Type 0
IsSizedLocation (path p) = IsShort p
IsSizedLocation (resp3 endpoint auth) = IsShort endpoint × IsSizedAuth auth
IsSizedLocation (http base_url bearer) = IsShort base_url × IsSizedBearer bearer

-- The widths that the Rust types give: a 16-byte id, a `u32`, an `i64`, texts of under 4 GiB.
pub record IsSized (m : MemberRecord) : Type 0 where
  pub tenant_id : length m.tenant_id ≡ 16
  pub location : IsSizedLocation m.tenant_location
  pub dim : m.embedding_dim < 2 ^ 32
  pub joined : m.joined_at < 2 ^ 64
  pub whole : IsShort (canonical m)

abbrev auth_bytes : Option (Bytes × Bytes) → Bytes
auth_bytes none = 0 ∷ []
auth_bytes (some (user, pass)) = 1 ∷ (prefixed user ++ prefixed pass)

abbrev bearer_bytes : Option Bytes → Bytes
bearer_bytes none = 0 ∷ []
bearer_bytes (some token) = 1 ∷ prefixed token

abbrev location_bytes : TenantLocation → Bytes
location_bytes (path p) = 0 ∷ prefixed p
location_bytes (resp3 endpoint auth) = 1 ∷ (prefixed endpoint ++ auth_bytes auth)
location_bytes (http base_url bearer) = 2 ∷ (prefixed base_url ++ bearer_bytes bearer)

write_auth-parts : (w : Bytes) (a : Option (Bytes × Bytes)) → write_auth w a ≡ w ++ auth_bytes a
unfolding write_auth Canonical.str Canonical.u8
write_auth-parts w none = refl
write_auth-parts w (some (user, pass)) = simp append_assoc

write_bearer-parts : (w : Bytes) (b : Option Bytes) → write_bearer w b ≡ w ++ bearer_bytes b
unfolding write_bearer Canonical.str Canonical.u8
write_bearer-parts w none = refl
write_bearer-parts w (some token) = simp append_assoc

write_location-parts : (w : Bytes) (l : TenantLocation) → write_location w l ≡ w ++ location_bytes l
unfolding write_location Canonical.str Canonical.u8
write_location-parts w (path p) = simp append_assoc
write_location-parts w (resp3 e a) = simp (write_auth-parts, append_assoc)
write_location-parts w (http u b) = simp (write_bearer-parts, append_assoc)

abbrev member_bytes : MemberRecord → Bytes
member_bytes m =
    m.tenant_id
    ++ (to_le_bytes 4 m.embedding_dim
        ++ (to_le_bytes 8 m.joined_at ++ location_bytes m.tenant_location))

canonical-parts : (m : MemberRecord) → canonical m ≡ member_bytes m
unfolding canonical Canonical.new Canonical.fixed Canonical.u32 Canonical.i64
canonical-parts m = simp (write_location-parts, append_assoc)

auth_bytes-inj :
    (a b : Option (Bytes × Bytes))
    → IsSizedAuth a
    → IsSizedAuth b
    → auth_bytes a ≡ auth_bytes b
    → a ≡ b
auth_bytes-inj none none ha hb e = refl
auth_bytes-inj none (some (u, p)) ha hb e = cc
auth_bytes-inj (some (u, p)) none ha hb e = cc
auth_bytes-inj (some (u, p)) (some (v, q)) ha hb e =
    let (users, rest) = prefixed-inj u v (prefixed p) (prefixed q) ha.0 hb.0 (cc) in
    let rest' : prefixed p ++ [] ≡ prefixed q ++ [] = ap (λ t. t ++ []) rest in
    let (passes, _) = prefixed-inj p q [] [] ha.1 hb.1 rest' in cc

bearer_bytes-inj :
    (a b : Option Bytes)
    → IsSizedBearer a
    → IsSizedBearer b
    → bearer_bytes a ≡ bearer_bytes b
    → a ≡ b
bearer_bytes-inj none none ha hb e = refl
bearer_bytes-inj none (some t) ha hb e = cc
bearer_bytes-inj (some t) none ha hb e = cc
bearer_bytes-inj (some t) (some u) ha hb e =
    let tails : prefixed t ≡ prefixed u = cc in
    let (same, _) = prefixed-inj t u [] [] ha hb (ap (λ x. x ++ []) tails) in cc

location_bytes-inj :
    (a b : TenantLocation)
    → IsSizedLocation a
    → IsSizedLocation b
    → location_bytes a ≡ location_bytes b
    → a ≡ b
location_bytes-inj (path p) (path q) ha hb e =
    let tails : prefixed p ≡ prefixed q = cc in
    let (same, _) = prefixed-inj p q [] [] ha hb (ap (λ x. x ++ []) tails) in cc
location_bytes-inj (resp3 x a) (resp3 y b) ha hb e =
    let (ends, rest) = prefixed-inj x y (auth_bytes a) (auth_bytes b) ha.0 hb.0 (cc) in
    let auths = auth_bytes-inj a b ha.1 hb.1 rest in cc
location_bytes-inj (http x a) (http y b) ha hb e =
    let (urls, rest) = prefixed-inj x y (bearer_bytes a) (bearer_bytes b) ha.0 hb.0 (cc) in
    let bearers = bearer_bytes-inj a b ha.1 hb.1 rest in cc
location_bytes-inj (path p) (resp3 y b) ha hb e = absurd (ground (arith, e))
location_bytes-inj (path p) (http y b) ha hb e = absurd (ground (arith, e))
location_bytes-inj (resp3 x a) (path q) ha hb e = absurd (ground (arith, e))
location_bytes-inj (resp3 x a) (http y b) ha hb e = absurd (ground (arith, e))
location_bytes-inj (http x a) (path q) ha hb e = absurd (ground (arith, e))
location_bytes-inj (http x a) (resp3 y b) ha hb e = absurd (ground (arith, e))

-- Two members with the same signing bytes agree in every field, the location with its credentials
-- included.
pub canonical-injective :
    (m n : MemberRecord) → IsSized m → IsSized n → canonical m ≡ canonical n → m ≡ n
canonical-injective m n hm hn e =
    let bytes_eq = sym (canonical-parts m) ∙ e ∙ canonical-parts n in
    let (ids, r1) =
      append-inj m.tenant_id n.tenant_id _ _ (hm.tenant_id ∙ sym hn.tenant_id) bytes_eq in
    let (dims, r2) = to_le_bytes-inj 4 m.embedding_dim n.embedding_dim _ _ hm.dim hn.dim r1 in
    let (times, r3) = to_le_bytes-inj 8 m.joined_at n.joined_at _ _ hm.joined hn.joined r2 in
    let places =
      location_bytes-inj m.tenant_location n.tenant_location hm.location hn.location r3 in
    λ i. record {
      tenant_id = ids i;
      tenant_location = places i;
      embedding_dim = dims i;
      joined_at = times i;
    }
