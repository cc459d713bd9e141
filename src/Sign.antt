-- ===== src/Sign.antt =====
-- crates/hansa/src/sign.rs and the id derivation of crates/hansa/src/key.rs.
-- ed25519 and BLAKE3 are other crates: they are the parameter `Crypto`, with the laws that the code
-- relies on in `IsSound`. A `SkipperPub` and a `Sig` are their bytes.
pub mod Canonical
pub mod Prefix
use hansa.Prelude.{ℕ, ◌≡◌, Bool, true, List, [], ◌∷◌, ◌++◌, length}
use hansa.Prelude.Bytes.{Bytes}
use hansa.Error.{Result, ok, guard, bad_signature}

-- `SigningKey::from_bytes(seed).verifying_key()`, `sign`, `verify_strict` and `blake3::hash`.
pub record Crypto : Type 0 where
  pub verifying_key : Bytes → Bytes
  pub sign_raw : Bytes → Bytes → Bytes
  pub verify_strict : Bytes → Bytes → Bytes → Bool
  pub blake3 : Bytes → Bytes

-- ed25519 verifies what it signed.
pub record IsSound (c : Crypto) : Type 0 where
  pub verify_sign :
      (seed msg : Bytes) → c.verify_strict (c.verifying_key seed) msg (c.sign_raw seed msg) ≡ true

-- b"hansa.genesis.v2\0"
abbrev pub domain_genesis : Bytes
domain_genesis =
    104 ∷ 97 ∷ 110 ∷ 115 ∷ 97 ∷ 46 ∷ 103 ∷ 101 ∷ 110 ∷ 101 ∷ 115 ∷ 105 ∷ 115 ∷ 46 ∷ 118 ∷ 50 ∷ 0
    ∷ []

-- b"hansa.link.v2\0"
abbrev pub domain_link : Bytes
domain_link = 104 ∷ 97 ∷ 110 ∷ 115 ∷ 97 ∷ 46 ∷ 108 ∷ 105 ∷ 110 ∷ 107 ∷ 46 ∷ 118 ∷ 50 ∷ 0 ∷ []

-- b"hansa-id-v2"
abbrev pub hansa_id_v2_domain : Bytes
hansa_id_v2_domain = 104 ∷ 97 ∷ 110 ∷ 115 ∷ 97 ∷ 45 ∷ 105 ∷ 100 ∷ 45 ∷ 118 ∷ 50 ∷ []

unfoldable pub framed : Bytes → Bytes → Bytes
framed domain msg = domain ++ msg

module _ (c : Crypto) where
  -- `Skipper::public`, of the skipper with this seed
  unfoldable pub public : Bytes → Bytes
  public seed = c.verifying_key seed

  -- `Skipper::sign`
  unfoldable pub sign : Bytes → Bytes → Bytes → Bytes
  sign seed domain msg = c.sign_raw seed (framed domain msg)

  -- `SkipperPub::verify`
  unfoldable pub verify : Bytes → Bytes → Bytes → Bytes → Result (Unit {0})
  verify key domain msg sig = guard (c.verify_strict key (framed domain msg) sig) bad_signature

  -- `HansaId::from_skipper`
  unfoldable pub from_skipper : Bytes → Bytes
  from_skipper skipper_pub = c.blake3 (hansa_id_v2_domain ++ skipper_pub)

  pub verify-sign :
      IsSound c
      → (seed domain msg : Bytes) → verify (public seed) domain msg (sign seed domain msg) ≡ ok tt
  unfolding verify sign public
  verify-sign sound seed domain msg = rw (sound.verify_sign seed (framed domain msg))
