-- ===== src/Genesis.antt =====
-- crates/hansa/src/genesis.rs: the signed root of a members chain.
pub mod Encoding
use hansa.Prelude.{ℕ, Bool, ◌==◌, if◌then◌else◌}
use hansa.Prelude.Bytes.{Bytes, eq_bytes}
use hansa.Error.{Result, guard, malformed_crypto, id_mismatch, ◌>>◌}
use hansa.Sign.{Crypto, public, sign, verify, from_skipper, domain_genesis}
use hansa.Sign.Canonical.{new, u8, u32, i64, fixed}

abbrev pub genesis_v : ℕ
genesis_v = 2

pub record Genesis : Type 0 where
  pub v : ℕ
  pub hansa_id : Bytes
  pub skipper_pub : Bytes
  pub embedding_dim : ℕ
  pub created_at : ℕ
  pub rotation_allowed : Bool

unfoldable pub canonical : Genesis → Bytes
canonical g =
    u8
      (i64 (u32 (fixed (fixed (u8 new g.v) g.hansa_id) g.skipper_pub) g.embedding_dim) g.created_at)
      (if g.rotation_allowed then 1 else 0)

module _ (c : Crypto) where
  -- `Genesis::found`
  unfoldable pub found : Bytes → ℕ → ℕ → Bool → Genesis × Bytes
  found skipper embedding_dim created_at rotation_allowed =
      let skipper_pub = public c skipper in
      let g : Genesis = record {
        v = genesis_v;
        hansa_id = from_skipper c skipper_pub;
        skipper_pub = skipper_pub;
        embedding_dim = embedding_dim;
        created_at = created_at;
        rotation_allowed = rotation_allowed;
      } in
      (g, sign c skipper domain_genesis (canonical g))

  unfoldable pub verify_genesis : Genesis → Bytes → Result (Unit {0})
  verify_genesis g sig = do
    guard (g.v == genesis_v) malformed_crypto
    guard (eq_bytes (from_skipper c g.skipper_pub) g.hansa_id) id_mismatch
    verify c g.skipper_pub domain_genesis (canonical g) sig

  unfoldable pub verify_for : Genesis → Bytes → Bytes → Result (Unit {0})
  unfolding verify_genesis
  verify_for g expected sig = do
    guard (eq_bytes g.hansa_id expected) id_mismatch
    verify_genesis g sig
