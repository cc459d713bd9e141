-- ===== src/Handle/Open.antt =====
-- crates/hansa/src/hansa.rs: `Hansa::open`, over the file registry and the head cache. Creating the
-- directory of the sagas succeeds.
use hansa.Prelude.{ℕ, Bool, true, false, not, Option, none, some, if◌then◌else◌}
use hansa.Prelude.Bytes.{Bytes, eq_bytes}
use hansa.Error.{Result, ok, err, guard, id_mismatch, invariant}
use hansa.Exec.{Exec, lift, ◌>>=◌, ◌>>◌}
use hansa.Sign.{Crypto, public, from_skipper}
use hansa.Member.{TenantLocation}
use hansa.Hex.{Outcome, returned, failed, panicked}
use hansa.HeadCache.{HeadCache, check_and_record}
use hansa.Chain.{ReplayOutcome, replay}
use hansa.Registry.File.{FileRegistry, is_empty, read_chain, found}
use hansa.Handle.{Hansa}

-- `HansaConfig`, with the dimension of the local tenant, and whether there is a directory for heads.
pub record HansaConfig : Type 0 where
  pub skipper : Option Bytes
  pub hansa_id : Option Bytes
  pub local_tenant_id : Bytes
  pub local_tenant_location : TenantLocation
  pub embedding_dim : ℕ
  pub has_head_cache : Bool

abbrev is_other : Option Bytes → Bytes → Bool
is_other none derived = false
is_other (some provided) derived = not (eq_bytes provided derived)

unfoldable pub resolve_id : Crypto → Option Bytes → Option Bytes → Result Bytes
unfolding public from_skipper
resolve_id c (some skipper) provided =
    let derived = from_skipper c (public c skipper) in
    if is_other provided derived then err id_mismatch else ok derived
resolve_id c none (some id) = ok id
resolve_id c none none = err invariant

unfoldable pub found_or_require :
    Crypto → Option Bytes → Bytes → ℕ → ℕ → Exec FileRegistry (Unit {0})
unfolding read_chain found
found_or_require c (some skipper) id dim now = found c id skipper dim now
found_or_require c none id dim now = do
  chain ← read_chain id
  lift (guard (not (is_empty chain)) invariant)

-- The chain is there, and it is verified.
unfoldable pub verified : Crypto → HansaConfig → Bytes → ℕ → Exec FileRegistry ReplayOutcome
unfolding found_or_require read_chain
verified c config id now = do
  found_or_require c config.skipper id config.embedding_dim now
  chain ← read_chain id
  lift (replay c chain (some id))

-- The anti-rollback check, where there is a head cache.
unfoldable pub remember : Bool → Bytes → ReplayOutcome → HeadCache → Outcome (Unit {0}) × HeadCache
unfolding check_and_record
remember true id out cache = check_and_record id out.head_seq out.head_hash cache
remember false id out cache = (returned tt, cache)

abbrev handle_of : HansaConfig → Bytes → Hansa
handle_of config id = record {
  id = id;
  skipper = config.skipper;
  local_tenant_id = config.local_tenant_id;
  local_tenant_location = config.local_tenant_location;
  embedding_dim = config.embedding_dim;
}

abbrev pub Opened : Type 0
Opened = Outcome Hansa × (FileRegistry × HeadCache)

unfoldable pub opened : HansaConfig → Bytes → FileRegistry → Outcome (Unit {0}) × HeadCache → Opened
opened config id reg (returned done, cache) = (returned (handle_of config id), (reg, cache))
opened config id reg (failed e, cache) = (failed e, (reg, cache))
opened config id reg (panicked, cache) = (panicked, (reg, cache))

unfoldable pub check_head :
    HansaConfig → Bytes → Result ReplayOutcome × FileRegistry → HeadCache → Opened
unfolding remember opened
check_head config id (err e, reg) cache = (failed e, (reg, cache))
check_head config id (ok out, reg) cache =
    opened config id reg (remember config.has_head_cache id out cache)

unfoldable pub open_as : Crypto → HansaConfig → ℕ → Result Bytes → FileRegistry → HeadCache → Opened
unfolding verified check_head
open_as c config now (err e) reg cache = (failed e, (reg, cache))
open_as c config now (ok id) reg cache = check_head config id (verified c config id now reg) cache

unfoldable pub open_hansa : Crypto → HansaConfig → ℕ → FileRegistry → HeadCache → Opened
unfolding resolve_id open_as
open_hansa c config now reg cache =
    open_as c config now (resolve_id c config.skipper config.hansa_id) reg cache
