-- ===== src/Keystore/Env.antt =====
-- crates/hansa/src/keystore.rs: `EnvKeystore`.
use hansa.Prelude.{Option, none, some, ◌++◌, map, if◌then◌else◌}
use hansa.Prelude.Bytes.{Bytes}
use hansa.Prelude.Assoc.{Assoc, lookup}
use hansa.Error.{Result, err, invariant, key_not_found}
use hansa.Text.{codes}
use hansa.Keystore.{is_utf8, read_key, ascii_uppercase}

unfoldable pub env_name : Bytes → Bytes
unfolding ascii_uppercase
env_name slot = codes "HANSA_KEY_" ++ map ascii_uppercase slot

abbrev read_var : Option Bytes → Result Bytes
unfolding is_utf8 read_key
read_var none = err key_not_found
read_var (some value) = if is_utf8 value then read_key value else err key_not_found

unfoldable pub load : Bytes → Assoc Bytes → Result Bytes
unfolding env_name read_var
load slot env = read_var (lookup (env_name slot) env)

unfoldable pub store : Bytes → Bytes → Assoc Bytes → Result (Unit {0}) × Assoc Bytes
store slot key env = (err invariant, env)

unfoldable pub remove : Bytes → Assoc Bytes → Result (Unit {0}) × Assoc Bytes
remove slot env = (err invariant, env)
