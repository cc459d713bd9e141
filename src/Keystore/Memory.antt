-- ===== src/Keystore/Memory.antt =====
-- crates/hansa/src/keystore.rs: `MemoryKeystore`.
use hansa.Prelude.Bytes.{Bytes}
use hansa.Prelude.Assoc
use hansa.Prelude.Assoc.{Assoc, lookup, insert}
use hansa.Error.{Result, ok, ok_or, key_not_found}

unfoldable pub load : Bytes → Assoc Bytes → Result Bytes
load slot keys = ok_or key_not_found (lookup slot keys)

unfoldable pub store : Bytes → Bytes → Assoc Bytes → Result (Unit {0}) × Assoc Bytes
store slot key keys = (ok tt, insert slot key keys)

unfoldable pub remove : Bytes → Assoc Bytes → Result (Unit {0}) × Assoc Bytes
remove slot keys = (ok tt, Assoc.remove slot keys)
