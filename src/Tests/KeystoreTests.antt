-- ===== src/Tests/KeystoreTests.antt =====
-- The theorem on the keystores, at a key of 32 bytes.
use hansa.Prelude.{◌≡◌, refl, []}
use hansa.Prelude.Bytes.{Bytes}
use hansa.Prelude.Assoc.{insert}
use hansa.Error.{ok, err, key_not_found}
use hansa.Text.{codes}
use hansa.Keystore.{encode_hex}
use hansa.Keystore.Env
use hansa.Keystore.File
use hansa.Keystore.Memory
use hansa.Keystore.Kept
use hansa.Tests.Toy.{are_bytes_sound}

abbrev key : Bytes
key = codes "0123456789abcdef0123456789abcdef"

abbrev root : Bytes
root = codes "/keys"

abbrev slot : Bytes
slot = codes "team"

keystores_keep_keys_example :
    ((File.store root slot key []).0 ≡ ok tt)
    × (File.load root slot (File.store root slot key []).1 ≡ ok key)
    × ((File.remove root slot []).0 ≡ ok tt)
    × (File.load root slot (File.remove root slot []).1 ≡ err key_not_found)
    × ((Memory.store slot key []).0 ≡ ok tt)
    × (Memory.load slot (Memory.store slot key []).1 ≡ ok key)
    × ((Memory.remove slot []).0 ≡ ok tt)
    × (Memory.load slot (Memory.remove slot []).1 ≡ err key_not_found)
    × (Env.load slot (insert (Env.env_name slot) (encode_hex key) []) ≡ ok key)
keystores_keep_keys_example =
    Kept.keystores_keep_keys root slot key [] refl (are_bytes_sound key refl)
