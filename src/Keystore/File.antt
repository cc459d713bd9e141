-- ===== src/Keystore/File.antt =====
-- crates/hansa/src/keystore.rs: `FileKeystore`.
use hansa.Prelude.{Bool, true, false, Option, none, some, [], ◌∷◌, ◌++◌, ◌==◌, if◌then◌else◌}
use hansa.Prelude.Bytes.{Bytes}
use hansa.Prelude.Assoc
use hansa.Prelude.Assoc.{Assoc, lookup, insert}
use hansa.Error.{Result, ok, err, key_not_found, io}
use hansa.Text.{codes}
use hansa.Keystore.{is_utf8, read_key, encode_hex}

module _ (root : Bytes) where
  -- `PathBuf::push`
  abbrev starts_at_root : Bytes → Bool
  starts_at_root [] = false
  starts_at_root (c ∷ path) = c == b'/'

  abbrev ends_in_slash : Bytes → Bool
  ends_in_slash [] = true
  ends_in_slash (c ∷ []) = c == b'/'
  ends_in_slash (c ∷ d ∷ path) = ends_in_slash (d ∷ path)

  unfoldable pub push_path : Bytes → Bytes → Bytes
  push_path path name =
      if starts_at_root name
      then name
      else if ends_in_slash path
      then path ++ name
      else path ++ (b'/' ∷ name)

  unfoldable pub path_for : Bytes → Bytes
  unfolding push_path
  path_for slot = push_path root (slot ++ codes ".key")

  abbrev read_file : Option Bytes → Result Bytes
  unfolding is_utf8 read_key
  read_file none = err key_not_found
  read_file (some text) = if is_utf8 text then read_key text else err io

  unfoldable pub load : Bytes → Assoc Bytes → Result Bytes
  unfolding path_for read_file
  load slot files = read_file (lookup (path_for slot) files)

  unfoldable pub store : Bytes → Bytes → Assoc Bytes → Result (Unit {0}) × Assoc Bytes
  unfolding path_for encode_hex
  store slot key files = (ok tt, insert (path_for slot) (encode_hex key) files)

  -- A missing file is no error.
  unfoldable pub remove : Bytes → Assoc Bytes → Result (Unit {0}) × Assoc Bytes
  unfolding path_for
  remove slot files = (ok tt, Assoc.remove (path_for slot) files)
