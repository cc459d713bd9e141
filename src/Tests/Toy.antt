-- ===== src/Tests/Toy.antt =====
-- A toy signature scheme and hash, and a chain of three links under it.
use hansa.Prelude.{
  ◌%◌, ◌≡◌, inl, inr, Bool, true, false, ◌&&◌, none, List, [], ◌∷◌, ◌++◌, ltb, ltb→lt, Bool-cases,
  length, take, drop, All,
}
use hansa.Prelude.Bytes.{Bytes, IsByte, eq_bytes, eq_bytes_refl}
use hansa.Sign.{Crypto, IsSound}
use hansa.Member.{MemberRecord, path}
use hansa.Chain.{Link, ReplayOutcome, zero_hash, Body, admit, revoke}
use hansa.Chain.Founded.{founded_link, founded-IsOwned}
use hansa.Chain.Collapse.{IsOwned, id_of, next_link, extend-IsOwned}
use hansa.Chain.Extend.{IsEntry}

-- A key signs by writing itself in front, and a hash is a length.
abbrev pub toy : Crypto
toy = record {
  verifying_key = λ seed. seed;
  sign_raw = λ seed msg. seed ++ msg;
  verify_strict = λ key msg sig. eq_bytes sig (key ++ msg);
  blake3 = λ b. length b % 256 ∷ drop 1 zero_hash;
}

pub toy-IsSound : IsSound toy
toy-IsSound = record { verify_sign = λ seed msg. eq_bytes_refl (seed ++ msg) }

abbrev pub key : Bytes
key = 7 ∷ drop 1 zero_hash

abbrev pub stranger : Bytes
stranger = 8 ∷ drop 1 zero_hash

abbrev pub team : Bytes
team = id_of toy key

abbrev pub alice : Bytes
alice = take 16 key

abbrev pub bob : Bytes
bob = take 16 stranger

abbrev pub alice_record : MemberRecord
alice_record = record {
  tenant_id = alice;
  tenant_location = path (47 ∷ 97 ∷ []);
  embedding_dim = 4;
  joined_at = 10;
}

abbrev pub bob_record : MemberRecord
bob_record = record alice_record { tenant_id = bob }

abbrev pub root_link : Link
root_link = founded_link toy toy-IsSound key 4 5 false

-- The chains after the founding, after alice is admitted, and after she is revoked.
abbrev pub Owned : List Link → Type 0
Owned ls = (out : ReplayOutcome) × IsOwned toy key ls out

pub began : Owned (root_link ∷ [])
began = (_, founded-IsOwned toy toy-IsSound key 4 5 false)

grow :
    (ls : List Link) (o : Owned ls) (b : Body)
    → IsEntry b
    → Owned (ls ++ next_link toy key o.0 b ∷ [])
grow ls o b e = let (new, own, _, _) = extend-IsOwned toy toy-IsSound key ls o.1 b e in (new, own)

abbrev pub admit_link : Link
admit_link = next_link toy key began.0 (admit alice_record none)

pub admitted : Owned (root_link ∷ admit_link ∷ [])
admitted = grow (root_link ∷ []) began (admit alice_record none) tt

abbrev pub revoke_link : Link
revoke_link = next_link toy key admitted.0 (revoke alice 20 none)

pub revoked : Owned (root_link ∷ admit_link ∷ revoke_link ∷ [])
revoked = grow (root_link ∷ admit_link ∷ []) admitted (revoke alice 20 none) tt

abbrev pub are_bytes : Bytes → Bool
are_bytes [] = true
are_bytes (b ∷ bytes) = ltb b 256 && are_bytes bytes

pub are_bytes_sound : (bytes : Bytes) → are_bytes bytes ≡ true → All IsByte bytes
are_bytes_sound [] h = tt
are_bytes_sound (b ∷ bytes) h = elim (Bool-cases (ltb b 256)) [
  | inl e ↦ (ltb→lt b 256 e, are_bytes_sound bytes (rw e at h))
  | inr e ↦ let never : false ≡ true = rw e at h in absurd (cc)
]
