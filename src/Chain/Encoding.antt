-- ===== src/Chain/Encoding.antt =====
-- `Link::canonical` covers every field but the signature: what a skipper signs, and what the next
-- link hashes, can be read in one way only.
use hansa.Prelude.{
  ◌%◌, ◌^◌, ◌<◌, ◌≡◌, refl, sym, ◌∙◌, Option, none, some, List, [], ◌∷◌, ◌++◌, append_assoc,
  append-nil, length, All,
}
use hansa.Prelude.Bytes.{Bytes}
use hansa.Sign.Canonical
use hansa.Sign.Canonical.{to_le_bytes}
use hansa.Sign.Prefix.{prefixed}
use hansa.Member
use hansa.Member.{MemberRecord}
use hansa.Member.Encoding as MemberEncoding
use hansa.Member.Encoding.{IsShort}
use hansa.Genesis
use hansa.Genesis.{Genesis}
use hansa.Genesis.Encoding as GenesisEncoding
use hansa.Chain.{
  Body, genesis, admit, revoke, checkpoint, Link, canonical, write_canonical, write_member_pub,
  write_reason, write_members,
}

abbrev pub IsSizedPub : Option Bytes → Type 0
IsSizedPub none = Unit
IsSizedPub (some pk) = length pk ≡ 32

abbrev pub IsSizedReason : Option Bytes → Type 0
IsSizedReason none = Unit
IsSizedReason (some r) = IsShort r

-- The widths that the Rust types give, and a checkpoint of fewer than 2^32 members.
abbrev pub IsSizedBody : Body → Type 0
IsSizedBody (genesis g) = GenesisEncoding.IsSized g
IsSizedBody (admit m member_pub) = MemberEncoding.IsSized m × IsSizedPub member_pub
IsSizedBody (revoke tid at reason) = (length tid ≡ 16) × (at < 2 ^ 64) × IsSizedReason reason
IsSizedBody (checkpoint ms dim at) =
    All MemberEncoding.IsSized ms × (length ms < 2 ^ 32) × (dim < 2 ^ 32) × (at < 2 ^ 64)

pub record IsSized (l : Link) : Type 0 where
  pub seq : l.seq < 2 ^ 64
  pub prev : length l.prev ≡ 32
  pub body : IsSizedBody l.body
  pub signed_by : length l.signed_by ≡ 32

abbrev pub pub_bytes : Option Bytes → Bytes
pub_bytes none = 0 ∷ []
pub_bytes (some pk) = 1 ∷ pk

abbrev pub reason_bytes : Option Bytes → Bytes
reason_bytes none = 0 ∷ []
reason_bytes (some r) = 1 ∷ prefixed r

abbrev pub members_bytes : List MemberRecord → Bytes
members_bytes [] = []
members_bytes (m ∷ ms) = prefixed (Member.canonical m) ++ members_bytes ms

abbrev pub body_bytes : Body → Bytes
body_bytes (genesis g) = 0 ∷ Genesis.canonical g
body_bytes (admit m member_pub) = 1 ∷ (prefixed (Member.canonical m) ++ pub_bytes member_pub)
body_bytes (revoke tid at reason) = 2 ∷ (tid ++ (to_le_bytes 8 at ++ reason_bytes reason))
body_bytes (checkpoint ms dim at) =
    3
    ∷ (to_le_bytes 4 dim
        ++ (to_le_bytes 8 at ++ (to_le_bytes 4 (length ms % 2 ^ 32) ++ members_bytes ms)))

write_member_pub-parts : (w : Bytes) (p : Option Bytes) → write_member_pub w p ≡ w ++ pub_bytes p
unfolding write_member_pub Canonical.fixed Canonical.u8
write_member_pub-parts w none = refl
write_member_pub-parts w (some pk) = simp append_assoc

write_reason-parts : (w : Bytes) (r : Option Bytes) → write_reason w r ≡ w ++ reason_bytes r
unfolding write_reason Canonical.str Canonical.u8
write_reason-parts w none = refl
write_reason-parts w (some r) = simp append_assoc

write_members-parts :
    (w : Bytes) (ms : List MemberRecord) → write_members w ms ≡ w ++ members_bytes ms
unfolding write_members Canonical.bytes
write_members-parts w [] = sym (append-nil w)
write_members-parts w (m ∷ ms) =
    write_members-parts (Canonical.bytes w (Member.canonical m)) ms ∙ simp append_assoc

write_canonical-parts : (b : Body) (w : Bytes) → write_canonical b w ≡ w ++ body_bytes b
unfolding write_canonical Canonical.u8 Canonical.fixed Canonical.bytes Canonical.u32 Canonical.i64
write_canonical-parts (genesis g) w = simp append_assoc
write_canonical-parts (admit m p) w = simp (write_member_pub-parts, append_assoc)
write_canonical-parts (revoke t at r) w = simp (write_reason-parts, append_assoc)
write_canonical-parts (checkpoint ms d at) w = simp (write_members-parts, append_assoc)

pub canonical-parts :
    (l : Link) → canonical l ≡ to_le_bytes 8 l.seq ++ (l.prev ++ (body_bytes l.body ++ l.signed_by))
unfolding canonical Canonical.new Canonical.u64 Canonical.fixed
canonical-parts l = simp (write_canonical-parts, append_assoc)
