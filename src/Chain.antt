-- ===== src/Chain.antt =====
-- crates/hansa/src/chain.rs: the signed, hash-chained members log and its replay.
pub mod Encoding
pub mod Unambiguous
pub mod Steps
pub mod Founded
pub mod Collapse
pub mod Extend
pub mod Authority
pub mod History
pub mod Table
pub mod Active
pub mod Order
use hansa.Prelude.{
  ℕ, ◌+◌, ◌%◌, ◌^◌, Bool, ◌&&◌, Option, none, some, List, [], ◌∷◌, ◌++◌, length, ◌==◌,
}
use hansa.Prelude.Bytes.{Bytes, eq_bytes, lt_bytes}
use hansa.Prelude.Assoc.{Assoc, insert, remove, values}
use hansa.Prelude.Sort.{sort_by}
use hansa.Error.{
  Result, ok, err, guard, map_err, chain_broken, id_mismatch, unauthorized, ◌>>=◌, ◌>>◌,
}
use hansa.Sign.{Crypto, public, sign, verify, from_skipper, domain_link}
use hansa.Sign.Canonical.{Writer, new, u8, u32, u64, i64, fixed, bytes, str}
use hansa.Member
use hansa.Member.{MemberRecord}
use hansa.Genesis
use hansa.Genesis.{Genesis, verify_genesis, verify_for}

pub data Body : Type 0 where
  genesis : Genesis → Body
  admit : MemberRecord → Option Bytes → Body
  revoke : Bytes → ℕ → Option Bytes → Body
  checkpoint : List MemberRecord → ℕ → ℕ → Body

pub record Link : Type 0 where
  pub seq : ℕ
  pub prev : Bytes
  pub body : Body
  pub signed_by : Bytes
  pub sig : Bytes

-- `[0u8; 32]`
abbrev pub zero_hash : Bytes
zero_hash =
    0 ∷ 0 ∷ 0 ∷ 0 ∷ 0 ∷ 0 ∷ 0 ∷ 0 ∷ 0 ∷ 0 ∷ 0 ∷ 0 ∷ 0 ∷ 0 ∷ 0 ∷ 0 ∷ 0 ∷ 0 ∷ 0 ∷ 0 ∷ 0 ∷ 0 ∷ 0 ∷ 0
    ∷ 0 ∷ 0 ∷ 0 ∷ 0 ∷ 0 ∷ 0 ∷ 0 ∷ 0 ∷ []

unfoldable pub write_member_pub : Writer → Option Bytes → Writer
write_member_pub w none = u8 w 0
write_member_pub w (some pk) = fixed (u8 w 1) pk

unfoldable pub write_reason : Writer → Option Bytes → Writer
write_reason w none = u8 w 0
write_reason w (some r) = str (u8 w 1) r

unfoldable pub write_members : Writer → List MemberRecord → Writer
write_members w [] = w
write_members w (m ∷ ms) = write_members (bytes w (Member.canonical m)) ms

unfoldable pub write_canonical : Body → Writer → Writer
unfolding write_member_pub write_reason write_members
write_canonical (genesis g) w = fixed (u8 w 0) (Genesis.canonical g)
write_canonical (admit member member_pub) w =
    write_member_pub (bytes (u8 w 1) (Member.canonical member)) member_pub
write_canonical (revoke tenant_id at reason) w =
    write_reason (i64 (fixed (u8 w 2) tenant_id) at) reason
write_canonical (checkpoint members embedding_dim at) w =
    write_members (u32 (i64 (u32 (u8 w 3) embedding_dim) at) (length members % 2 ^ 32)) members

-- Everything but the signature.
unfoldable pub canonical : Link → Bytes
unfolding write_canonical
canonical l = fixed (write_canonical l.body (fixed (u64 new l.seq) l.prev)) l.signed_by

-- `u64` addition as a release build does it.
abbrev pub next_seq : ℕ → ℕ
next_seq seq = (seq + 1) % 2 ^ 64

module _ (c : Crypto) where
  unfoldable pub hash : Link → Bytes
  hash l = c.blake3 (canonical l)

  -- `Link::genesis`
  unfoldable pub genesis_link : Genesis → Bytes → Link
  genesis_link g sig = record {
    seq = 0;
    prev = zero_hash;
    body = genesis g;
    signed_by = g.skipper_pub;
    sig = sig;
  }

  -- `Link::signed`
  unfoldable pub signed : Bytes → ℕ → Bytes → Body → Link
  signed skipper seq prev body =
      let link : Link = record {
        seq = seq;
        prev = prev;
        body = body;
        signed_by = public c skipper;
        sig = zero_hash ++ zero_hash;
      } in
      record link { sig = sign c skipper domain_link (canonical link) }

-- The variables of the loop in `replay`.
pub record Replayer : Type 0 where
  pub skipper : Bytes
  pub embedding_dim : ℕ
  pub active : Assoc MemberRecord
  pub prev_seq : ℕ
  pub prev_hash : Bytes

pub record ReplayOutcome : Type 0 where
  pub skipper : Bytes
  pub embedding_dim : ℕ
  pub active : List MemberRecord
  pub head_seq : ℕ
  pub head_hash : Bytes

unfoldable pub insert_members : List MemberRecord → Assoc MemberRecord → Assoc MemberRecord
insert_members [] m = m
insert_members (x ∷ xs) m = insert_members xs (insert x.tenant_id x m)

-- The comparator of the final sort.
unfoldable pub before_member : MemberRecord → MemberRecord → Bool
before_member a b = lt_bytes a.tenant_id b.tenant_id

unfoldable pub apply_body : Body → ℕ → Assoc MemberRecord → Result (Assoc MemberRecord)
apply_body (genesis g) seq active = err (chain_broken seq)
apply_body (checkpoint members dim at) seq active = err (chain_broken seq)
apply_body (admit member member_pub) seq active = ok (insert member.tenant_id member active)
apply_body (revoke tenant_id at reason) seq active = ok (remove tenant_id active)

unfoldable pub finish : Replayer → ReplayOutcome
unfolding before_member
finish s = record {
  skipper = s.skipper;
  embedding_dim = s.embedding_dim;
  active = sort_by before_member (values s.active);
  head_seq = s.prev_seq;
  head_hash = s.prev_hash;
}

module _ (c : Crypto) where
  unfoldable pub verify_root : Genesis → Option Bytes → Bytes → Result (Unit {0})
  verify_root g (some id) sig = verify_for c g id sig
  verify_root g none sig = verify_genesis c g sig

  unfoldable pub check_pin : Option Bytes → Bytes → Result (Unit {0})
  check_pin none signed_by = ok tt
  check_pin (some id) signed_by = guard (eq_bytes (from_skipper c signed_by) id) id_mismatch

  unfoldable pub verify_link : Link → Result (Unit {0})
  verify_link l =
      map_err (chain_broken l.seq) (verify c l.signed_by domain_link (canonical l) l.sig)

  -- The match on the first link's body.
  unfoldable pub root : Body → Link → Option Bytes → Result Replayer
  unfolding verify_root check_pin verify_link insert_members
  root (genesis g) first expected_id = do
    guard
        (first.seq == 0 && eq_bytes first.prev zero_hash && eq_bytes first.signed_by g.skipper_pub)
        (chain_broken 0)
    verify_root g expected_id first.sig
    ok (record {
      skipper = g.skipper_pub;
      embedding_dim = g.embedding_dim;
      active = [];
      prev_seq = 0;
      prev_hash = hash c first;
    })
  root (checkpoint members dim at) first expected_id = do
    check_pin expected_id first.signed_by
    verify_link first
    ok (record {
      skipper = first.signed_by;
      embedding_dim = dim;
      active = insert_members members [];
      prev_seq = first.seq;
      prev_hash = hash c first;
    })
  root (admit member member_pub) first expected_id = err (chain_broken 0)
  root (revoke tenant_id at reason) first expected_id = err (chain_broken 0)

  -- One round of the loop over the later links.
  unfoldable pub step : Replayer → Link → Result Replayer
  unfolding verify_link apply_body
  step s l = do
    guard (l.seq == next_seq s.prev_seq && eq_bytes l.prev s.prev_hash) (chain_broken l.seq)
    guard (eq_bytes l.signed_by s.skipper) unauthorized
    verify_link l
    active ← apply_body l.body l.seq s.active
    ok (record s { active = active; prev_hash = hash c l; prev_seq = l.seq })

  unfoldable pub replay_links : Replayer → List Link → Result Replayer
  replay_links s [] = ok s
  replay_links s (l ∷ ls) = step s l >>= λ s'. replay_links s' ls

  unfoldable pub replay : List Link → Option Bytes → Result ReplayOutcome
  replay [] expected_id = err (chain_broken 0)
  replay (first ∷ links) expected_id = do
    s ← root first.body first expected_id
    s' ← replay_links s links
    ok (finish s')
