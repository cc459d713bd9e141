-- ===== src/Registry/File.antt =====
-- `FileRegistry` of crates/hansa/src/registry.rs: one log for each hansa id. A log file is the list
-- of its links (one JSON line each, by serde); a missing file is the empty list. The I/O itself is
-- taken to succeed, and the advisory lock makes each operation one step.
use hansa.Prelude.{
  ℕ, ◌+◌, Bool, true, false, Option, none, some, List, [], ◌∷◌, ◌++◌, ltb, leb, if◌then◌else◌,
  length,
}
use hansa.Prelude.Bytes.{Bytes}
use hansa.Prelude.Assoc.{Assoc, lookup, insert}
use hansa.Exec.{Exec, pure, lift, ◌>>=◌, ◌>>◌}
use hansa.Sign.{Crypto}
use hansa.Member.{MemberRecord}
use hansa.Genesis
use hansa.Chain.{Body, checkpoint, Link, genesis_link, signed, next_seq, replay}
use hansa.Registry.{Registry}
use hansa.Error.{ok}

abbrev pub checkpoint_after_links : ℕ
checkpoint_after_links = 256

abbrev pub FileRegistry : Type 0
FileRegistry = Assoc (List Link)

abbrev pub or_empty : Option (List Link) → List Link
or_empty none = []
or_empty (some links) = links

-- The contents of a hansa's `members.log`.
abbrev pub log_of : Bytes → FileRegistry → List Link
log_of hansa reg = or_empty (lookup hansa reg)

abbrev pub is_empty : List Link → Bool
is_empty [] = true
is_empty (l ∷ ls) = false

unfoldable pub read_chain : Bytes → Exec FileRegistry (List Link)
read_chain hansa reg = (ok (log_of hansa reg), reg)

unfoldable pub append_link : Bytes → Link → Exec FileRegistry (Unit {0})
append_link hansa link reg = (ok tt, insert hansa (log_of hansa reg ++ link ∷ []) reg)

-- The whole log, replaced.
unfoldable pub write_chain_atomic : Bytes → List Link → Exec FileRegistry (Unit {0})
write_chain_atomic hansa links reg = (ok tt, insert hansa links reg)

module _ (c : Crypto) where
  unfoldable pub checkpoint_locked : Bytes → Bytes → ℕ → Exec FileRegistry (Unit {0})
  unfolding read_chain write_chain_atomic
  checkpoint_locked hansa skipper now = do
    chain ← read_chain hansa
    if leb (length chain) 1 then pure tt else do
      out ← lift (replay c chain none)
      write_chain_atomic hansa (
          signed c skipper (next_seq out.head_seq) out.head_hash
            (checkpoint out.active out.embedding_dim now)
          ∷ [])

  unfoldable pub found : Bytes → Bytes → ℕ → ℕ → Exec FileRegistry (Unit {0})
  unfolding read_chain append_link
  found hansa skipper embedding_dim created_at = do
    chain ← read_chain hansa
    if is_empty chain
        then (let (g, sig) = Genesis.found c skipper embedding_dim created_at false in
            append_link hansa (genesis_link c g sig))
        else pure tt

  unfoldable pub append_next : Bytes → Bytes → Body → ℕ → Exec FileRegistry (Unit {0})
  unfolding read_chain append_link checkpoint_locked
  append_next hansa skipper body now = do
    chain ← read_chain hansa
    head ← lift (replay c chain none)
    append_link hansa (signed c skipper (next_seq head.head_seq) head.head_hash body)
    if ltb checkpoint_after_links (length chain + 1)
        then checkpoint_locked hansa skipper now
        else pure tt

  unfoldable pub compact : Bytes → Bytes → ℕ → Exec FileRegistry (Unit {0})
  unfolding checkpoint_locked
  compact hansa skipper now = checkpoint_locked hansa skipper now

  -- `members`, the trait's default method.
  unfoldable pub members : Bytes → Exec FileRegistry (List MemberRecord)
  unfolding read_chain
  members hansa = do
    chain ← read_chain hansa
    if is_empty chain then pure [] else do out ← lift (replay c chain none); pure out.active

  abbrev pub file_registry : Registry FileRegistry
  file_registry = record {
    append_link = append_link;
    read_chain = read_chain;
    found = found;
    append_next = append_next;
    compact = compact;
    members = members;
  }
