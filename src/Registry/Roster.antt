-- ===== src/Registry/Roster.antt =====
-- What a skipper's registry promises: a roster, from tenant ids to member records, whatever the log
-- behind it looks like.
use hansa.Chain.Founded.{founded, founded_link, founded-IsOwned}
use hansa.Chain.Steps.{from_genesis}
use hansa.Prelude.Sort.{sort_by}
use hansa.Prelude.{
  ℕ, ◌≡◌, refl, ◌∙◌, false, Option, none, some, List, [], ◌∷◌, arith, if◌then◌else◌,
}
use hansa.Prelude.Bytes.{Bytes, eq_bytes}
use hansa.Error.{ok}
use hansa.Exec.{Exec, pure, ◌>>=◌, ◌>>◌}
use hansa.Sign.{Crypto, IsSound}
use hansa.Member.{MemberRecord}
use hansa.Genesis
use hansa.Genesis.{Genesis, verify_genesis, verify_for}
use hansa.Chain.{Body, Link, ReplayOutcome, replay, finish}
use hansa.Chain.Table.{verdict, find_member}
use hansa.Chain.Order.{IsAscending, replay-IsAscending}
use hansa.Chain.Collapse.{id_of, replay-unpin}
use hansa.Registry.File.{
  FileRegistry, log_of, is_empty, append_link, found, append_next, compact, members,
}
use hansa.Registry.Owned.{
  Continues, log_of-insert_self, checkpoint_locked-Continues, append_next-Continues,
}
use hansa.Prelude.Assoc.{insert}

-- The changes that a skipper makes, each with the time at which it is made.
pub data Change : Type 0 where
  admit : MemberRecord → Option Bytes → ℕ → Change
  revoke : Bytes → ℕ → Option Bytes → ℕ → Change
  collapse : ℕ → Change

module _ (c : Crypto) (hansa seed : Bytes) where
  unfoldable pub change : Change → Exec FileRegistry (Unit {0})
  change (admit m member_pub now) = append_next c hansa seed (Body.admit m member_pub) now
  change (revoke tid at reason now) = append_next c hansa seed (Body.revoke tid at reason) now
  change (collapse now) = compact c hansa seed now

  unfoldable pub change_all : List Change → Exec FileRegistry (Unit {0})
  unfolding change
  change_all [] = pure tt
  change_all (x ∷ xs) = change x >>= λ _. change_all xs

-- The abstract component: a partial function.
abbrev pub Roster : Type 0
Roster = Bytes → Option MemberRecord

unfoldable pub update : Change → Roster → Roster
update (admit m member_pub now) r = λ tid. if eq_bytes m.tenant_id tid then some m else r tid
update (revoke t at reason now) r = λ tid. if eq_bytes t tid then none else r tid
update (collapse now) r = r

unfoldable pub update_all : List Change → Roster → Roster
unfolding update
update_all [] r = r
update_all (x ∷ xs) r = update_all xs (update x r)

module _ (c : Crypto) (sound : IsSound c) (hansa seed : Bytes) where
  change-Continues :
      (x : Change) (reg : FileRegistry) (dim : ℕ) (r : Roster)
      → Continues c hansa seed reg dim r
      → ((change c hansa seed x reg).0 ≡ ok tt)
        × Continues c hansa seed (change c hansa seed x reg).1 dim (update x r)
  unfolding change update compact
  change-Continues (admit m p now) reg dim r k =
      let (done, k') =
        append_next-Continues c hansa seed sound (Body.admit m p) now reg tt k.owned in
      (
        done,
        record {
          out = k'.out;
          owned = k'.owned;
          same_dim = k'.same_dim ∙ k.same_dim;
          finds = λ tid. k'.finds tid ∙ unfold verdict in ground (arith, k.finds tid);
        },
      )
  change-Continues (revoke t at reason now) reg dim r k =
      let (done, k') =
        append_next-Continues c hansa seed sound (Body.revoke t at reason) now reg tt k.owned in
      (
        done,
        record {
          out = k'.out;
          owned = k'.owned;
          same_dim = k'.same_dim ∙ k.same_dim;
          finds = λ tid. k'.finds tid ∙ unfold verdict in ground (arith, k.finds tid);
        },
      )
  change-Continues (collapse now) reg dim r k =
      let (done, k') = checkpoint_locked-Continues c hansa seed sound now reg k.owned in
      (
        done,
        record {
          out = k'.out;
          owned = k'.owned;
          same_dim = k'.same_dim ∙ k.same_dim;
          finds = λ tid. k'.finds tid ∙ k.finds tid;
        },
      )

  change_all-Continues :
      (xs : List Change) (reg : FileRegistry) (dim : ℕ) (r : Roster)
      → Continues c hansa seed reg dim r
      → ((change_all c hansa seed xs reg).0 ≡ ok tt)
        × Continues c hansa seed (change_all c hansa seed xs reg).1 dim (update_all xs r)
  unfolding change_all update_all
  change_all-Continues [] reg dim r k = (refl, k)
  change_all-Continues (x ∷ xs) reg dim r k =
      let (done, k') = change-Continues x reg dim r k in
      rw done (change_all-Continues xs (change c hansa seed x reg).1 dim (update x r) k')

  found-result :
      (dim created : ℕ) (reg : FileRegistry)
      → log_of hansa reg ≡ []
      → found c hansa seed dim created reg
        ≡ (ok tt, insert hansa (founded_link c sound seed dim created false ∷ []) reg)
  unfolding found append_link
  found-result dim created reg e = ground (arith, e)

  found-Continues :
      (dim created : ℕ) (reg : FileRegistry)
      → log_of hansa reg ≡ []
      → ((found c hansa seed dim created reg).0 ≡ ok tt)
        × Continues c hansa seed (found c hansa seed dim created reg).1 dim (λ tid. none)
  found-Continues dim created reg e =
      let l = founded_link c sound seed dim created false in
      rw (found-result dim created reg e) (
        refl,
        record {
          out = finish (from_genesis c (founded c sound seed dim created false) l);
          owned =
              rw (log_of-insert_self hansa (l ∷ []) reg)
                (founded-IsOwned c sound seed dim created false);
          same_dim = unfold finish Genesis.found in refl;
          finds = λ tid. unfold finish sort_by find_member in refl;
        },
      )

  nonempty :
      (ls : List Link) (id : Option Bytes) {out : ReplayOutcome}
      → replay c ls id ≡ ok out
      → is_empty ls ≡ false
  nonempty [] id h = unfold replay in absurd (cc h)
  nonempty (l ∷ ls) id h = refl

  -- The readers' view of an owned log.
  members-Continues :
      (reg : FileRegistry) (dim : ℕ) (r : Roster)
      → Continues c hansa seed reg dim r
      → (ms : List MemberRecord) × (members c hansa reg ≡ (ok ms, reg))
        × IsAscending ms
        × ((tid : Bytes) → find_member tid ms ≡ r tid)
  unfolding members
  members-Continues reg dim r k =
      let links = log_of hansa reg in
      let h = replay-unpin c links (id_of c seed) k.owned.replays in
      (
        k.out.active,
        ground (arith, h, nonempty links none h),
        replay-IsAscending c links none h,
        k.finds,
      )

  -- On an empty log a skipper founds a hansa and makes any changes, with collapses of the log
  -- wherever they fall, under a signature scheme that verifies what it signed:
  -- every operation succeeds, and `members` then returns exactly the roster that the changes make
  -- of the empty one, in ascending order of tenant ids.
  pub registry-refines-roster :
      (dim created : ℕ) (xs : List Change) (reg : FileRegistry)
      → log_of hansa reg ≡ []
      → let done = (found c hansa seed dim created >> change_all c hansa seed xs) reg in
        (done.0 ≡ ok tt)
        × ((ms : List MemberRecord) × (members c hansa done.1 ≡ (ok ms, done.1))
            × IsAscending ms
            × ((tid : Bytes) → find_member tid ms ≡ update_all xs (λ t. none) tid))
  registry-refines-roster dim created xs reg e =
      let (began, k) = found-Continues dim created reg e in
      let start = (found c hansa seed dim created reg).1 in
      let (went, k') = change_all-Continues xs start dim (λ t. none) k in
      rw began (
        went,
        members-Continues (change_all c hansa seed xs start).1 dim (update_all xs (λ t. none)) k',
      )
