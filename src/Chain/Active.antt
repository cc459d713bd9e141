-- ===== src/Chain/Active.antt =====
-- The active set that `chain::replay` returns, tenant by tenant.
use hansa.Prelude.{◌≡◌, Option, none, List, [], ◌∷◌, arith}
use hansa.Error.{ok}
use hansa.Sign.{Crypto}
use hansa.Chain.{
  genesis, admit, revoke, checkpoint, replay_links, root, Link, Body, ReplayOutcome, Replayer,
  replay, finish,
}
use hansa.Chain.Table.{
  decided, verdict, IsTable, find_member, settle, standing, apply_body-IsTable, apply_body-verdict,
  find-sort_by, insert_members-IsTable, lookup-insert_members,
}
use hansa.Prelude.Bytes.{Bytes}
use hansa.Prelude.Assoc.{lookup}
use hansa.Chain.Steps.{replay-inv, replay_links-inv, root-genesis-inv, root-checkpoint-inv}

module _ (c : Crypto) where
  replay_links-IsTable :
      (tid : Bytes) (s : Replayer) (ls : List Link) {t : Replayer}
      → IsTable s.active
      → replay_links c s ls ≡ ok t
      → IsTable t.active × (lookup tid t.active ≡ settle (decided tid ls) (lookup tid s.active))
  unfolding replay_links decided
  replay_links-IsTable tid s [] table h = ground arith
  replay_links-IsTable tid s (l ∷ ls) {t} table h =
      let (s', st, rest) = replay_links-inv c s l ls h in
      let kept = apply_body-IsTable l.body l.seq s.active table st.active in
      let said = apply_body-verdict tid l.body l.seq s.active st.active in
      let (final, agrees) = replay_links-IsTable tid s' ls kept rest in
      (final, ground (arith, agrees, said))

  root-IsTable :
      (tid : Bytes) (b : Body) (first : Link) (id : Option Bytes) {s : Replayer}
      → root c b first id ≡ ok s
      → IsTable s.active × (lookup tid s.active ≡ settle (verdict tid b) none)
  unfolding root verdict
  root-IsTable tid (genesis g) first id h =
      let (_, _, _, _, e) = root-genesis-inv c g first id h in
      let empty : IsTable [] = record { keyed = tt; distinct = tt } in
      unfold lookup in ground (arith, e, empty)
  root-IsTable tid (checkpoint ms d a) first id h =
      let (_, _, e) = root-checkpoint-inv c ms d a first id h in
      let table = insert_members-IsTable ms [] (record { keyed = tt; distinct = tt }) in
      let found = lookup-insert_members tid ms [] in
      unfold lookup in ground (arith, e, table, found)
  root-IsTable tid (admit x p) first id h = cc
  root-IsTable tid (revoke t a r) first id h = cc

  -- A replay that succeeds returns exactly the tenants that are in standing: of the links that
  -- name a tenant the last one decides, an `Admit` or a checkpoint by its record and a `Revoke` by
  -- its absence, and a tenant that no link names is out.
  pub replay-standing :
      (links : List Link) (id : Option Bytes) {out : ReplayOutcome}
      → replay c links id ≡ ok out
      → (tid : Bytes) → find_member tid out.active ≡ standing tid links
  replay-standing [] id h tid = unfold replay in cc h
  replay-standing (first ∷ links) id {out} h tid =
      let (s, s', rooted, run, e) = replay-inv c first links id h in
      let (table, says) = root-IsTable tid first.body first id rooted in
      let (final, agrees) = replay_links-IsTable tid s links table run in
      unfold decided finish in ground (arith, e, says, agrees, find-sort_by tid s'.active final)

  -- What a successful replay sorts is a table.
  pub replay-IsTable :
      (links : List Link) (id : Option Bytes) {out : ReplayOutcome}
      → replay c links id ≡ ok out
      → (s : Replayer) × (out ≡ finish s) × IsTable s.active
  replay-IsTable [] id h = unfold replay in absurd (cc h)
  replay-IsTable (first ∷ links) id {out} h =
      let (s, s', rooted, run, e) = replay-inv c first links id h in
      let start = root-IsTable [] first.body first id rooted in
      (s', e, (replay_links-IsTable [] s links start.0 run).0)
