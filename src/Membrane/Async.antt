-- ===== src/Membrane/Async.antt =====
-- crates/hansa/src/membrane/async_query.rs: the query with one task per peer. The handles are awaited in the
-- order of the allocation, so what the deadline leaves is a schedule: how each handle ends that is
-- awaited before it. An asynchronous view answers as its functions do.
pub mod InOrder
use hansa.Prelude.{
  ℕ, zero, suc, ◌+◌, ◌-◌, ◌*◌, ◌/◌, ◌%◌, ◌^◌, ◌≤◌, ◌<◌, min, max, ◌≡◌, refl, sym, ap, ap₂, ◌∙◌,
  subst, ◌≢◌, ◌↔◌, ◌⊎◌, inl, inr, Bool, true, false, not, ◌&&◌, ◌||◌, Option, none, some, List, [],
  ◌∷◌, ◌++◌, map, append_assoc, append-nil, arith, ltb, leb, ◌==◌, if◌then◌else◌, ltb→lt, lt→ltb,
  leb→le, le→leb, ==_iff, Bool-cases, Option-cases, if_both, length, get_elem?, take, drop, modify,
  length-append, All, All-append, length-take, length-drop, length-map, length-modify,
  take-append-drop, take-append, drop-append, All-take,
}
use hansa.Prelude.Bytes.{Bytes, IsByte, eq_bytes, eq_bytes_iff, eq_bytes_refl, lt_bytes}
use hansa.Prelude.Sort.{sort_by}
use hansa.Floats.{Floats}
use hansa.Error.{Result, ok, err, ◌>>=◌}
use hansa.Member.{MemberRecord}
use hansa.Manifest.{ManifestStore}
use hansa.Membrane.Allocation.{PeerAllocation, proportional_allocation, default_max_peers}
use hansa.Panics.{returning}
use hansa.Membrane.Scoring.{score_peers}
use hansa.Membrane.Query.{
  HitOrigin, local, remote, MembraneStats, MembraneHit, MembraneQuery, PeerOpener, from_hit,
  accept_all, shareable_only, truncate_to_budget, Hit, before_score, before_hit, hit_count,
  bump_each,
}

-- How a task ends that is awaited before the deadline.
pub data Awaited : Type 0 where
  finished panicked : Awaited

module _ (f : Floats) where
  unfoldable pub open_and_query_async :
      PeerOpener f → List f.F32 → MemberRecord → ℕ → Result (List (MembraneHit f))
  unfolding from_hit shareable_only
  open_and_query_async opener embedding member budget = do
    view ← opener member.tenant_id member.tenant_location
    hits ← view.query_filtered embedding budget shareable_only
    let tenant_id = view.tenant_id
    ok (map (from_hit f (remote tenant_id)) hits)

  -- The body of a task: an unavailable peer has no hits.
  abbrev hits_or_none : Result (List (MembraneHit f)) → List (MembraneHit f)
  hits_or_none (ok hits) = hits
  hits_or_none (err e) = []

  unfoldable pub task : PeerOpener f → List f.F32 → PeerAllocation → List (MembraneHit f)
  unfolding open_and_query_async
  task opener embedding alloc =
      hits_or_none (open_and_query_async opener embedding alloc.member alloc.budget)

  -- The loop over the handles; where the schedule ends the deadline has struck.
  unfoldable pub collect :
      List (List (MembraneHit f))
      → List Awaited
      → ℕ × List (MembraneHit f)
      → ℕ × List (MembraneHit f)
  collect [] awaited found = found
  collect (hits ∷ handles) [] found = found
  collect (hits ∷ handles) (finished ∷ awaited) (completed, remote_hits) =
      collect handles awaited (completed + 1, remote_hits ++ hits)
  collect (hits ∷ handles) (panicked ∷ awaited) found = collect handles awaited found

  -- Steps 3 to 7, on the peers that are left, with their scores.
  unfoldable pub ask_peers_async :
      MembraneQuery f
      → List Awaited
      → ManifestStore
      → List (MembraneHit f)
      → List (MemberRecord × f.F32)
      → (List (MembraneHit f) × MembraneStats) × ManifestStore
  unfolding before_score proportional_allocation task collect hit_count bump_each before_hit
      truncate_to_budget
  ask_peers_async q awaited store local_hits peers =
      let allocation =
        proportional_allocation f (sort_by (before_score f) peers) q.budget.max_remote_records 1
          default_max_peers in
      let handles = map (task q.peer_opener q.embedding) allocation in
      let (completed, remote_hits) = collect handles awaited (0, []) in
      let stats : MembraneStats = record {
        peers_attempted = length allocation;
        peers_completed = completed;
        dropped_for_deadline = length allocation - completed;
      } in
      let all = sort_by (before_hit f) (local_hits ++ remote_hits) in
      (
        (truncate_to_budget f all q.budget.max_total_records, stats),
        bump_each f (hit_count f remote_hits []) store,
      )

  -- Steps 2 to 7, on the local hits.
  unfoldable pub fan_out_async :
      MembraneQuery f
      → ℕ
      → List Awaited
      → ManifestStore
      → List (MembraneHit f)
      → Option ((List (MembraneHit f) × MembraneStats) × ManifestStore)
  unfolding score_peers ask_peers_async
  fan_out_async q now awaited store local_hits =
      returning (ask_peers_async q awaited store local_hits)
        (score_peers f q.local_tenant_id q.embedding q.min_similarity store now q.sagas)

  -- What follows the local query and its `?`.
  unfoldable pub answer_async :
      MembraneQuery f
      → ℕ
      → List Awaited
      → ManifestStore
      → Result (List (Hit f))
      → Option (Result ((List (MembraneHit f) × MembraneStats) × ManifestStore))
  unfolding from_hit truncate_to_budget fan_out_async
  answer_async q now awaited store (err e) = some (err e)
  answer_async q now awaited store (ok hits) =
      let local_hits = map (from_hit f local) hits in
      let none_asked : MembraneStats = record {
        peers_attempted = 0;
        peers_completed = 0;
        dropped_for_deadline = 0;
      } in
      if q.local_only
      then some
          (ok ((truncate_to_budget f local_hits q.budget.max_total_records, none_asked), store))
      else returning ok (fan_out_async q now awaited store local_hits)

  unfoldable pub execute_async :
      MembraneQuery f
      → ℕ
      → List Awaited
      → ManifestStore
      → Option (Result ((List (MembraneHit f) × MembraneStats) × ManifestStore))
  unfolding accept_all answer_async
  execute_async q now awaited store =
      answer_async q now awaited store (q.local_tenant q.embedding q.top_k accept_all)
