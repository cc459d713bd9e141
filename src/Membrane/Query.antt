-- ===== src/Membrane/Query.antt =====
-- crates/hansa/src/membrane/query.rs and budget.rs: one federated query.
-- The tenants are other crates: the local tenant's `query_filtered`, the peer opener and the views it
-- opens are parameters, and a filter is its answer for a record's `shareable` flag. The threads of
-- the fan-out and the deadline are an explicit schedule of what the receiving loop sees. The query panics
-- where the scoring does.
pub mod Results
pub mod Sources
pub mod Answers
use hansa.Prelude.{
  ℕ, zero, suc, ◌+◌, ◌-◌, Bool, true, Option, none, some, List, [], ◌∷◌, ◌++◌, map, if◌then◌else◌,
  length, get_elem?, take,
}
use hansa.Prelude.Bytes.{Bytes}
use hansa.Prelude.Assoc.{Assoc, lookup, insert}
use hansa.Prelude.Sort.{sort_by}
use hansa.Floats.{Floats}
use hansa.Error.{Result, ok, err, ◌>>=◌}
use hansa.Member.{MemberRecord, TenantLocation}
use hansa.Manifest.{ManifestStore, bump_total}
use hansa.Saga.{Saga}
use hansa.Panics.{returning}
use hansa.Membrane.Scoring.{score_peers}
use hansa.Membrane.Allocation.{PeerAllocation, proportional_allocation, default_max_peers}

pub record TokenBudget : Type 0 where
  pub max_remote_records : ℕ
  pub max_total_records : ℕ

-- `TokenBudget::flat`
unfoldable pub flat : ℕ → TokenBudget
flat n = record { max_remote_records = n; max_total_records = n }

-- `TokenBudget::split`
unfoldable pub split : ℕ → ℕ → TokenBudget
split remote total = record { max_remote_records = remote; max_total_records = total }

pub data HitOrigin : Type 0 where
  local : HitOrigin
  remote : Bytes → HitOrigin

pub record MembraneStats : Type 0 where
  pub peers_attempted : ℕ
  pub peers_completed : ℕ
  pub dropped_for_deadline : ℕ

-- What the receiving loop sees next: the batch of the worker at this position of the fan-out, or
-- that the deadline is over. When nothing is left the channel has hung up.
pub data Event : Type 0 where
  batch : ℕ → Event
  expired : Event

-- The filters `AcceptAll` and `ShareableOnly`.
unfoldable pub accept_all : Bool → Bool
accept_all shareable = true

unfoldable pub shareable_only : Bool → Bool
shareable_only shareable = shareable

module _ (f : Floats) where
  open f use {F32, lt}

  -- `skeg_rigging::Hit`
  pub record Hit : Type 0 where
    pub record_id : Bytes
    pub similarity : F32
    pub payload : Bytes
    pub embedding : Option (List F32)

  pub record MembraneHit : Type 0 where
    pub record_id : Bytes
    pub similarity : F32
    pub origin : HitOrigin
    pub payload : Bytes
    pub embedding : Option (List F32)

  -- `QueryFiltered::query_filtered`
  abbrev pub Queries : Type 0
  Queries = List F32 → ℕ → (Bool → Bool) → Result (List Hit)

  -- `ReadOnlyView`
  pub record View : Type 0 where
    pub query_filtered : Queries
    pub tenant_id : Bytes

  abbrev pub PeerOpener : Type 0
  PeerOpener = Bytes → TenantLocation → Result View

  pub record MembraneQuery : Type 0 where
    pub local_tenant : Queries
    pub local_tenant_id : Bytes
    pub peer_opener : PeerOpener
    pub embedding : List F32
    pub members : List MemberRecord
    pub sagas : List (MemberRecord × Saga f)
    pub top_k : ℕ
    pub budget : TokenBudget
    pub min_similarity : F32
    pub local_only : Bool

  unfoldable pub from_hit : HitOrigin → Hit → MembraneHit
  from_hit origin h = record {
    record_id = h.record_id;
    similarity = h.similarity;
    origin = origin;
    payload = h.payload;
    embedding = h.embedding;
  }

  unfoldable pub truncate_to_budget : List MembraneHit → ℕ → List MembraneHit
  truncate_to_budget hits total_cap = take total_cap hits

  unfoldable pub open_and_query :
      PeerOpener → List F32 → MemberRecord → ℕ → Result (List MembraneHit)
  unfolding from_hit shareable_only
  open_and_query opener embedding member budget = do
    view ← opener member.tenant_id member.tenant_location
    hits ← view.query_filtered embedding budget shareable_only
    ok (map (from_hit (remote view.tenant_id)) hits)

  -- A worker: a failing peer sends no hits.
  unfoldable pub or_no_hits : Result (List MembraneHit) → List MembraneHit
  or_no_hits (ok hits) = hits
  or_no_hits (err e) = []

  unfoldable pub work : PeerOpener → List F32 → PeerAllocation → List MembraneHit
  unfolding open_and_query or_no_hits
  work opener embedding alloc =
      or_no_hits (open_and_query opener embedding alloc.member alloc.budget)

  -- The comparators of the two sorts: higher first.
  unfoldable pub before_score : MemberRecord × F32 → MemberRecord × F32 → Bool
  before_score a b = lt b.1 a.1

  unfoldable pub before_hit : MembraneHit → MembraneHit → Bool
  before_hit a b = lt b.similarity a.similarity

  abbrev pub or_nothing : Option (List MembraneHit) → List MembraneHit
  or_nothing none = []
  or_nothing (some hits) = hits

  -- The receiving loop: `for _ in 0..peers_attempted`. The result is `peers_completed` and
  -- `remote_hits`.
  unfoldable pub receive :
      ℕ → List Event → List (List MembraneHit) → ℕ × List MembraneHit → ℕ × List MembraneHit
  receive zero events batches (completed, hits) = (completed, hits)
  receive (suc n) [] batches (completed, hits) = (completed, hits)
  receive (suc n) (expired ∷ events) batches (completed, hits) = (completed, hits)
  receive (suc n) (batch i ∷ events) batches (completed, hits) =
      receive n events batches (completed + 1, hits ++ or_nothing (get_elem? batches i))

  -- Step 5: the remote hits counted by peer, and the counts written.
  abbrev pub or_zero : Option ℕ → ℕ
  or_zero none = 0
  or_zero (some n) = n

  unfoldable pub count_origin : HitOrigin → Assoc ℕ → Assoc ℕ
  count_origin local counts = counts
  count_origin (remote tenant_id) counts =
      insert tenant_id (or_zero (lookup tenant_id counts) + 1) counts

  unfoldable pub hit_count : List MembraneHit → Assoc ℕ → Assoc ℕ
  unfolding count_origin
  hit_count [] counts = counts
  hit_count (h ∷ hits) counts = hit_count hits (count_origin h.origin counts)

  unfoldable pub bump_each : Assoc ℕ → ManifestStore → ManifestStore
  bump_each [] store = store
  bump_each ((peer, count) ∷ counts) store = bump_each counts (bump_total peer count store)

  -- Steps 3 to 6, on the peers that are left, with their scores.
  unfoldable pub ask_peers :
      MembraneQuery
      → List Event
      → ManifestStore
      → List MembraneHit
      → List (MemberRecord × F32)
      → (List MembraneHit × MembraneStats) × ManifestStore
  unfolding before_score proportional_allocation work receive hit_count bump_each before_hit
      truncate_to_budget
  ask_peers q events store local_hits peers =
      let allocation =
        proportional_allocation f (sort_by before_score peers) q.budget.max_remote_records 1
          default_max_peers in
      let batches = map (work q.peer_opener q.embedding) allocation in
      let (completed, remote_hits) = receive (length allocation) events batches (0, []) in
      let stats : MembraneStats = record {
        peers_attempted = length allocation;
        peers_completed = completed;
        dropped_for_deadline = length allocation - completed;
      } in
      let all = sort_by before_hit (local_hits ++ remote_hits) in
      (
        (truncate_to_budget all q.budget.max_total_records, stats),
        bump_each (hit_count remote_hits []) store,
      )

  -- Steps 2 to 6, on the local hits.
  unfoldable pub fan_out :
      MembraneQuery
      → ℕ
      → List Event
      → ManifestStore
      → List MembraneHit
      → Option ((List MembraneHit × MembraneStats) × ManifestStore)
  unfolding score_peers ask_peers
  fan_out q now events store local_hits =
      returning (ask_peers q events store local_hits)
        (score_peers f q.local_tenant_id q.embedding q.min_similarity store now q.sagas)

  abbrev pub none_asked : MembraneStats
  none_asked = record { peers_attempted = 0; peers_completed = 0; dropped_for_deadline = 0 }

  -- What follows the local query and its `?`.
  unfoldable pub answer :
      MembraneQuery
      → ℕ
      → List Event
      → ManifestStore
      → Result (List Hit)
      → Option (Result ((List MembraneHit × MembraneStats) × ManifestStore))
  unfolding from_hit truncate_to_budget fan_out
  answer q now events store (err e) = some (err e)
  answer q now events store (ok hits) =
      let local_hits = map (from_hit local) hits in
      if q.local_only
      then some (ok ((truncate_to_budget local_hits q.budget.max_total_records, none_asked), store))
      else returning ok (fan_out q now events store local_hits)

  unfoldable pub execute_with_stats :
      MembraneQuery
      → ℕ
      → List Event
      → ManifestStore
      → Option (Result ((List MembraneHit × MembraneStats) × ManifestStore))
  unfolding accept_all answer
  execute_with_stats q now events store =
      answer q now events store (q.local_tenant q.embedding q.top_k accept_all)
