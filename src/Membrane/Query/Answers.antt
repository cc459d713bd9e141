-- ===== src/Membrane/Query/Answers.antt =====
-- `execute_with_stats` as a whole: its bounds, its counts and where its hits come from.
use hansa.Prelude.{
  ℕ, zero, suc, ◌+◌, ◌-◌, min, ◌≤◌, ◌≡◌, refl, inl, inr, some, List, [], ◌∷◌, ◌++◌, map, arith,
  Bool-cases, length, get_elem?, All, All-append, length-take, All-take,
}
use hansa.Prelude.Sort.{sort_by}
use hansa.Floats.{Floats}
use hansa.Error.{ok}
use hansa.Panics.{Returns-some}
use hansa.Member.{MemberRecord}
use hansa.Membrane.Scoring.{score_peers}
use hansa.Manifest.{ManifestStore}
use hansa.Membrane.Allocation.{proportional_allocation, default_max_peers}
use hansa.Membrane.Query.Sources.{
  receive-bounds, All-receive, HasSource, local-HasSource, batches-HasSource,
}
use hansa.Membrane.Query.{
  Event, batch, Hit, MembraneHit, MembraneQuery, MembraneStats, local, accept_all, from_hit,
  receive, ask_peers, none_asked, answer, before_score, before_hit, work, or_nothing, fan_out,
  execute_with_stats, truncate_to_budget,
}
use hansa.Membrane.Query.Results.{
  All-sort_by, length-allocation, All-allocation, IsPeerOf, IsScorable, Returns-score_peers,
}

module _ (f : Floats) where
  open f use {F32}

  -- The answer to a query: within the total budget, at most eight peers asked, each counted as
  -- completed or as dropped, and every hit with a source.
  pub record IsAnswer (q : MembraneQuery f) (mine : List (Hit f)) (hits : List (MembraneHit f))
      (stats : MembraneStats) : Type 0 where
    pub within : length hits ≤ q.budget.max_total_records
    pub few_peers : stats.peers_attempted ≤ default_max_peers
    pub counted : stats.peers_completed + stats.dropped_for_deadline ≡ stats.peers_attempted
    pub sources : All (HasSource f q mine) hits

  ask_peers-IsAnswer :
      (q : MembraneQuery f) (events : List Event) (store : ManifestStore) (mine : List (Hit f))
      (peers : List (MemberRecord × F32))
      → All (λ (e : MemberRecord × F32). IsPeerOf f q.local_tenant_id e.0) peers
      → let r = ask_peers f q events store (map (from_hit f local) mine) peers in
        IsAnswer q mine r.0.0 r.0.1
  unfolding ask_peers truncate_to_budget
  ask_peers-IsAnswer q events store mine peers others =
      let scored = sort_by (before_score f) peers in
      let allocation =
        proportional_allocation f scored q.budget.max_remote_records 1 default_max_peers in
      let batches = map (work f q.peer_opener q.embedding) allocation in
      let received = receive f (length allocation) events batches (0, []) in
      let own = map (from_hit f local) mine in
      let asked =
        All-allocation f (IsPeerOf f q.local_tenant_id) scored q.budget.max_remote_records 1
          default_max_peers
          (All-sort_by (λ e. IsPeerOf f q.local_tenant_id e.0) (before_score f) peers others) in
      let all = All-append (HasSource f q mine) own received.1 (local-HasSource f q mine) (
        All-receive f (HasSource f q mine) (length allocation) events batches 0 []
          (batches-HasSource f q mine allocation asked) tt) in
      record {
        within = omega (
          arith,
          length-take q.budget.max_total_records (sort_by (before_hit f) (own ++ received.1)),
        );
        few_peers = length-allocation f scored q.budget.max_remote_records 1 default_max_peers;
        counted = omega (arith, receive-bounds f (length allocation) events batches 0 []);
        sources =
            All-take (HasSource f q mine) q.budget.max_total_records _
              (All-sort_by (HasSource f q mine) (before_hit f) (own ++ received.1) all);
      }

  -- The scores of the peers, where no scored saga has a centroid shorter than the query.
  peers_of :
      (q : MembraneQuery f) (now : ℕ) (store : ManifestStore)
      → All (IsScorable f q.local_tenant_id q.embedding) q.sagas
      → (peers : List (MemberRecord × F32)) × (score_peers f q.local_tenant_id q.embedding
            q.min_similarity store now q.sagas
          ≡ some peers)
        × All (λ (e : MemberRecord × F32). IsPeerOf f q.local_tenant_id e.0) peers
  peers_of q now store scorable =
      Returns-some (All (λ (e : MemberRecord × F32). IsPeerOf f q.local_tenant_id e.0)) _ (
        Returns-score_peers f q.local_tenant_id q.embedding q.min_similarity store now q.sagas
          scorable)

  -- When the local tenant answers, and no saga that is scored has a centroid shorter than the query,
  -- the query answers without a panic, whatever the peers do and whenever the deadline strikes: at most
  -- `max_total_records` hits, at most eight peers asked and each of them counted as completed or as
  -- dropped. Every hit is one that the local tenant answered, with the local origin, or one that a
  -- peer that is not the caller answered to the same embedding, asked for shareable records only,
  -- with the origin of the view that was opened for the peer.
  pub execute_with_stats-IsAnswer :
      (q : MembraneQuery f) (now : ℕ) (events : List Event) (store : ManifestStore)
      (mine : List (Hit f))
      → q.local_tenant q.embedding q.top_k accept_all ≡ ok mine
      → All (IsScorable f q.local_tenant_id q.embedding) q.sagas
      → (r : (List (MembraneHit f) × MembraneStats) × ManifestStore) × (execute_with_stats f q now
            events store
          ≡ some (ok r))
        × IsAnswer q mine r.0.0 r.0.1
  unfolding execute_with_stats answer fan_out truncate_to_budget
  execute_with_stats-IsAnswer q now events store mine answered scorable =
      let own = map (from_hit f local) mine in
      let (peers, scored, others) = peers_of q now store scorable in
      elim (Bool-cases q.local_only) [
        | inl only ↦ (
          ((truncate_to_budget f own q.budget.max_total_records, none_asked f), store),
          rw (answered, only) refl,
          record {
            within = omega (arith, length-take q.budget.max_total_records own);
            few_peers = omega arith;
            counted = omega arith;
            sources =
                All-take (HasSource f q mine) q.budget.max_total_records _
                  (local-HasSource f q mine);
          },
        )
        | inr wide ↦ (
          ask_peers f q events store own peers,
          simp (answered, wide, scored) refl,
          ask_peers-IsAnswer q events store mine peers others,
        )
      ]

  receive-waits :
      (n : ℕ) (order : List ℕ) (batches : List (List (MembraneHit f))) (c : ℕ)
      (hits : List (MembraneHit f))
      → (receive f n (map batch order) batches (c, hits)).0 ≡ c + min n (length order)
  unfolding receive
  receive-waits zero order batches c hits = omega arith
  receive-waits (suc n) [] batches c hits = omega arith
  receive-waits (suc n) (i ∷ order) batches c hits =
      omega
        (arith, receive-waits n order batches (c + 1) (hits ++ or_nothing f (get_elem? batches i)))

  -- Where no saga that is scored has a centroid shorter than the query, the workers report in any order
  -- and the deadline does not strike before as many reports, the fan-out does not panic, and the peers
  -- that are dropped are those beyond the number of reports: none, if as many report as were asked.
  pub fan_out_drops_none :
      (q : MembraneQuery f) (now : ℕ) (order : List ℕ) (store : ManifestStore)
      (mine : List (MembraneHit f))
      → All (IsScorable f q.local_tenant_id q.embedding) q.sagas
      → (r : (List (MembraneHit f) × MembraneStats) × ManifestStore) × (fan_out f q now
            (map batch order)
            store
            mine
          ≡ some r)
        × (r.0.1.dropped_for_deadline ≡ r.0.1.peers_attempted - length order)
  unfolding fan_out ask_peers
  fan_out_drops_none q now order store mine scorable =
      let (peers, scored, others) = peers_of q now store scorable in
      let allocation =
        proportional_allocation f (sort_by (before_score f) peers) q.budget.max_remote_records 1
          default_max_peers in
      let batches = map (work f q.peer_opener q.embedding) allocation in
      (
        ask_peers f q (map batch order) store mine peers,
        rw scored refl,
        omega (arith, receive-waits (length allocation) order batches 0 []),
      )
