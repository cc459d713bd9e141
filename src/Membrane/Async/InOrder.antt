-- ===== src/Membrane/Async/InOrder.antt =====
-- The asynchronous query is the synchronous one whose workers report in the order of the allocation.
use hansa.Prelude.{
  ℕ, zero, suc, ◌+◌, ◌-◌, ◌≡◌, refl, sym, ap, ◌∙◌, subst, some, List, [], ◌∷◌, ◌++◌, map,
  append_assoc, length, get_elem?, length-append, length-map,
}
use hansa.Prelude.Sort.{sort_by}
use hansa.Floats.{Floats}
use hansa.Manifest.{ManifestStore}
use hansa.Membrane.Allocation.{PeerAllocation, proportional_allocation, default_max_peers}
use hansa.Error.{Result, ok, err}
use hansa.Member.{MemberRecord}
use hansa.Panics.{returning_ext}
use hansa.Membrane.Scoring.{score_peers}
use hansa.Membrane.Query.{
  local, from_hit, accept_all, before_score, Hit, ask_peers, answer, MembraneStats,
  truncate_to_budget, before_hit, bump_each, hit_count, Event, batch, expired, MembraneHit,
  MembraneQuery, receive, work, open_and_query, or_no_hits, fan_out, execute_with_stats,
}
use hansa.Membrane.Async.{
  Awaited, finished, collect, task, open_and_query_async, ask_peers_async, answer_async,
  fan_out_async, execute_async,
}
use hansa.Membrane.Allocation.{PeerAllocation}

-- The workers at `count` positions from `i` on report one after the other, and then the deadline strikes.
abbrev pub in_order : ℕ → ℕ → List Event
in_order i zero = expired ∷ []
in_order i (suc count) = batch i ∷ in_order (i + 1) count

abbrev pub all_finished : ℕ → List Awaited
all_finished zero = []
all_finished (suc count) = finished ∷ all_finished count

module _ (f : Floats) where
  get_elem?-append :
      (front : List (List (MembraneHit f))) (b : List (MembraneHit f))
      (rest : List (List (MembraneHit f)))
      → get_elem? (front ++ (b ∷ rest)) (length front) ≡ some b
  get_elem?-append [] b rest = refl
  get_elem?-append (x ∷ front) b rest = get_elem?-append front b rest

  receive-in_order :
      (front rest : List (List (MembraneHit f))) (count completed : ℕ) (hits : List (MembraneHit f))
      → receive f (length rest) (in_order (length front) count) (front ++ rest) (completed, hits)
        ≡ collect f rest (all_finished count) (completed, hits)
  unfolding receive collect
  receive-in_order front [] count completed hits = refl
  receive-in_order front (b ∷ rest) zero completed hits = refl
  receive-in_order front (b ∷ rest) (suc count) completed hits =
      let further = front ++ (b ∷ []) in
      let found = get_elem?-append front b rest in
      let after = collect f rest (all_finished count) (completed + 1, hits ++ b) in
      let longer : length further ≡ length front + 1 = length-append front (b ∷ []) in
      rw found (
        subst
          (λ n.
            receive f (length rest) (in_order n count) (front ++ (b ∷ rest))
              (completed + 1, hits ++ b)
            ≡ after)
          longer
          (subst
            (λ all.
              receive f (length rest) (in_order (length further) count) all
                (completed + 1, hits ++ b)
              ≡ after)
            (append_assoc front (b ∷ []) rest)
            (receive-in_order further rest count (completed + 1) (hits ++ b))))

  tasks_are_workers :
      (q : MembraneQuery f) (alloc : PeerAllocation)
      → task f q.peer_opener q.embedding alloc ≡ work f q.peer_opener q.embedding alloc
  unfolding task open_and_query_async work open_and_query or_no_hits
  tasks_are_workers q alloc = refl

  map_ext :
      (g h : PeerAllocation → List (MembraneHit f))
      → ((a : PeerAllocation) → g a ≡ h a)
      → (allocs : List PeerAllocation) → map g allocs ≡ map h allocs
  map_ext g h same [] = refl
  map_ext g h same (a ∷ allocs) = rw (same a, map_ext g h same allocs) refl

  -- The end of both queries.
  abbrev conclude :
      MembraneQuery f
      → ManifestStore
      → List (MembraneHit f)
      → ℕ
      → ℕ
      → List (MembraneHit f)
      → (List (MembraneHit f) × MembraneStats) × ManifestStore
  conclude q store local_hits attempted completed remote_hits = (
    (
      truncate_to_budget f (sort_by (before_hit f) (local_hits ++ remote_hits))
          q.budget.max_total_records,
      record {
        peers_attempted = attempted;
        peers_completed = completed;
        dropped_for_deadline = attempted - completed;
      },
    ),
    bump_each f (hit_count f remote_hits []) store,
  )

  ask_peers-in_order :
      (q : MembraneQuery f) (count : ℕ) (store : ManifestStore) (hits : List (MembraneHit f))
      (peers : List (MemberRecord × f.F32))
      → ask_peers_async f q (all_finished count) store hits peers
        ≡ ask_peers f q (in_order 0 count) store hits peers
  unfolding ask_peers_async ask_peers
  ask_peers-in_order q count store hits peers =
      let allocation =
        proportional_allocation f (sort_by (before_score f) peers) q.budget.max_remote_records 1
          default_max_peers in
      let batches = map (work f q.peer_opener q.embedding) allocation in
      let handles = map (task f q.peer_opener q.embedding) allocation in
      let same_work : handles ≡ batches =
        map_ext (task f q.peer_opener q.embedding) (work f q.peer_opener q.embedding)
          (tasks_are_workers q) allocation in
      let same_size : length batches ≡ length allocation =
        length-map allocation (work f q.peer_opener q.embedding) in
      let same : collect f handles (all_finished count) (0, [])
          ≡ receive f (length allocation) (in_order 0 count) batches (0, []) =
        ap (λ h. collect f h (all_finished count) (0, [])) same_work
        ∙ sym (receive-in_order [] batches count 0 [])
        ∙ ap (λ n. receive f n (in_order 0 count) batches (0, [])) same_size in
      ap (λ found. conclude q store hits (length allocation) found.0 found.1) same

  fan_out-in_order :
      (q : MembraneQuery f) (now count : ℕ) (store : ManifestStore) (hits : List (MembraneHit f))
      → fan_out_async f q now (all_finished count) store hits
        ≡ fan_out f q now (in_order 0 count) store hits
  unfolding fan_out_async fan_out
  fan_out-in_order q now count store hits =
      returning_ext _ _
        (score_peers f q.local_tenant_id q.embedding q.min_similarity store now q.sagas)
        (ask_peers-in_order q count store hits)

  answer-in_order :
      (q : MembraneQuery f) (now count : ℕ) (store : ManifestStore) (r : Result (List (Hit f)))
      → answer_async f q now (all_finished count) store r
        ≡ answer f q now (in_order 0 count) store r
  unfolding answer_async answer
  answer-in_order q now count store (err e) = refl
  answer-in_order q now count store (ok hits) =
      rw (fan_out-in_order q now count store (map (from_hit f local) hits)) refl

  -- An asynchronous query of which any number of handles finish, none panics, and then the deadline strikes, is
  -- the synchronous query whose workers report in the order of the allocation until the deadline strikes
  -- after as many reports: the hits, the statistics and the manifests are the same, errors and panics
  -- included.
  pub execute_async-in_order :
      (q : MembraneQuery f) (now count : ℕ) (store : ManifestStore)
      → execute_async f q now (all_finished count) store
        ≡ execute_with_stats f q now (in_order 0 count) store
  unfolding execute_async execute_with_stats
  execute_async-in_order q now count store =
      answer-in_order q now count store (q.local_tenant q.embedding q.top_k accept_all)
