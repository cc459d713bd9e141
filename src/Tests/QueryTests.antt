-- ===== src/Tests/QueryTests.antt =====
-- The theorems on the membrane query and on the manifests, with two tenants and one peer.
use hansa.Prelude.{
  inr, some, All, ℕ, ◌-◌, ◌^◌, ◌<◌, arith, min, ◌≡◌, refl, false, none, List, [], ◌∷◌, map, length,
}
use hansa.Floats.{thousandths}
use hansa.Error.{ok}
use hansa.Prelude.Bytes.{eq_bytes}
use hansa.Prelude.Assoc.{lookup}
use hansa.Manifest.{ManifestStore, read, blank_manifest, saturating_add}
use hansa.Manifest.Counts
use hansa.Manifest.Counts.{Bump, total, useful, bump_all, returned_by, useful_by, empty-IsFiled}
use hansa.Saga.{Saga}
use hansa.Membrane.Query.{
  local, remote, from_hit, batch, expired, Hit, View, MembraneQuery, MembraneHit, MembraneStats,
  fan_out, answer, accept_all, execute_with_stats,
}
use hansa.Membrane.Query.Answers
use hansa.Membrane.Query.Answers.{IsAnswer}
use hansa.Membrane.Query.Results.{IsScorable}
use hansa.Membrane.Scoring.{score_peers}
use hansa.Saga.Score.{score_saga, best_score, cosine_similarity, cosine_from}
use hansa.Membrane.Async.{execute_async}
use hansa.Membrane.Async.InOrder
use hansa.Membrane.Async.InOrder.{all_finished, in_order}
use hansa.Handle.Query.{record_useful_hits}
use hansa.Handle.Useful
use hansa.Handle.Useful.{sent_by}
use hansa.Tests.Toy.{alice, bob, alice_record, bob_record}

abbrev note : Hit thousandths
note = record { record_id = 1 ∷ []; similarity = 700; payload = []; embedding = none }

abbrev bob_view : View thousandths
bob_view = record { query_filtered = λ v k accept. ok (note ∷ note ∷ []); tenant_id = bob }

abbrev bob_saga : Saga thousandths
bob_saga = record {
  tenant_id = bob;
  built_at = 0;
  record_count = 2;
  embedding_dim = 1;
  centroids = record { cluster_size = 2; vector = 1000 ∷ [] } ∷ [];
  tags = [];
}

abbrev alice_asks : MembraneQuery thousandths
alice_asks = record {
  local_tenant = λ v k accept. ok (note ∷ []);
  local_tenant_id = alice;
  peer_opener = λ id place. ok bob_view;
  embedding = 1000 ∷ [];
  members = alice_record ∷ bob_record ∷ [];
  sagas = (bob_record, bob_saga) ∷ [];
  top_k = 5;
  budget = record { max_remote_records = 4; max_total_records = 2 };
  min_similarity = 0;
  local_only = false;
}

-- Bob's centroid is as long as the query.
sagas_fit : All (IsScorable thousandths alice alice_asks.embedding) alice_asks.sagas
sagas_fit = (inr (omega arith, tt), tt)

execute_with_stats-IsAnswer_example :
    (r : (List (MembraneHit thousandths) × MembraneStats) × ManifestStore) × (execute_with_stats
        thousandths alice_asks 9
        (batch 0 ∷ expired ∷ [])
        []
      ≡ some (ok r))
    × IsAnswer thousandths alice_asks (note ∷ []) r.0.0 r.0.1
execute_with_stats-IsAnswer_example =
    Answers.execute_with_stats-IsAnswer thousandths alice_asks 9 (batch 0 ∷ expired ∷ []) []
      (note ∷ []) refl sagas_fit

-- A centroid that is shorter than the query ends the query in a panic.
short_centroid_panics :
    execute_with_stats thousandths
      (record alice_asks { embedding = 1000 ∷ 0 ∷ [] })
      9
      (batch 0 ∷ [])
      []
    ≡ none
unfolding execute_with_stats answer fan_out score_peers score_saga best_score cosine_similarity
    cosine_from accept_all eq_bytes
short_centroid_panics = refl

abbrev order : List ℕ
order = 0 ∷ 1 ∷ 2 ∷ 3 ∷ 4 ∷ 5 ∷ 6 ∷ 7 ∷ []

fan_out_drops_none_example :
    (r : (List (MembraneHit thousandths) × MembraneStats) × ManifestStore) × (fan_out thousandths
        alice_asks 9
        (map batch order)
        []
        []
      ≡ some r)
    × (r.0.1.dropped_for_deadline ≡ r.0.1.peers_attempted - length order)
fan_out_drops_none_example =
    Answers.fan_out_drops_none thousandths alice_asks 9 order [] [] sagas_fit

abbrev bumps : List Bump
bumps = total bob 5 ∷ useful bob 2 99 ∷ total alice 1 ∷ total bob 3 ∷ []

bump_all-sums_example :
    ((read bob (bump_all bumps [])).total_hits ≡ min (returned_by bob bumps) (2 ^ 64 - 1))
    × ((read bob (bump_all bumps [])).useful_hits ≡ min (useful_by bob bumps) (2 ^ 64 - 1))
bump_all-sums_example = Counts.bump_all-sums bumps bob

execute_async-in_order_example :
    execute_async thousandths alice_asks 9 (all_finished 1) []
    ≡ execute_with_stats thousandths alice_asks 9 (in_order 0 1) []
execute_async-in_order_example = InOrder.execute_async-in_order thousandths alice_asks 9 1 []

abbrev used_hits : List (MembraneHit thousandths)
used_hits =
    from_hit thousandths (remote bob) note
    ∷ from_hit thousandths local note
    ∷ from_hit thousandths (remote alice) note
    ∷ from_hit thousandths (remote bob) note
    ∷ []

nothing_used : (read bob []).useful_hits < 2 ^ 64
unfolding read lookup blank_manifest
nothing_used = omega arith

record_useful_hits-credits_example :
    (read bob (record_useful_hits thousandths 9 used_hits [])).useful_hits
    ≡ saturating_add (read bob []).useful_hits (sent_by thousandths bob used_hits)
record_useful_hits-credits_example =
    Useful.record_useful_hits-credits thousandths bob 9 used_hits [] empty-IsFiled nothing_used
