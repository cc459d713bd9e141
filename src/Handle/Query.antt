-- ===== src/Handle/Query.antt =====
-- crates/hansa/src/hansa.rs: `load_peer_saga`, `query`, `query_async` and `record_useful_hits`. The directory of
-- the sagas is a map by tenant id, with what skeg-hull's reader gives of each file.
use hansa.Prelude.{ℕ, Bool, true, false, Option, none, some, List, [], ◌∷◌, if◌then◌else◌}
use hansa.Prelude.Bytes.{Bytes, eq_bytes}
use hansa.Prelude.Assoc.{Assoc, lookup}
use hansa.Error.{Result, ok, err, opening}
use hansa.Exec.{Exec, pure, lift, ◌>>=◌}
use hansa.Floats.{Floats}
use hansa.Sign.{Crypto}
use hansa.Member.{MemberRecord}
use hansa.Manifest.{ManifestStore, bump_useful}
use hansa.Saga.{Saga}
use hansa.Registry.File.{FileRegistry, members}
use hansa.Membrane.Query.{TokenBudget, Queries, PeerOpener, MembraneQuery, MembraneHit, hit_count}
use hansa.Handle.{Hansa}

module _ (f : Floats) where
  open f use {F32, neg_infinity}

  abbrev pub SagaDir : Type 0
  SagaDir = Assoc (Result (Saga f))

  -- The fields of the handle that a query takes: the local tenant, the opener and the budget.
  pub record Tenants : Type 0 where
    pub local_tenant : Queries f
    pub peer_opener : Option (PeerOpener f)
    pub default_budget : TokenBudget

  abbrev pub found_saga : Option (Result (Saga f)) → Result (Option (Saga f))
  found_saga none = ok none
  found_saga (some (ok saga)) = ok (some saga)
  found_saga (some (err e)) = err e

  unfoldable pub load_peer_saga : Bytes → SagaDir → Result (Option (Saga f))
  load_peer_saga peer_tenant dir = found_saga (lookup peer_tenant dir)

  abbrev pub push_saga :
      MemberRecord
      → Result (Option (Saga f))
      → Result (List (MemberRecord × Saga f))
      → Result (List (MemberRecord × Saga f))
  push_saga m (err e) rest = err e
  push_saga m (ok none) rest = rest
  push_saga m (ok (some saga)) (ok sagas) = ok ((m, saga) ∷ sagas)
  push_saga m (ok (some saga)) (err e) = err e

  -- The loop over the members; the caller's own saga is left out.
  unfoldable pub peer_sagas :
      Bytes → SagaDir → List MemberRecord → Result (List (MemberRecord × Saga f))
  unfolding load_peer_saga
  peer_sagas own dir [] = ok []
  peer_sagas own dir (m ∷ members) =
      let rest = peer_sagas own dir members in
      if eq_bytes m.tenant_id own then rest else push_saga m (load_peer_saga m.tenant_id dir) rest

  -- `placeholder_opener`
  unfoldable pub placeholder_opener : PeerOpener f
  placeholder_opener tenant_id location = err opening

  unfoldable pub opener_of : Option (PeerOpener f) → PeerOpener f × Bool
  unfolding placeholder_opener
  opener_of none = (placeholder_opener, true)
  opener_of (some opener) = (opener, false)

  unfoldable pub membrane_query :
      Hansa
      → Tenants
      → List F32
      → List MemberRecord
      → List (MemberRecord × Saga f)
      → MembraneQuery f
  unfolding opener_of
  membrane_query h tenants embedding all sagas =
      let (peer_opener, local_only) = opener_of tenants.peer_opener in
      record {
        local_tenant = tenants.local_tenant;
        local_tenant_id = h.local_tenant_id;
        peer_opener = peer_opener;
        embedding = embedding;
        members = all;
        sagas = sagas;
        top_k = 10;
        budget = tenants.default_budget;
        min_similarity = neg_infinity;
        local_only = local_only;
      }

  unfoldable pub query :
      Crypto → Hansa → Tenants → SagaDir → List F32 → Exec FileRegistry (MembraneQuery f)
  unfolding members peer_sagas membrane_query
  query c h tenants dir embedding = do
    all ← members c h.id
    sagas ← lift (peer_sagas h.local_tenant_id dir all)
    pure (membrane_query h tenants embedding all sagas)

  unfoldable pub bump_useful_each : ℕ → Assoc ℕ → ManifestStore → ManifestStore
  bump_useful_each now [] store = store
  bump_useful_each now ((peer, count) ∷ by_peer) store =
      bump_useful_each now by_peer (bump_useful peer count now store)

  unfoldable pub record_useful_hits : ℕ → List (MembraneHit f) → ManifestStore → ManifestStore
  unfolding hit_count bump_useful_each
  record_useful_hits now hits store = bump_useful_each now (hit_count f hits []) store
