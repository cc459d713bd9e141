-- ===== src/Handle/Peers.antt =====
-- Whose sagas a query takes with it.
use hansa.Prelude.{
  ◌≡◌, refl, ap, ◌∙◌, subst, ◌↔◌, ◌⊎◌, inl, inr, true, false, Option, none, some, List, [], ◌∷◌,
  Bool-cases, All, All-imp, Any,
}
use hansa.Prelude.Bytes.{Bytes, eq_bytes}
use hansa.Prelude.Assoc.{lookup}
use hansa.Error.{Result, ok, err}
use hansa.Exec.{Exec, pure, lift, continue, ◌>>=◌}
use hansa.Floats.{Floats}
use hansa.Sign.{Crypto}
use hansa.Member.{MemberRecord}
use hansa.Saga.{Saga}
use hansa.Registry.File.{FileRegistry, members}
use hansa.Membrane.Query.{MembraneQuery, PeerOpener}
use hansa.Handle.{Hansa}
use hansa.Handle.Query.{
  membrane_query, SagaDir, Tenants, load_peer_saga, peer_sagas, push_saga, found_saga, opener_of,
  query,
}

module _ (f : Floats) (own : Bytes) (dir : SagaDir f) where
  -- Another member, with the saga that its file holds.
  abbrev pub IsPeer : List MemberRecord → MemberRecord × Saga f → Type 0
  IsPeer all entry =
      Any (λ k. k ≡ entry.0) all
      × (eq_bytes entry.0.tenant_id own ≡ false)
      × (lookup entry.0.tenant_id dir ≡ some (ok entry.1))

  -- The caller itself, or a member without a saga file, or one of the peers.
  abbrev pub IsPlaced : List (MemberRecord × Saga f) → MemberRecord → Type 0
  IsPlaced sagas m =
      (eq_bytes m.tenant_id own ≡ true)
      ⊎ (lookup m.tenant_id dir ≡ none)
      ⊎ Any (λ entry. entry.0 ≡ m) sagas

  abbrev AreKnown : List MemberRecord → List (MemberRecord × Saga f) → Type 0
  AreKnown all sagas = All (IsPeer all) sagas × All (IsPlaced sagas) all

  keep :
      (m : MemberRecord) (all : List MemberRecord) (sagas : List (MemberRecord × Saga f))
      → IsPlaced sagas m
      → AreKnown all sagas
      → AreKnown (m ∷ all) sagas
  keep m all sagas here known =
      (All-imp _ _ (λ entry h. (inr h.0, h.1, h.2)) sagas known.0, (here, known.1))

  add :
      (m : MemberRecord) (saga : Saga f) (all : List MemberRecord)
      (sagas : List (MemberRecord × Saga f))
      → eq_bytes m.tenant_id own ≡ false
      → lookup m.tenant_id dir ≡ some (ok saga)
      → AreKnown all sagas
      → AreKnown (m ∷ all) ((m, saga) ∷ sagas)
  add m saga all sagas other there known = (
    ((inl refl, other, there), All-imp _ _ (λ entry h. (inr h.0, h.1, h.2)) sagas known.0),
    (inr (inr (inl refl)), All-imp _ _ later all known.1),
  )
    where
      later : (k : MemberRecord) → IsPlaced sagas k → IsPlaced ((m, saga) ∷ sagas) k
      later k (inl same) = inl same
      later k (inr (inl missing)) = inr (inl missing)
      later k (inr (inr found)) = inr (inr (inr found))

  pushed :
      (m : MemberRecord) (all : List MemberRecord) (sagas : List (MemberRecord × Saga f))
      → eq_bytes m.tenant_id own ≡ false
      → ((rest : List (MemberRecord × Saga f))
          → peer_sagas f own dir all ≡ ok rest
          → AreKnown all rest)
      → (file : Option (Result (Saga f))) (others : Result (List (MemberRecord × Saga f)))
      → lookup m.tenant_id dir ≡ file
      → peer_sagas f own dir all ≡ others
      → push_saga f m (found_saga f file) others ≡ ok sagas
      → AreKnown (m ∷ all) sagas
  pushed m all sagas other known none (err e) at same h = absurd (cc)
  pushed m all sagas other known none (ok rest) at same h =
      keep m all sagas (inr (inl at)) (known sagas (same ∙ h))
  pushed m all sagas other known (some (err e)) others at same h = absurd (cc)
  pushed m all sagas other known (some (ok saga)) (err e) at same h = absurd (cc)
  pushed m all sagas other known (some (ok saga)) (ok rest) at same h =
      let equal : (m, saga) ∷ rest ≡ sagas = cc in
      subst (AreKnown (m ∷ all)) equal (add m saga all rest other at (known rest same))

  pub peer_sagas-AreKnown :
      (all : List MemberRecord) (sagas : List (MemberRecord × Saga f))
      → peer_sagas f own dir all ≡ ok sagas
      → AreKnown all sagas
  unfolding peer_sagas load_peer_saga
  peer_sagas-AreKnown [] sagas h = let equal : [] ≡ sagas = cc in subst (AreKnown []) equal (tt, tt)
  peer_sagas-AreKnown (m ∷ all) sagas h = elim (Bool-cases (eq_bytes m.tenant_id own)) [
    | inl same ↦ keep m all sagas (inl same) (peer_sagas-AreKnown all sagas (rw same at h))
    | inr other ↦
        pushed m all sagas other (peer_sagas-AreKnown all) (lookup m.tenant_id dir)
          (peer_sagas f own dir all) refl refl (rw other at h)
  ]

bind_ok :
    {S A B : Type 0} (r : Result A × S) (next : A → Exec S B) (b : B) (after : S)
    → continue r.0 next r.1 ≡ (ok b, after)
    → (a : A) × (s : S) × (r ≡ (ok a, s)) × (next a s ≡ (ok b, after))
bind_ok (ok a, s) next b after h = (a, s, refl, h)
bind_ok (err e, s) next b after h = absurd (cc (ap (λ r. r.0) h))

ok_inj : {A : Type 0} {a b : A} → ok a ≡ ok b → a ≡ b
ok_inj h = cc

module _ (c : Crypto) (f : Floats) (h : Hansa) (dir : SagaDir f) where
  -- The members are those of the hansa, the sagas those of the others among them that have a file, and without
  -- an opener only the caller is asked.
  abbrev pub IsBuilt : Tenants f → FileRegistry → FileRegistry → MembraneQuery f → Type 0
  IsBuilt tenants reg reg_after q =
      (members c h.id reg ≡ (ok q.members, reg_after))
      × All (IsPeer f h.local_tenant_id dir q.members) q.sagas
      × All (IsPlaced f h.local_tenant_id dir q.sagas) q.members
      × ((q.local_only ≡ true) ↔ (tenants.peer_opener ≡ none))

  opens : (opener : Option (PeerOpener f)) → ((opener_of f opener).1 ≡ true) ↔ (opener ≡ none)
  unfolding opener_of
  opens none = (λ e. refl, λ e. refl)
  opens (some opener) = (λ e. absurd (cc), λ e. absurd (cc))

  -- A query that the handle builds has the active members of the hansa, and takes with it the saga of each
  -- of them but the caller that has a saga file, and no other saga. It asks the caller alone just where
  -- the handle has no way to open peers.
  pub query-IsBuilt :
      (tenants : Tenants f) (embedding : List f.F32) (reg reg_after : FileRegistry)
      (q : MembraneQuery f)
      → query f c h tenants dir embedding reg ≡ (ok q, reg_after)
      → IsBuilt tenants reg reg_after q
  unfolding query
  query-IsBuilt tenants embedding reg reg_after q e =
      let (all, reg', listed, rest) =
        bind_ok (members c h.id reg)
          (λ all. lift (peer_sagas f h.local_tenant_id dir all) >>= λ sagas.
            pure (membrane_query f h tenants embedding all sagas))
          q reg_after e in
      let (sagas, reg'', loaded, made) =
        bind_ok (peer_sagas f h.local_tenant_id dir all, reg')
          (λ sagas. pure (membrane_query f h tenants embedding all sagas)) q reg_after rest in
      let same_reg : reg' ≡ reg_after = ap (λ r. r.1) loaded ∙ ap (λ r. r.1) made in
      let known = peer_sagas-AreKnown f h.local_tenant_id dir all sagas (ap (λ r. r.0) loaded) in
      subst (λ built. IsBuilt tenants reg reg_after built) (ok_inj (ap (λ r. r.0) made))
        (unfold membrane_query in
          (listed ∙ ap (λ s. (ok all, s)) same_reg, known.0, known.1, opens tenants.peer_opener))
