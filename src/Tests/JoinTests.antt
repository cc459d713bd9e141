-- ===== src/Tests/JoinTests.antt =====
-- The theorem on `join` and `leave`, on the toy log that has just been founded.
use hansa.Prelude.{◌≡◌, refl, false, none, some, [], ◌∷◌, All}
use hansa.Prelude.Bytes.{eq_bytes}
use hansa.Prelude.Assoc.{lookup}
use hansa.Error.{ok}
use hansa.Floats.{thousandths}
use hansa.Panics.{Returns}
use hansa.Sign.{from_skipper, public}
use hansa.Chain.{Body, ReplayOutcome, finish}
use hansa.Chain.Steps.{from_genesis}
use hansa.Genesis.{found}
use hansa.Chain.Founded.{founded, founded-IsOwned}
use hansa.Saga.KMeans.{squared_distance, distance_from}
use hansa.Saga.Whole.{IsFit}
use hansa.Handle.{Hansa}
use hansa.Handle.Query.{load_peer_saga}
use hansa.Handle.Join.{Holdings, Place, own_record, join_hansa, leave_with_saga}
use hansa.Handle.Joined
use hansa.Handle.Joined.{IsDone, IsPublished}
use hansa.Tests.Toy.{toy, toy-IsSound, key, team, alice, alice_record, root_link}
use hansa.Tests.SagaTests.{counter, counter-IsDrawing, thousandths-IsSummable}

abbrev newcomer : Hansa
newcomer = record {
  id = team;
  skipper = some key;
  local_tenant_id = alice;
  local_tenant_location = alice_record.tenant_location;
  embedding_dim = 4;
}

abbrev held : Holdings thousandths
held = record {
  record_count = 2;
  vectors = (0 ∷ 1000 ∷ 0 ∷ 0 ∷ []) ∷ (100 ∷ 900 ∷ 0 ∷ 0 ∷ []) ∷ [];
  tags = (120 ∷ []) ∷ [];
}

abbrev began : ReplayOutcome
began = finish (from_genesis toy (founded toy toy-IsSound key 4 5 false) root_link)

abbrev place : Place thousandths
place = record { registry = (team, root_link ∷ []) ∷ []; saga_dir = [] }

held_data_fits :
    All
      (IsFit thousandths counter counter-IsDrawing thousandths-IsSummable 4 held.vectors)
      held.vectors
unfolding squared_distance distance_from
held_data_fits =
    ((refl, ((refl, refl), ((refl, refl), tt))), ((refl, ((refl, refl), ((refl, refl), tt))), tt))

same_dimension : newcomer.embedding_dim ≡ began.embedding_dim
unfolding finish found
same_dimension = refl

join_and_leave-result_example :
    Returns
      (λ r.
        IsDone thousandths counter counter-IsDrawing thousandths-IsSummable toy toy-IsSound newcomer
          key began
          (Body.admit (own_record newcomer 8) none)
          r
        × IsPublished thousandths counter counter-IsDrawing thousandths-IsSummable toy toy-IsSound
            newcomer held place.saga_dir r.1.saga_dir)
      (join_hansa thousandths counter toy newcomer held 7 8 9 (ok tt) place)
    × (let r = leave_with_saga thousandths toy newcomer 10 9 (ok tt) place in
        IsDone thousandths counter counter-IsDrawing thousandths-IsSummable toy toy-IsSound newcomer
          key began
          (Body.revoke alice 10 none)
          r
        × (load_peer_saga thousandths alice r.1.saga_dir ≡ ok none))
unfolding lookup eq_bytes from_skipper public
join_and_leave-result_example =
    Joined.join_and_leave-result thousandths counter counter-IsDrawing thousandths-IsSummable toy
      toy-IsSound newcomer key began held 7 8 9 10 place refl refl
      (founded-IsOwned toy toy-IsSound key 4 5 false) same_dimension held_data_fits
