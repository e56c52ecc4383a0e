-- ===== src/Grpc/Tests.antt =====
-- A batch of two metrics over gRPC.
use study_project_metrics_an.Base.{
  ℕ, zero, suc, String, ◌≡◌, inl, inr, refl, Bool, true, false, Option, none, some, List, [], ◌∷◌,
  map, All, ◌==◌, if◌then◌else◌,
}
use study_project_metrics_an.Model.{Metrics}
use study_project_metrics_an.Storage.Memory.{new_mem_storage, batch_update, mem_storage}
use study_project_metrics_an.Fixtures.{listed, gauge_a, counter_n}
use study_project_metrics_an.Grpc.{
  Metric, gauge, other, Status, fine, unknown_type, invalid_argument, batch_status, proto_to_model,
  convert_all, update_metrics, trusted_subnet_interceptor, model_to_proto,
}
use study_project_metrics_an.Grpc.Convert.{IsReport}
use study_project_metrics_an.Grpc.Update.{update_metrics-model_to_proto}

abbrev reports : List Metrics
reports = gauge_a 7 ∷ counter_n 3 ∷ []

reports-IsReport : All IsReport reports
reports-IsReport = ((refl, inl (7, refl)), ((refl, inr (3, refl)), tt))

update_metrics-model_to_proto_example :
    update_metrics (mem_storage listed) (map model_to_proto reports) new_mem_storage ≡ (
      ((mem_storage listed).batch_update reports new_mem_storage).0,
      batch_status ((mem_storage listed).batch_update reports new_mem_storage).1,
    )
update_metrics-model_to_proto_example =
    update_metrics-model_to_proto (mem_storage listed) reports new_mem_storage reports-IsReport

abbrev with_unknown : List Metric
with_unknown =
    record { id = "a"; mtype = gauge; delta = 0; value = 7 }
    ∷ record { id = "b"; mtype = other 9; delta = 0; value = 7 }
    ∷ []

refused :
    update_metrics (mem_storage listed) with_unknown new_mem_storage
    ≡ (new_mem_storage, invalid_argument "b" (unknown_type (other 9)))
unfolding update_metrics convert_all proto_to_model
refused = refl

-- An address is the text "10.0.0.1", and the only network holds it.
abbrev one_ip : String → Option ℕ
one_ip t = if t == "10.0.0.1" then some 1 else none

abbrev is_one : ℕ → ℕ → Bool
is_one net zero = false
is_one net (suc ip) = true

abbrev answer : ℕ → ℕ × Status
answer s = (suc s, fine)

abbrev peer : Option (List String)
peer = some ("10.0.0.1" ∷ [])

let_through : trusted_subnet_interceptor one_ip is_one (some 0) peer answer 5 ≡ (6, fine)
unfolding trusted_subnet_interceptor
let_through = refl
