-- ===== src/Grpc/Convert.antt =====
-- The conversion of metrics to the protocol and back.
use mathlib.Core.Path.{subst}
use study_project_metrics_an.Base.{
  ℕ, String, ◌≡◌, ◌⊎◌, inl, inr, refl, sym, false, Bool-cases, none, some, List, [], ◌∷◌, map,
  arith, All, ◌==◌,
}
use study_project_metrics_an.Model.{Metrics, type_counter, type_gauge, counter-false_of_gauge}
use study_project_metrics_an.Storage.Memory.Batch.{IsKnown}
use study_project_metrics_an.Grpc.{
  Metric, MetricMtype, gauge, counter, other, ConvertError, empty_id, unknown_type, ok, err,
  proto_to_model, convert_all, model_to_proto,
}

abbrev pub gauge_of : String → ℕ → Metrics
gauge_of id v = record { id = id; mtype = type_gauge; delta = none; value = some v; hash = "" }

abbrev pub counter_of : String → ℕ → Metrics
counter_of id d = record { id = id; mtype = type_counter; delta = some d; value = none; hash = "" }

-- What the agent makes: a gauge with a value or a counter with a delta, with a name and no hash.
abbrev pub IsReport : Metrics → Type 0
IsReport x =
    ((x.id == "") ≡ false)
    × (((v : ℕ) × (x ≡ gauge_of x.id v)) ⊎ ((d : ℕ) × (x ≡ counter_of x.id d)))

gauge-back :
    (id : String) (v : ℕ)
    → (id == "") ≡ false
    → proto_to_model (model_to_proto (gauge_of id v)) ≡ ok (gauge_of id v)
unfolding proto_to_model model_to_proto
gauge-back id v h = ground (arith, counter-false_of_gauge type_gauge)

counter-back :
    (id : String) (d : ℕ)
    → (id == "") ≡ false
    → proto_to_model (model_to_proto (counter_of id d)) ≡ ok (counter_of id d)
unfolding proto_to_model model_to_proto
counter-back id d h = ground arith

proto_to_model-model_to_proto :
    (x : Metrics) → IsReport x → proto_to_model (model_to_proto x) ≡ ok x
proto_to_model-model_to_proto x (named, inl (v, e)) =
    subst (λ y. proto_to_model (model_to_proto y) ≡ ok y) (sym e) (gauge-back x.id v named)
proto_to_model-model_to_proto x (named, inr (d, e)) =
    subst (λ y. proto_to_model (model_to_proto y) ≡ ok y) (sym e) (counter-back x.id d named)

-- The server gets back every list of metrics that an agent makes and sends.
pub convert_all-model_to_proto :
    (xs : List Metrics) → All IsReport xs → convert_all (map model_to_proto xs) ≡ ok xs
unfolding convert_all
convert_all-model_to_proto [] h = refl
convert_all-model_to_proto (x ∷ xs) (p, h) =
    rw (convert_all, proto_to_model-model_to_proto x p) (rw (convert_all-model_to_proto xs h) refl)

-- What the server accepts: a name, and a type that it knows.
abbrev pub IsAccepted : Metric → Type 0
IsAccepted m = ((m.id == "") ≡ false) × ((m.mtype ≡ gauge) ⊎ (m.mtype ≡ counter))

IsAccepted-converted :
    (m : Metric) (t : MetricMtype)
    → m.mtype ≡ t
    → (m.id == "") ≡ false
    → (((x : Metrics) × (proto_to_model m ≡ ok x) × IsKnown x) × IsAccepted m)
      ⊎ (((e : ConvertError) × (proto_to_model m ≡ err m.id e)) × ¬ IsAccepted m)
unfolding proto_to_model
IsAccepted-converted m gauge h named =
    inl ((gauge_of m.id m.value, rw (named, proto_to_model) (rw h refl), inl refl), (named, inl h))
IsAccepted-converted m counter h named =
    inl
      ((counter_of m.id m.delta, rw (named, proto_to_model) (rw h refl), inr refl), (named, inr h))
IsAccepted-converted m (other n) h named =
    inr ((unknown_type (other n), rw (named, proto_to_model) (rw h refl)), λ p. ground arith)

pub proto_to_model-cases :
    (m : Metric)
    → (((x : Metrics) × (proto_to_model m ≡ ok x) × IsKnown x) × IsAccepted m)
      ⊎ (((e : ConvertError) × (proto_to_model m ≡ err m.id e)) × ¬ IsAccepted m)
unfolding proto_to_model
proto_to_model-cases m = elim (Bool-cases (m.id == "")) [
  | inl nameless ↦ inr ((empty_id, rw (nameless, proto_to_model) refl), λ p. cc)
  | inr named ↦ IsAccepted-converted m m.mtype refl named
]
