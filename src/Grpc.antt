-- ===== src/Grpc.antt =====
-- internal/grpcserver and internal/agent/grpcsender.go: the batch update over gRPC, from the agent's
-- metrics to the storage of the server. The transport and its generated code are not modelled.
pub mod Convert
pub mod Update
mod Tests
use Prim.Native.String
use study_project_metrics_an.Base.{
  ℕ, String, Bool, true, false, Option, none, some, List, [], ◌∷◌, map, ◌==◌, if◌then◌else◌,
}
use study_project_metrics_an.Base.Int64.{Int64}
use study_project_metrics_an.Model.{Float64, Metrics, type_counter, type_gauge}
use study_project_metrics_an.Storage.{Error, Storage}

-- The enumeration of the protocol; a peer can send any other number.
pub data MetricMtype : Type 0 where
  gauge counter : MetricMtype
  other : ℕ → MetricMtype

-- pb.Metric
pub record Metric : Type 0 where
  pub id : String
  pub mtype : MetricMtype
  pub delta : Int64
  pub value : Float64

pub data ConvertError : Type 0 where
  empty_id : ConvertError
  unknown_type : MetricMtype → ConvertError

pub data Converted {ℓ} (A : Type ℓ) : Type ℓ where
  ok : A → Converted A
  err : String → ConvertError → Converted A

-- The error has the id of the metric with it.
unfoldable pub proto_to_model : Metric → Converted Metrics
proto_to_model m = if m.id == "" then err m.id empty_id else elim m.mtype [
  | gauge ↦
      ok (record { id = m.id; mtype = type_gauge; delta = none; value = some m.value; hash = "" })
  | counter ↦
      ok (record { id = m.id; mtype = type_counter; delta = some m.delta; value = none; hash = "" })
  | other n ↦ err m.id (unknown_type (other n))
]

abbrev pub more : Metrics → Converted (List Metrics) → Converted (List Metrics)
more x (err id e) = err id e
more x (ok xs) = ok (x ∷ xs)

-- The loop of UpdateMetrics.
unfoldable pub convert_all : List Metric → Converted (List Metrics)
unfolding proto_to_model
convert_all [] = ok []
convert_all (m ∷ ms) =
    let rest = convert_all ms in
    elim (proto_to_model m) [ err id e ↦ err id e | ok x ↦ more x rest ]

pub data Status : Type 0 where
  fine : Status
  invalid_argument : String → ConvertError → Status
  internal : Error → Status
  permission_denied : Status

abbrev pub batch_status : Option Error → Status
batch_status none = fine
batch_status (some e) = internal e

unfoldable pub update_metrics : {S : Type 0} → Storage S → List Metric → S → S × Status
unfolding convert_all
update_metrics st ms s = elim (convert_all ms) [
  | err id e ↦ (s, invalid_argument id e)
  | ok xs ↦ let (s', e) = st.batch_update xs s in (s', batch_status e)
]

-- TrustedSubnetInterceptor. The metadata is none where the context has none, else the values under
-- "x-real-ip".
unfoldable pub trusted_subnet_interceptor :
    {S Ip Subnet : Type 0}
    → (String → Option Ip)
    → (Subnet → Ip → Bool)
    → Option Subnet
    → Option (List String)
    → (S → S × Status)
    → S
    → S × Status
trusted_subnet_interceptor parse_ip within none md handler s = handler s
trusted_subnet_interceptor parse_ip within (some net) none handler s = (s, permission_denied)
trusted_subnet_interceptor parse_ip within (some net) (some []) handler s = (s, permission_denied)
trusted_subnet_interceptor parse_ip within (some net) (some (v ∷ vs)) handler s =
    elim (parse_ip v) [
      | none ↦ (s, permission_denied)
      | some ip ↦ if within net ip then handler s else (s, permission_denied)
    ]

abbrev or_zero : Option ℕ → ℕ
or_zero none = 0
or_zero (some v) = v

-- A type that is not "counter" is sent as a gauge.
unfoldable pub model_to_proto : Metrics → Metric
model_to_proto x =
    if x.mtype == type_counter
    then record { id = x.id; mtype = counter; delta = or_zero x.delta; value = 0 }
    else record { id = x.id; mtype = gauge; delta = 0; value = or_zero x.value }

-- The metadata that SendBatch sets.
abbrev pub outgoing : String → List String
outgoing local_ip = if local_ip == "" then [] else local_ip ∷ []

-- `call` is the client's UpdateMetrics with the metadata, on the state of the network.
unfoldable pub send_batch :
    {N E : Type 0}
    → (List String → List Metric → N → N × Option E)
    → String
    → List Metrics
    → N
    → N × Option E
unfolding model_to_proto
send_batch call local_ip [] n = (n, none)
send_batch call local_ip (x ∷ xs) n = call (outgoing local_ip) (map model_to_proto (x ∷ xs)) n
