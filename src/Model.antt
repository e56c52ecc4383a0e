-- ===== src/Model.antt =====
-- internal/model/metrics.go: the metric record that agent and server share.
use study_project_metrics_an.Base.{ℕ, String, Option, ◌≡◌, ◌≢◌, true, false, arith, ◌==◌, eq_iff}
use study_project_metrics_an.Base.Int64.{Int64}

-- A float64 is its IEEE 754 bit pattern; the program only copies, parses and prints it.
abbrev pub Float64 : Type 0
Float64 = ℕ

-- `type MetricType string`: any text can arrive in a request.
abbrev pub MetricType : Type 0
MetricType = String

abbrev pub type_counter : MetricType
type_counter = "counter"

abbrev pub type_gauge : MetricType
type_gauge = "gauge"

-- `Delta` and `Value` are pointers, nil when absent.
pub record Metrics : Type 0 where
  pub id : String
  pub mtype : MetricType
  pub delta : Option Int64
  pub value : Option Float64
  pub hash : String

types_differ : type_gauge ≢ type_counter
types_differ = ground (arith, eq_iff type_gauge type_counter)

-- A type that is "gauge" is not "counter".
pub counter-false_of_gauge :
    (t : MetricType) → (t == type_gauge) ≡ true → (t == type_counter) ≡ false
counter-false_of_gauge t h =
    ground (arith, eq_iff t type_gauge, eq_iff t type_counter, types_differ)
