-- ===== src/Storage.antt =====
-- internal/storage/storage.go: the interface that every storage backend implements, and the laws
-- that its clients rely on. The backends are the modules below.
pub mod Memory
pub mod Postgres
use study_project_metrics_an.Base.{String, Option, none, some, List, ◌≡◌, ◌==◌, if◌then◌else◌}
use study_project_metrics_an.Base.Int64.{Int64, add64}
use study_project_metrics_an.Base.Assoc.{Assoc}
use study_project_metrics_an.Model.{Float64, MetricType, Metrics}

pub data Error : Type 0 where
  metric_not_found : Error
  unknown_metric_type : MetricType → Error

-- A method takes the backend's state last and returns the new one; Go's `(value, error)` is a pair.
pub record Storage (S : Type 0) : Type 0 where
  pub update_gauge : String → Float64 → S → S
  pub update_counter : String → Int64 → S → S
  pub batch_update : List Metrics → S → S × Option Error
  pub get_gauge : String → S → Float64 × Option Error
  pub get_counter : String → S → Int64 × Option Error
  pub get_all_metrics : S → Assoc Float64 × Assoc Int64
  pub ping : S → Option Error

-- A gauge holds the last value written, a counter the wrapping sum of its deltas from 0, and the
-- two families of names are independent.
pub record IsLawful {S : Type 0} (st : Storage S) : Type 0 where
  pub gauge_gauge :
      (k j : String) (v : Float64) (s : S)
      → st.get_gauge j (st.update_gauge k v s) ≡ (if k == j then (v, none) else st.get_gauge j s)
  pub counter_gauge :
      (k j : String) (v : Float64) (s : S)
      → st.get_counter j (st.update_gauge k v s) ≡ st.get_counter j s
  pub counter_counter :
      (k j : String) (d : Int64) (s : S)
      → st.get_counter j (st.update_counter k d s)
        ≡ (if k == j then (add64 (st.get_counter k s).0 d, none) else st.get_counter j s)
  pub gauge_counter :
      (k j : String) (d : Int64) (s : S)
      → st.get_gauge j (st.update_counter k d s) ≡ st.get_gauge j s
