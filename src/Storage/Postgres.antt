-- ===== src/Storage/Postgres.antt =====
-- internal/storage/postgresql.go: the storage in a database. The pool and its transactions are
-- parameters; the migrations and the copies that GetAllMetrics makes are not modelled.
pub mod Applied
pub mod Read
pub mod Open
mod Tests
use study_project_metrics_an.Base.{
  ℕ, String, Bool, true, false, Option, none, some, List, [], ◌∷◌, ◌||◌, ◌⊎◌, inl, inr, ◌==◌,
  if◌then◌else◌,
}
use study_project_metrics_an.Base.Int64.{Int64}
use study_project_metrics_an.Model.{Float64, MetricType, Metrics, type_counter, type_gauge}
use study_project_metrics_an.Retry.{with_retry}
use study_project_metrics_an.Storage.{Error, metric_not_found}

-- pgxpool on the state `D` of the database, with transactions `T` and errors `E`: the statements on
-- the pool and in a transaction, and the code of a PgError, which errors.As finds or not.
pub record Pool (D T E : Type 0) : Type 0 where
  pub begin : D → D × (E ⊎ T)
  pub tx_gauge : String → Float64 → T → T × Option E
  pub tx_counter : String → Int64 → T → T × Option E
  pub commit : T → D → D × Option E
  pub rollback : T → D → D
  pub exec_gauge : String → Float64 → D → D × Option E
  pub exec_counter : String → Int64 → D → D × Option E
  pub row_gauge : String → D → E ⊎ Float64
  pub row_counter : String → D → E ⊎ Int64
  pub pg_code : E → Option String

pub data TxError (E : Type 0) : Type 0 where
  database : E → TxError E
  unknown_type : MetricType → TxError E
  context_done : TxError E

-- The codes of pgerrcode that are tried again.
abbrev pub connection_codes : List String
connection_codes = "08000" ∷ "08001" ∷ "08003" ∷ "08004" ∷ "08006" ∷ "08007" ∷ "08P01" ∷ []

abbrev is_one_of : String → List String → Bool
is_one_of code [] = false
is_one_of code (c ∷ codes) = code == c || is_one_of code codes

abbrev is_connection_code : Option String → Bool
is_connection_code none = false
is_connection_code (some code) = is_one_of code connection_codes

unfoldable pub is_retriable_db_error : {E : Type 0} → (E → Option String) → TxError E → Bool
is_retriable_db_error pg_code (database e) = is_connection_code (pg_code e)
is_retriable_db_error pg_code (unknown_type t) = false
is_retriable_db_error pg_code context_done = false

abbrev pub as_database : {E : Type 0} → Option E → Option (TxError E)
as_database none = none
as_database (some e) = some (database e)

module _ {D T E : Type 0} (pool : Pool D T E) where
  abbrev pub tx_delta : String → Option Int64 → T → T × Option (TxError E)
  tx_delta id none tx = (tx, none)
  tx_delta id (some delta) tx = let (tx', e) = pool.tx_counter id delta tx in (tx', as_database e)

  abbrev pub tx_value : String → Option Float64 → T → T × Option (TxError E)
  tx_value id none tx = (tx, none)
  tx_value id (some value) tx = let (tx', e) = pool.tx_gauge id value tx in (tx', as_database e)

  -- The `switch` in the loop of batchUpdateTx.
  unfoldable pub tx_metric : Metrics → T → T × Option (TxError E)
  tx_metric m tx =
      if m.mtype == type_counter
      then tx_delta m.id m.delta tx
      else if m.mtype == type_gauge
      then tx_value m.id m.value tx
      else (tx, some (unknown_type m.mtype))

  unfoldable pub tx_all : List Metrics → T → T × Option (TxError E)
  unfolding tx_metric
  tx_all [] tx = (tx, none)
  tx_all (m ∷ metrics) tx =
      let (tx', err) = tx_metric m tx in
      let rest = tx_all metrics tx' in elim err [ some e ↦ (tx', some e) | none ↦ rest ]

  -- The commit, if all went well, and the deferred rollback.
  abbrev pub end_tx : T × Option (TxError E) → D → D × Option (TxError E)
  end_tx (tx, some e) d = (pool.rollback tx d, some e)
  end_tx (tx, none) d = let (d', e) = pool.commit tx d in (pool.rollback tx d', as_database e)

  abbrev pub run_tx : List Metrics → E ⊎ T → D → D × Option (TxError E)
  run_tx metrics (inl e) d = (d, some (database e))
  run_tx metrics (inr tx) d = end_tx (tx_all metrics tx) d

  unfoldable pub batch_update_tx : List Metrics → D → D × Option (TxError E)
  unfolding tx_all
  batch_update_tx metrics d = let (d', begun) = pool.begin d in run_tx metrics begun d'

  -- `ends` says whether the context ends during a wait.
  unfoldable pub batch_update : (ℕ → Bool) → List Metrics → D → D × Option (TxError E)
  unfolding batch_update_tx is_retriable_db_error
  batch_update ends metrics d =
      with_retry (batch_update_tx metrics) (is_retriable_db_error pool.pg_code) ends context_done d

  abbrev never : ℕ → Bool
  never wait = false

  abbrev statement : (D → D × Option E) → D → D × Option (TxError E)
  statement exec d = let (d', e) = exec d in (d', as_database e)

  -- UpdateGauge and UpdateCounter only log an error.
  unfoldable pub update_gauge : String → Float64 → D → D
  unfolding is_retriable_db_error
  update_gauge name value d =
      (with_retry (statement (pool.exec_gauge name value)) (is_retriable_db_error pool.pg_code)
        never context_done d).0

  unfoldable pub update_counter : String → Int64 → D → D
  unfolding is_retriable_db_error
  update_counter name value d =
      (with_retry (statement (pool.exec_counter name value)) (is_retriable_db_error pool.pg_code)
        never context_done d).0

  abbrev scanned : E ⊎ ℕ → ℕ × Option Error
  scanned (inl e) = (0, some metric_not_found)
  scanned (inr value) = (value, none)

  unfoldable pub get_gauge : String → D → Float64 × Option Error
  get_gauge name d = scanned (pool.row_gauge name d)

  unfoldable pub get_counter : String → D → Int64 × Option Error
  get_counter name d = scanned (pool.row_counter name d)
