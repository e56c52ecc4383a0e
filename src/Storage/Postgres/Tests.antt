-- ===== src/Storage/Postgres/Tests.antt =====
-- A database whose first commit takes effect and reports a lost connection.
use study_project_metrics_an.Base.{
  arith, eq_iff, ℕ, zero, suc, ◌≡◌, ◌⊎◌, inl, inr, refl, Bool, false, Option, none, some, [], ◌∷◌,
  true,
}
use study_project_metrics_an.Base.Int64.{add64, Int64}
use study_project_metrics_an.Base.Assoc.{lookup, insert, Assoc, IsListing}
use study_project_metrics_an.Retry.{with_retry, attempt_loop}
use study_project_metrics_an.Storage.Memory
use study_project_metrics_an.Storage.Memory.{MetricsStorage, new_mem_storage}
use study_project_metrics_an.Storage.Postgres.{
  Pool, is_retriable_db_error, tx_metric, tx_all, batch_update_tx, batch_update,
}
use study_project_metrics_an.Storage.Postgres.Applied.{IsPool, IsApplied, batch_update-IsApplied}
use study_project_metrics_an.Fixtures.{counter_n}
use study_project_metrics_an.Model.{Float64}
use study_project_metrics_an.Storage.Postgres.Read.{Rows, scanned}
use study_project_metrics_an.Storage.Postgres.Open.{
  OpenLibs, failed, new_postgres_storage, IsOwned, new_postgres_storage-IsOwned,
}

-- How many commits there were, and the rows.
abbrev State : Type 0
State = ℕ × MetricsStorage

abbrev lost_once : ℕ → Option ℕ
lost_once zero = some 8
lost_once (suc n) = none

abbrev pool : Pool State MetricsStorage ℕ
pool = record {
  begin = λ d. (d, inr d.1);
  tx_gauge = λ k v tx. (Memory.update_gauge k v tx, none);
  tx_counter = λ k d tx. (Memory.update_counter k d tx, none);
  commit = λ tx d. ((suc d.0, tx), lost_once d.0);
  rollback = λ tx d. d;
  exec_gauge = λ k v d. ((d.0, Memory.update_gauge k v d.1), none);
  exec_counter = λ k v d. ((d.0, Memory.update_counter k v d.1), none);
  row_gauge = λ k d. inl 0;
  row_counter = λ k d. inl 0;
  pg_code = λ e. some "08006";
}

abbrev rows : State → MetricsStorage
rows d = d.1

abbrev seen : MetricsStorage → MetricsStorage
seen tx = tx

same_view :
    (d : State) (tx : MetricsStorage) → ◌≡◌ {A = ℕ ⊎ MetricsStorage} (inr d.1) (inr tx) → tx ≡ d.1
same_view d tx h = cc

pool-IsPool : IsPool pool rows seen
pool-IsPool = record {
  begin_keeps = λ d. refl;
  begin_sees = same_view;
  gauge_upsert = λ k v tx h. refl;
  counter_upsert = λ k d tx h. refl;
  commit_done = λ tx d h. refl;
  commit_either = λ tx d. inr refl;
  rollback_keeps = λ tx d. refl;
}

abbrev never_ends : ℕ → Bool
never_ends wait = false

abbrev start : State
start = (0, new_mem_storage)

batch_update-IsApplied_example :
    IsApplied pool rows seen pool-IsPool 4
      (counter_n 3 ∷ [])
      start
      (batch_update pool never_ends (counter_n 3 ∷ []) start)
batch_update-IsApplied_example =
    batch_update-IsApplied pool rows seen pool-IsPool never_ends (counter_n 3 ∷ []) start

-- The counter was sent once, with 3, and the database holds 6.
applied_twice :
    lookup "n" (rows (batch_update pool never_ends (counter_n 3 ∷ []) start).0).counters ≡ some 6
unfolding batch_update with_retry attempt_loop batch_update_tx tx_all tx_metric
    is_retriable_db_error Memory.update_counter new_mem_storage lookup insert add64
applied_twice = refl

-- A row that Scan refuses between two that it takes.
abbrev gauge_rows : Rows Float64
gauge_rows = some ("a", 5) ∷ none ∷ some ("b", 6) ∷ []

abbrev gauge_table : Assoc Float64
gauge_table = ("b", 6) ∷ ("a", 5) ∷ []

gauge_table-IsListing : IsListing gauge_table (scanned gauge_rows)
unfolding lookup
gauge_table-IsListing = record {
  distinct = (refl, (refl, tt));
  same = λ k. ground (arith, eq_iff "a" k, eq_iff "b" k, eq_iff "a" "b");
}

abbrev no_counters : Assoc Int64
no_counters = []

no_counters-IsListing : IsListing no_counters no_counters
no_counters-IsListing = record { distinct = tt; same = λ k. refl }

-- A database on which the migrations fail.
abbrev open_libs : OpenLibs ℕ
open_libs = record {
  new_pool = λ dsn. some 1;
  ping_pool = λ pool. true;
  source = true;
  new_instance = λ dsn. true;
  up = λ dsn. failed;
}

new_postgres_storage-IsOwned_example :
    IsOwned open_libs "postgres://db" (new_postgres_storage open_libs "postgres://db")
new_postgres_storage-IsOwned_example = new_postgres_storage-IsOwned open_libs "postgres://db"
