-- ===== src/Storage/Postgres/Read.antt =====
-- GetAllMetrics of internal/storage/postgresql.go.
use study_project_metrics_an.Base.{String, ◌≡◌, refl, Option, none, some, List, [], ◌∷◌}
use study_project_metrics_an.Base.Int64.{Int64}
use study_project_metrics_an.Base.Assoc.{Assoc, insert, IsListing}
use study_project_metrics_an.Model.{Float64}
use study_project_metrics_an.Storage.Memory.{copy_into}
use study_project_metrics_an.Storage.Memory.Snapshot.{copy_into-IsListing}

-- The rows of a query in their order, none for one that Scan refuses; an error that ends the rows
-- early is only logged.
abbrev pub Rows : Type 0 → Type 0
Rows V = List (Option (String × V))

abbrev pub stored_row : {V : Type 0} → Option (String × V) → Assoc V → Assoc V
stored_row none m = m
stored_row (some (name, value)) m = insert name value m

unfoldable pub scan_rows : {V : Type 0} → Rows V → Assoc V → Assoc V
scan_rows [] m = m
scan_rows (r ∷ rows) m = scan_rows rows (stored_row r m)

-- A query that fails gives no rows.
abbrev pub queried : {V : Type 0} → Option (Rows V) → Assoc V
queried none = []
queried (some rows) = scan_rows rows []

unfoldable pub pg_get_all_metrics :
    Option (Rows Float64) → Option (Rows Int64) → Assoc Float64 × Assoc Int64
unfolding scan_rows
pg_get_all_metrics gauges counters = (queried gauges, queried counters)

-- The rows that Scan takes.
abbrev pub scanned : {V : Type 0} → Rows V → Assoc V
scanned [] = []
scanned (none ∷ rows) = scanned rows
scanned (some row ∷ rows) = row ∷ scanned rows

scan_rows-copy_into :
    {V : Type 0} (rows : Rows V) (m : Assoc V) → scan_rows rows m ≡ copy_into m (scanned rows)
unfolding scan_rows copy_into
scan_rows-copy_into [] m = refl
scan_rows-copy_into (none ∷ rows) m = scan_rows-copy_into rows m
scan_rows-copy_into (some (name, value) ∷ rows) m = scan_rows-copy_into rows (insert name value m)

queried-IsListing :
    {V : Type 0} (table : Assoc V) (rows : Rows V)
    → IsListing table (scanned rows)
    → IsListing table (queried (some rows))
queried-IsListing table rows l =
    rw (scan_rows-copy_into rows []) (copy_into-IsListing table (scanned rows) l)

-- If both queries succeed and the rows that are scanned are the tables, each name once, the maps that
-- GetAllMetrics returns hold each entry once and read what the tables read.
pub pg_get_all_metrics-IsListing :
    (gauges : Assoc Float64) (counters : Assoc Int64) (gauge_rows : Rows Float64)
    (counter_rows : Rows Int64)
    → IsListing gauges (scanned gauge_rows)
    → IsListing counters (scanned counter_rows)
    → IsListing gauges (pg_get_all_metrics (some gauge_rows) (some counter_rows)).0
      × IsListing counters (pg_get_all_metrics (some gauge_rows) (some counter_rows)).1
unfolding pg_get_all_metrics
pg_get_all_metrics-IsListing gauges counters gauge_rows counter_rows g c =
    (queried-IsListing gauges gauge_rows g, queried-IsListing counters counter_rows c)
