-- ===== src/Agent/Collector/Poll.antt =====
-- What the polls of the agent leave in its gauges and its counters.
use study_project_metrics_an.Base.{
  String, ◌≡◌, ◌≢◌, ap, some, List, [], ◌∷◌, ◌+◌, ◌%◌, arith, length,
}
use study_project_metrics_an.Base.Int64.{Int64, add64, modulus, IsInt64}
use study_project_metrics_an.Base.Assoc.{lookup, IsDistinct, lookup-insert_self, lookup-insert_ne}
use study_project_metrics_an.Model.{Float64}
use study_project_metrics_an.Storage.Memory.{value_or_zero}
use study_project_metrics_an.Storage.Memory.Snapshot.{over, lookup-copy_into}
use study_project_metrics_an.Agent.Collector.{Collector, MemStats, assignments, update_metrics}

assignments-IsDistinct : (m : MemStats) (v : Float64) → IsDistinct (assignments m v)
unfolding assignments lookup
assignments-IsDistinct m v = ground arith

-- After a poll each of the 28 runtime gauges reads the value just taken, every other gauge and
-- every counter but PollCount reads what it read before, and PollCount is one more.
pub update_metrics-reads :
    (m : MemStats) (v : Float64) (c : Collector) (k : String)
    → (lookup k (update_metrics m v c).gauge ≡ over (lookup k (assignments m v)) (lookup k c.gauge))
      × (lookup "PollCount" (update_metrics m v c).counter
          ≡ some (add64 (value_or_zero (lookup "PollCount" c.counter)) 1))
      × ("PollCount" ≢ k → lookup k (update_metrics m v c).counter ≡ lookup k c.counter)
unfolding update_metrics
update_metrics-reads m v c k = (
  lookup-copy_into k c.gauge (assignments m v) (assignments-IsDistinct m v),
  lookup-insert_self "PollCount" (add64 (value_or_zero (lookup "PollCount" c.counter)) 1) c.counter,
  lookup-insert_ne "PollCount" k (add64 (value_or_zero (lookup "PollCount" c.counter)) 1) c.counter,
)

-- Several polls in a row.
unfoldable pub polls : List (MemStats × Float64) → Collector → Collector
polls [] c = c
polls ((m, v) ∷ rest) c = polls rest (update_metrics m v c)

abbrev pub poll_count : Collector → Int64
poll_count c = value_or_zero (lookup "PollCount" c.counter)

poll_count-update_metrics :
    (m : MemStats) (v : Float64) (c : Collector)
    → poll_count (update_metrics m v c) ≡ add64 (poll_count c) 1
poll_count-update_metrics m v c = ap value_or_zero (update_metrics-reads m v c "PollCount").1

-- PollCount counts the polls modulo 2 ^ 64.
pub poll_count-polls :
    (ps : List (MemStats × Float64)) (c : Collector)
    → IsInt64 (poll_count c)
    → poll_count (polls ps c) ≡ (poll_count c + length ps) % modulus
unfolding polls add64
poll_count-polls [] c h = omega arith
poll_count-polls ((m, v) ∷ ps) c h =
    let one = poll_count-update_metrics m v c in
    let rest = poll_count-polls ps (update_metrics m v c) (omega (arith, one)) in
    omega (arith, one, rest)
