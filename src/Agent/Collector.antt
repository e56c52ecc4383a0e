-- ===== src/Agent/Collector.antt =====
-- internal/agent/collector.go and gopsutil_collector.go: the metrics that the agent keeps, and the
-- buffer that it sends in batches.
pub mod Poll
pub mod Report
pub mod Repeated
pub mod Flush
pub mod Goroutines
pub mod Sent
pub mod Accounts
mod Tests
use study_project_metrics_an.Base.{
  ◌&&◌, ℕ, suc, String, Bool, true, false, Option, none, some, List, [], ◌∷◌, ◌++◌, ◌⊎◌, inl, inr,
  map, length, leb, eqb, if◌then◌else◌,
}
use study_project_metrics_an.Base.Int64.{Int64, add64}
use study_project_metrics_an.Base.Assoc.{Assoc, lookup, insert}
use study_project_metrics_an.Model.{Float64, Metrics}
use study_project_metrics_an.Wire.{Bytes, Json, Gzip}
use study_project_metrics_an.Storage.Memory.{Visit, copy_into, value_or_zero}
use study_project_metrics_an.Persist.{gauge_entry, counter_entry}
use study_project_metrics_an.Agent.{Post, Net}
use Prim.Native.String

pub record Collector : Type 0 where
  pub gauge : Assoc Float64
  pub counter : Assoc Int64
  pub buffer : List Metrics
  pub batch_size : ℕ
  pub endpoint : String

-- A batch size below 1 acts as 0 does here.
unfoldable pub new_collector : ℕ → String → Collector
new_collector batch_size endpoint = record {
  gauge = [];
  counter = [];
  buffer = [];
  batch_size = batch_size;
  endpoint = endpoint;
}

-- runtime.MemStats, the fields that are read, each as the float64 that it is converted to.
pub record MemStats : Type 0 where
  pub alloc : Float64
  pub buck_hash_sys : Float64
  pub frees : Float64
  pub gc_cpu_fraction : Float64
  pub gc_sys : Float64
  pub heap_alloc : Float64
  pub heap_idle : Float64
  pub heap_inuse : Float64
  pub heap_objects : Float64
  pub heap_released : Float64
  pub heap_sys : Float64
  pub last_gc : Float64
  pub lookups : Float64
  pub mcache_inuse : Float64
  pub mcache_sys : Float64
  pub mspan_inuse : Float64
  pub mspan_sys : Float64
  pub mallocs : Float64
  pub next_gc : Float64
  pub num_forced_gc : Float64
  pub num_gc : Float64
  pub other_sys : Float64
  pub pause_total_ns : Float64
  pub stack_inuse : Float64
  pub stack_sys : Float64
  pub sys : Float64
  pub total_alloc : Float64

-- What UpdateMetrics assigns, in its order; `random_value` is the result of rand.Float64.
unfoldable pub assignments : MemStats → Float64 → Assoc Float64
assignments m random_value =
    ("Alloc", m.alloc)
    ∷ ("BuckHashSys", m.buck_hash_sys)
    ∷ ("Frees", m.frees)
    ∷ ("GCCPUFraction", m.gc_cpu_fraction)
    ∷ ("GCSys", m.gc_sys)
    ∷ ("HeapAlloc", m.heap_alloc)
    ∷ ("HeapIdle", m.heap_idle)
    ∷ ("HeapInuse", m.heap_inuse)
    ∷ ("HeapObjects", m.heap_objects)
    ∷ ("HeapReleased", m.heap_released)
    ∷ ("HeapSys", m.heap_sys)
    ∷ ("LastGC", m.last_gc)
    ∷ ("Lookups", m.lookups)
    ∷ ("MCacheInuse", m.mcache_inuse)
    ∷ ("MCacheSys", m.mcache_sys)
    ∷ ("MSpanInuse", m.mspan_inuse)
    ∷ ("MSpanSys", m.mspan_sys)
    ∷ ("Mallocs", m.mallocs)
    ∷ ("NextGC", m.next_gc)
    ∷ ("NumForcedGC", m.num_forced_gc)
    ∷ ("NumGC", m.num_gc)
    ∷ ("OtherSys", m.other_sys)
    ∷ ("PauseTotalNs", m.pause_total_ns)
    ∷ ("StackInuse", m.stack_inuse)
    ∷ ("StackSys", m.stack_sys)
    ∷ ("Sys", m.sys)
    ∷ ("TotalAlloc", m.total_alloc)
    ∷ ("RandomValue", random_value)
    ∷ []

unfoldable pub update_metrics : MemStats → Float64 → Collector → Collector
unfolding assignments
update_metrics m random_value c = record c {
  gauge = copy_into c.gauge (assignments m random_value);
  counter = insert "PollCount" (add64 (value_or_zero (lookup "PollCount" c.counter)) 1) c.counter;
}

abbrev set_memory : Option (Float64 × Float64) → Assoc Float64 → Assoc Float64
set_memory none gauge = gauge
set_memory (some (total, free)) gauge = insert "FreeMemory" free (insert "TotalMemory" total gauge)

-- The loop over the CPUs; `cpu_name` is the text that Sprintf makes of an index.
unfoldable pub set_cpus : (ℕ → String) → ℕ → List Float64 → Assoc Float64 → Assoc Float64
set_cpus cpu_name i [] gauge = gauge
set_cpus cpu_name i (p ∷ percs) gauge =
    set_cpus cpu_name (suc i) percs (insert (cpu_name i) p gauge)

abbrev set_percs : (ℕ → String) → Option (List Float64) → Assoc Float64 → Assoc Float64
set_percs cpu_name none gauge = gauge
set_percs cpu_name (some percs) gauge = set_cpus cpu_name 1 percs gauge

-- What gopsutil returns of the memory and of the CPUs, or none where it fails.
unfoldable pub update_gopsutil_metrics :
    (ℕ → String) → Option (Float64 × Float64) → Option (List Float64) → Collector → Collector
unfolding set_cpus
update_gopsutil_metrics cpu_name memory percs c = record c {
  gauge = set_percs cpu_name percs (set_memory memory c.gauge);
}

-- The three copies; `visit` is the order in which `range` visits the maps.
unfoldable pub get_gauges : Visit → Collector → Assoc Float64
get_gauges visit c = copy_into [] (visit.gauges c.gauge)

unfoldable pub get_counters : Visit → Collector → Assoc Int64
get_counters visit c = copy_into [] (visit.counters c.counter)

unfoldable pub get_all_metrics : Visit → Collector → List Metrics
get_all_metrics visit c =
    map gauge_entry (visit.gauges c.gauge) ++ map counter_entry (visit.counters c.counter)

unfoldable pub get_metrics_count : Collector → ℕ × ℕ
get_metrics_count c = (length c.gauge, length c.counter)

-- The collector, and whether sendBatch is started.
unfoldable pub add_metric : Metrics → Collector → Collector × Bool
add_metric m c =
    let buffer : List Metrics = c.buffer ++ (m ∷ []) in
    (record c { buffer = buffer }, leb c.batch_size (length buffer))

-- One tick of the flusher: whether sendBatch is started.
unfoldable pub flush_tick : Collector → Bool
flush_tick c = elim c.buffer [ [] ↦ false | x ∷ xs ↦ true ]

-- The errors of trySendBatch: those that backoff.Permanent marks, and the others.
pub data TryError : Type 0 where
  permanent transient : TryError

abbrev pub batch_post : Gzip → String → Bytes → Post
batch_post gzip endpoint b = record {
  url = String.◌++◌ endpoint "/updates";
  header = insert "Content-Type" "application/json" (insert "Content-Encoding" "gzip" []);
  body = gzip.gzip b;
}

-- `timeout` is Timeout of the net.Error that errors.As finds.
module _ {N E : Type 0} (json : Json) (gzip : Gzip) (net : Net N E) (timeout : E → Bool) where
  abbrev pub is_retriable_error : E → Bool
  is_retriable_error e = net.is_net_error e && timeout e

  abbrev pub tried : E ⊎ ℕ → Option TryError
  tried (inl e) = if is_retriable_error e then some transient else some permanent
  tried (inr code) = if leb 500 code then some transient else none

  abbrev pub try_post : Post → N → N × Option TryError
  try_post post n = elim (net.bad_url post.url) [
    | some e ↦ (n, some permanent)
    | none ↦ let (n', answer) = net.client_do post n in (n', tried answer)
  ]

  unfoldable pub try_send_batch : String → List Metrics → N → N × Option TryError
  try_send_batch endpoint buffer n = elim (json.encode_metrics buffer) [
    | none ↦ (n, some permanent)
    | some b ↦ try_post (batch_post gzip endpoint b) n
  ]

  -- `retry` is backoff.Retry with the strategy of the program: the error that it ends with, or none.
  module _ (retry : (N → N × Option TryError) → N → N × Option TryError) where
    abbrev pub cleared : Option TryError → Collector → Collector
    cleared none c = record c { buffer = [] }
    cleared (some e) c = c

    -- The end of sendBatch: the retries with what is then in the buffer.
    unfoldable pub retry_batch : Collector → N → Collector × N
    unfolding try_send_batch
    retry_batch c n =
        let (n', e) = retry (try_send_batch c.endpoint c.buffer) n in (cleared e c, n')

    abbrev pub after_answer : Collector → N × (E ⊎ ℕ) → Collector × N
    after_answer c (n, inl e) = (c, n)
    after_answer c (n, inr code) =
        retry_batch (if eqb code 200 then record c { buffer = [] } else c) n

    abbrev pub send_post : Post → Collector → N → Collector × N
    send_post post c n = elim (net.bad_url post.url) [
      | some e ↦ (c, n)
      | none ↦ after_answer c (net.client_do post n)
    ]

    abbrev pub send_encoded : Option Bytes → Collector → N → Collector × N
    send_encoded none c n = (c, n)
    send_encoded (some b) c n = send_post (batch_post gzip c.endpoint b) c n

    abbrev pub send_buffer : List Metrics → Collector → N → Collector × N
    send_buffer [] c n = (c, n)
    send_buffer (x ∷ xs) c n = send_encoded (json.encode_metrics (x ∷ xs)) c n

    unfoldable pub send_batch : Collector → N → Collector × N
    unfolding retry_batch
    send_batch c n = send_buffer c.buffer c n
