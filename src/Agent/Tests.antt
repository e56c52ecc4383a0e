-- ===== src/Agent/Tests.antt =====
-- An agent that polls, seals and posts, in front of a concrete server and a concrete network.
use study_project_metrics_an.Base.{
  ℕ, suc, ◌≡◌, inr, refl, Bool, true, false, none, some, [], ◌∷◌, ◌++◌, arith,
}
use study_project_metrics_an.Base.Assoc.{lookup}
use study_project_metrics_an.Wire.{Bytes, whole}
use study_project_metrics_an.Http.{Request}
use study_project_metrics_an.Crypto.{ok, encrypt}
use study_project_metrics_an.Storage.Memory.{new_mem_storage, get_gauge, get_counter, found}
use study_project_metrics_an.Fixtures.{listed, listed-IsVisit, gauge_a, toy_json, toy_gzip-IsGzip}
use study_project_metrics_an.Middleware.{chain}
use study_project_metrics_an.Middleware.Passage.{Gets}
use study_project_metrics_an.Middleware.Toy.{
  server, collect, marks-IsPair, full_random, full_random-IsFull,
}
use study_project_metrics_an.Agent
use study_project_metrics_an.Retry.{retry_on_conn_err, conn_loop}
use study_project_metrics_an.Agent.{post, send_payload, Sender, Net, post_header, seal_payload}
use study_project_metrics_an.Agent.Delivery.{codec_of, chain-seal_payload}
use study_project_metrics_an.Agent.Collector.{Collector, MemStats}
use study_project_metrics_an.Agent.Collector.Poll.{poll_count}
use study_project_metrics_an.Agent.Collector.Report.{IsValid}
use study_project_metrics_an.Agent.Collector.Repeated.{
  last_gauge, summed, after_reports, after_reports-reads,
}
use study_project_metrics_an.Storage.Memory.Batch.{raised}
use study_project_metrics_an.Storage.Memory.Snapshot.{over}

-- A network that counts the posts and answers each with 200.
abbrev net : Net ℕ ℕ
net = record {
  bad_url = λ u. none;
  random = λ n. (n, full_random);
  client_do = λ p n. (suc n, inr 200);
  is_net_error = λ e. true;
}

abbrev sender : Sender ℕ
sender = record {
  base_url = "http://server";
  key = "k";
  public_key = some 5;
  local_ip = "10.0.0.1";
}

abbrev sent : Bytes
sent =
    0 ∷ 33 ∷ 5 ∷ (1 ∷ 2 ∷ 3 ∷ 4 ∷ 5 ∷ 6 ∷ 7 ∷ 8 ∷ [])
    ++ ((1 ∷ 2 ∷ 3 ∷ 4 ∷ 5 ∷ 6 ∷ 7 ∷ 8 ∷ [])
        ++ ((1 ∷ 2 ∷ 3 ∷ 4 ∷ 5 ∷ 6 ∷ 7 ∷ 8 ∷ [])
            ++ ((1 ∷ 2 ∷ 3 ∷ 4 ∷ 5 ∷ 6 ∷ 7 ∷ 8 ∷ [])
                ++ ((1 ∷ 2 ∷ 3 ∷ 4 ∷ 5 ∷ 6 ∷ 7 ∷ 8 ∷ [])
                    ++ (1 ∷ 2 ∷ 3 ∷ 4 ∷ 9 ∷ 31 ∷ 7 ∷ 7 ∷ [])))))

sealed :
    (seal_payload (codec_of server toy_json) net sender (7 ∷ 7 ∷ []) 0).1 ≡ ok (sent, "encrypted")
unfolding seal_payload encrypt
sealed = refl

abbrev request : Request
request = record {
  header = post_header (codec_of server toy_json) sender "encrypted" (7 ∷ 7 ∷ []);
  body = whole sent;
  remote_addr = "10.0.0.1:80";
  url_params = [];
  now = 0;
}

chain-seal_payload_example :
    Gets server collect [] (7 ∷ 7 ∷ []) request (chain server collect request [])
chain-seal_payload_example =
    chain-seal_payload server collect [] toy_json net sender toy_gzip-IsGzip
      (λ n. full_random-IsFull) (inr refl) (inr (0, 1, refl, refl, refl)) (7 ∷ 7 ∷ []) request 0
      sent "encrypted" (inr (5, 5, refl, refl, marks-IsPair)) sealed (refl, refl, refl, refl)

abbrev stats : MemStats
stats = record {
  alloc = 1;
  buck_hash_sys = 2;
  frees = 3;
  gc_cpu_fraction = 4;
  gc_sys = 5;
  heap_alloc = 6;
  heap_idle = 7;
  heap_inuse = 8;
  heap_objects = 9;
  heap_released = 10;
  heap_sys = 11;
  last_gc = 12;
  lookups = 13;
  mcache_inuse = 14;
  mcache_sys = 15;
  mspan_inuse = 16;
  mspan_sys = 17;
  mallocs = 18;
  next_gc = 19;
  num_forced_gc = 20;
  num_gc = 21;
  other_sys = 22;
  pause_total_ns = 23;
  stack_inuse = 24;
  stack_sys = 25;
  sys = 26;
  total_alloc = 27;
}

abbrev fresh : Collector
fresh = record { gauge = []; counter = []; buffer = []; batch_size = 2; endpoint = "" }

poll_count-zero : poll_count fresh ≡ 0
unfolding lookup
poll_count-zero = refl

abbrev holding : Collector
holding = record fresh {
  gauge = ("a", 7) ∷ [];
  counter = ("PollCount", 3) ∷ [];
  buffer = gauge_a 7 ∷ [];
}

holding-IsValid : IsValid holding
unfolding lookup
holding-IsValid = record {
  gauges_distinct = (refl, tt);
  counters_distinct = (refl, tt);
  in_range = λ k d h. ground arith;
}

after_reports-reads_example :
    (get_gauge "a" (after_reports listed (holding ∷ holding ∷ []) new_mem_storage)
      ≡ found (over (last_gauge "a" (holding ∷ holding ∷ [])) (lookup "a" new_mem_storage.gauges)))
    × (get_counter "a" (after_reports listed (holding ∷ holding ∷ []) new_mem_storage)
        ≡ found
            (raised (summed "a" (holding ∷ holding ∷ [])) (lookup "a" new_mem_storage.counters)))
after_reports-reads_example =
    after_reports-reads listed listed-IsVisit "a" (holding ∷ holding ∷ []) new_mem_storage
      (holding-IsValid, (holding-IsValid, tt))

abbrev never_ends : ℕ → Bool
never_ends e = false

sent_batch :
    (Agent.send_batch (codec_of server toy_json) net sender never_ends holding.buffer 0).1 ≡ none
unfolding Agent.send_batch post seal_payload send_payload post_header encrypt retry_on_conn_err
    conn_loop
sent_batch = refl
