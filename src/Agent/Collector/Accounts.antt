-- ===== src/Agent/Collector/Accounts.antt =====
-- Where every metric is that AddMetric got, whatever order the goroutines of the collector move in.
use mathlib.Core.Path.{subst}
use mathlib.Core.List.{flatten}
use study_project_metrics_an.Base.{
  Bool, Option, String, sym, ap, ◌∙◌, ◌≡◌, inl, inr, refl, List, [], ◌∷◌, ◌++◌, append_assoc,
  append-nil, All, All-append, All-map,
}
use study_project_metrics_an.Model.{Metrics}
use study_project_metrics_an.Wire.{Json, Gzip}
use study_project_metrics_an.Agent.{Net}
use study_project_metrics_an.Agent.Collector.{
  Collector, TryError, send_batch, add_metric, update_metrics, update_gopsutil_metrics,
}
use study_project_metrics_an.Agent.Collector.Flush.{IsRetry}
use study_project_metrics_an.Agent.Collector.Sent.{IsSent, IsSent-Grows, send_batch-IsDone}
use study_project_metrics_an.Agent.Collector.Goroutines.{
  Log, recorded, State, start, Step, poll, poll_gopsutil, add, start_flusher, tick, send, Reach,
  here, next,
}

flatten-append_last :
    {A : Type 0} (xs : List (List A)) (ys : List A) → flatten (xs ++ (ys ∷ [])) ≡ flatten xs ++ ys
unfolding flatten
flatten-append_last [] ys = append-nil ys
flatten-append_last (x ∷ xs) ys =
    ap (λ t. x ++ t) (flatten-append_last xs ys) ∙ sym (append_assoc x (flatten xs) ys)

module _ {N E : Type 0} (json : Json) (gzip : Gzip) (net : Net N E) (timeout : E → Bool)
    (retry : (N × Log → (N × Log) × Option TryError) → N × Log → (N × Log) × Option TryError)
    (law : IsRetry retry) where
  abbrev W : Type 0
  W = N × Log

  abbrev SentAll : String → List (List Metrics) → Log → Type 0
  SentAll endpoint batches log =
      All (λ batch. IsSent json gzip net timeout endpoint batch log) batches

  -- What was added is what was sent, batch by batch, and then the buffer.
  abbrev pub IsAccounted : String → List Metrics → Collector → Log → Type 0
  IsAccounted endpoint added c log =
      (c.endpoint ≡ endpoint)
      × (batches : List (List Metrics)) × (flatten batches ++ c.buffer ≡ added)
      × SentAll endpoint batches log

  send_batch-IsAccounted :
      (endpoint : String) (added : List Metrics) (c : Collector) (w : W)
      → IsAccounted endpoint added c w.1
      → IsAccounted endpoint added
          (send_batch json gzip (recorded net) timeout retry c w).0
          (send_batch json gzip (recorded net) timeout retry c w).1.1
  send_batch-IsAccounted endpoint added c w (same, batches, e, sent) =
      let (grows, done) = send_batch-IsDone json gzip net timeout retry law c w in
      let (c', w') = send_batch json gzip (recorded net) timeout retry c w in
      let kept : SentAll endpoint batches w'.1 =
        All-map (λ batch. IsSent-Grows json gzip net timeout endpoint batch w.1 w'.1 grows) batches
          sent in
      elim done [
        | inl q ↦ rw q (same, batches, e, kept)
        | inr (q, s) ↦ rw q (
          same,
          batches ++ (c.buffer ∷ []),
          append-nil _ ∙ flatten-append_last batches c.buffer ∙ e,
          All-append _ batches (c.buffer ∷ []) kept
              (subst (λ t. IsSent json gzip net timeout t c.buffer w'.1) same s, tt),
        )
      ]

  step-IsAccounted :
      {s t : State W} {added ms : List Metrics} (endpoint : String)
      → Step json gzip (recorded net) timeout retry s ms t
      → IsAccounted endpoint added s.collector s.network.1
      → IsAccounted endpoint (added ++ ms) t.collector t.network.1
  unfolding add_metric update_metrics update_gopsutil_metrics
  step-IsAccounted {s} {added = added} endpoint (poll m r) i = rw (append-nil added) i
  step-IsAccounted {s} {added = added} endpoint (poll_gopsutil n m p) i = rw (append-nil added) i
  step-IsAccounted {s} {added = added} endpoint (add m) (same, batches, e, sent) = (
    same,
    batches,
    sym (append_assoc (flatten batches) s.collector.buffer (m ∷ [])) ∙ ap (λ t. t ++ (m ∷ [])) e,
    sent,
  )
  step-IsAccounted {s} {added = added} endpoint start_flusher i = rw (append-nil added) i
  step-IsAccounted {s} {added = added} endpoint (tick k h) i = rw (append-nil added) i
  step-IsAccounted {s} {added = added} endpoint (send k h) i =
      rw (append-nil added) (send_batch-IsAccounted endpoint added s.collector s.network i)

  -- Whatever order the goroutines move in, no metric is lost: the metrics that AddMetric got are, in
  -- their order, those of batches that were posted and answered with a status below 500, and then
  -- those of the buffer. The collector starts with an empty buffer, and
  -- backoff returns what the last of its runs did.
  pub Reach-IsAccounted :
      (c : Collector) (n : N) {s : State W} {added : List Metrics}
      → c.buffer ≡ []
      → Reach json gzip (recorded net) timeout retry (start c (n, [])) added s
      → IsAccounted c.endpoint added s.collector s.network.1
  unfolding flatten
  Reach-IsAccounted c n empty here = (refl, [], empty, tt)
  Reach-IsAccounted c n empty (next r step) =
      step-IsAccounted c.endpoint step (Reach-IsAccounted c n empty r)
