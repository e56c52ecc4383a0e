-- ===== src/Agent/Collector/Sent.antt =====
-- What sendBatch has had answered when it has emptied the buffer.
use mathlib.Core.List.{Memᴰ}
use mathlib.Core.List.Memᴰ.{head, append_left, append_right}
use study_project_metrics_an.Base.{
  ℕ, zero, suc, sym, ap, ◌∙◌, String, ◌≡◌, ◌⊎◌, inl, inr, refl, Bool, Bool-cases, Option, none,
  some, Option-cases, List, [], ◌∷◌, ◌++◌, append_assoc, append-nil, arith, eqb, ◌<◌,
}
use study_project_metrics_an.Model.{Metrics}
use study_project_metrics_an.Wire.{Bytes, Json, Gzip}
use study_project_metrics_an.Agent.{Post, Net}
use study_project_metrics_an.Agent.Collector.{
  Collector, TryError, try_send_batch, batch_post, tried, try_post, after_answer, send_post,
  send_encoded, send_buffer, retry_batch, send_batch,
}
use study_project_metrics_an.Agent.Collector.Flush.{again, IsRetry, tried-none}
use study_project_metrics_an.Agent.Collector.Goroutines.{Log, noted, recorded}

-- A later log.
abbrev pub Grows : Log → Log → Type 0
Grows old new = (extra : Log) × (new ≡ old ++ extra)

Grows-refl : (l : Log) → Grows l l
Grows-refl l = ([], sym (append-nil l))

pub Grows-trans : (a b c : Log) → Grows a b → Grows b c → Grows a c
Grows-trans a b c (x, p) (y, q) = (x ++ y, q ∙ ap (λ t. t ++ y) p ∙ append_assoc a x y)

module _ {N E : Type 0} (json : Json) (gzip : Gzip) (net : Net N E) (timeout : E → Bool) where
  -- The batch was posted, and answered with a status below 500.
  abbrev pub IsSent : String → List Metrics → Log → Type 0
  IsSent endpoint batch log =
      (b : Bytes) × (code : ℕ) × (json.encode_metrics batch ≡ some b)
      × Memᴰ (batch_post gzip endpoint b, code) log
      × (code < 500)

  pub IsSent-Grows :
      (endpoint : String) (batch : List Metrics) (old new : Log)
      → Grows old new
      → IsSent endpoint batch old
      → IsSent endpoint batch new
  IsSent-Grows endpoint batch old new (extra, e) (b, code, encoded, m, below) =
      (b, code, encoded, rw e (append_left extra m), below)

  abbrev W : Type 0
  W = N × Log

  -- The same of a network that records its answers.
  abbrev net' : Net W E
  net' = recorded net

  try_post-Grows : (post : Post) (w : W) → Grows w.1 (try_post json gzip net' timeout post w).0.1
  try_post-Grows post w = elim (Option-cases (net.bad_url post.url)) [
    | inr (e, bad) ↦ rw (bad, try_post) (Grows-refl w.1)
    | inl good ↦ rw (good, try_post) (noted post (net.client_do post w.0).1, refl)
  ]

  try_post-noted :
      (post : Post) (w : W)
      → (try_post json gzip net' timeout post w).1 ≡ none
      → (code : ℕ) × Memᴰ (post, code) (try_post json gzip net' timeout post w).0.1 × (code < 500)
  try_post-noted post w h = elim (Option-cases (net.bad_url post.url)) [
    | inr (e, bad) ↦ ground arith
    | inl good ↦
        let fine : tried json gzip net' timeout (net.client_do post w.0).1 ≡ none = ground arith in
        let (code, answer, below) =
          tried-none json gzip net' timeout (net.client_do post w.0).1 fine in
        (code, rw (good, try_post) (rw answer (append_right w.1 (head refl))), below)
  ]

  try_send_batch-Grows :
      (endpoint : String) (buffer : List Metrics) (w : W)
      → Grows w.1 (try_send_batch json gzip net' timeout endpoint buffer w).0.1
  unfolding try_send_batch
  try_send_batch-Grows endpoint buffer w = elim (Option-cases (json.encode_metrics buffer)) [
    | inl bad ↦ rw (bad, try_send_batch) (Grows-refl w.1)
    | inr (b, good) ↦ rw (good, try_send_batch) (try_post-Grows (batch_post gzip endpoint b) w)
  ]

  try_send_batch-IsSent :
      (endpoint : String) (buffer : List Metrics) (w : W)
      → (try_send_batch json gzip net' timeout endpoint buffer w).1 ≡ none
      → IsSent endpoint buffer (try_send_batch json gzip net' timeout endpoint buffer w).0.1
  unfolding try_send_batch
  try_send_batch-IsSent endpoint buffer w h = elim (Option-cases (json.encode_metrics buffer)) [
    | inl bad ↦ ground arith
    | inr (b, good) ↦
        let fine : (try_post json gzip net' timeout (batch_post gzip endpoint b) w).1 ≡ none =
          rw (good, try_send_batch) at h in
        let (code, m, below) = try_post-noted (batch_post gzip endpoint b) w fine in
        (b, code, good, rw (good, try_send_batch) m, below)
  ]

  again-Grows :
      (op : W → W × Option TryError)
      → ((w : W) → Grows w.1 (op w).0.1)
      → (k : ℕ) (w : W) → Grows w.1 (again op k w).1
  unfolding again
  again-Grows op grows zero w = Grows-refl w.1
  again-Grows op grows (suc k) w =
      Grows-trans w.1 (op w).0.1 (again op k (op w).0).1 (grows w) (again-Grows op grows k (op w).0)

  module _ (retry : (W → W × Option TryError) → W → W × Option TryError) (law : IsRetry retry) where
    -- The buffer is as it was, or empty and its metrics have been sent.
    abbrev pub IsDone : Collector → Log → Collector × W → Type 0
    IsDone c log (c', w') =
        Grows log w'.1
        × ((c' ≡ c) ⊎ ((c' ≡ record c { buffer = [] }) × IsSent c.endpoint c.buffer w'.1))

    retry_batch-IsDone :
        (c : Collector) (w : W) → IsDone c w.1 (retry_batch json gzip net' timeout retry c w)
    unfolding retry_batch
    retry_batch-IsDone c w =
        let op = try_send_batch json gzip net' timeout c.endpoint c.buffer in
        let (k, e) = law.last op w in
        let before = again op k w in
        let grows : Grows w.1 (retry op w).0.1 = rw e (
          Grows-trans w.1 before.1 (op before).0.1
            (again-Grows op (try_send_batch-Grows c.endpoint c.buffer) k w)
            (try_send_batch-Grows c.endpoint c.buffer before)) in
        elim (Option-cases (retry op w).1) [
          | inr (err, failed) ↦ rw failed (grows, inl refl)
          | inl done ↦
              let fine : (op before).1 ≡ none = sym (ap (λ t. t.1) e) ∙ done in
              let sent : IsSent c.endpoint c.buffer (retry op w).0.1 =
                rw e (try_send_batch-IsSent c.endpoint c.buffer before fine) in
              rw done (grows, inr (refl, sent))
        ]

    after_answer-IsDone :
        (b : Bytes) (c : Collector) (log : Log) (n : N) (a : E ⊎ ℕ)
        → json.encode_metrics c.buffer ≡ some b
        → IsDone c log (
            after_answer json gzip net' timeout retry c
              ((n, log ++ noted (batch_post gzip c.endpoint b) a), a))
    after_answer-IsDone b c log n (inl e) encoded = (([], refl), inl refl)
    after_answer-IsDone b c log n (inr code) encoded =
        let entry : Log = (batch_post gzip c.endpoint b, code) ∷ [] in
        elim (Bool-cases (eqb code 200)) [
          | inr other ↦
              let (grows, done) = retry_batch-IsDone c (n, log ++ entry) in
              rw other (Grows-trans log (log ++ entry) _ (entry, refl) grows, done)
          | inl fine ↦
              let (grows, done) = retry_batch-IsDone (record c { buffer = [] }) (n, log ++ entry) in
              let sent : IsSent c.endpoint c.buffer (log ++ entry) =
                (b, code, encoded, append_right log (head refl), ground arith) in
              rw fine (
                Grows-trans log (log ++ entry) _ (entry, refl) grows,
                inr (
                  elim done [ inl e ↦ e | inr (e, _) ↦ e ],
                  IsSent-Grows c.endpoint c.buffer (log ++ entry) _ grows sent,
                ),
              )
        ]

    send_post-IsDone :
        (b : Bytes) (c : Collector) (w : W)
        → json.encode_metrics c.buffer ≡ some b
        → IsDone c w.1 (send_post json gzip net' timeout retry (batch_post gzip c.endpoint b) c w)
    send_post-IsDone b c w encoded =
        let post = batch_post gzip c.endpoint b in
        let (n, a) = net.client_do post w.0 in
        elim (Option-cases (net.bad_url post.url)) [
          | inr (e, bad) ↦ rw (bad, send_post) (Grows-refl w.1, inl refl)
          | inl good ↦ rw (good, send_post) (after_answer-IsDone b c w.1 n a encoded)
        ]

    send_buffer-IsDone :
        (buffer : List Metrics) (c : Collector) (w : W)
        → c.buffer ≡ buffer
        → IsDone c w.1 (send_buffer json gzip net' timeout retry buffer c w)
    send_buffer-IsDone [] c w h = (Grows-refl w.1, inl refl)
    send_buffer-IsDone (x ∷ xs) c w h = elim (Option-cases (json.encode_metrics (x ∷ xs))) [
      | inl bad ↦ rw (bad, send_encoded) (Grows-refl w.1, inl refl)
      | inr (b, good) ↦
          rw (good, send_encoded) (send_post-IsDone b c w (ap json.encode_metrics h ∙ good))
    ]

    -- sendBatch changes nothing of the collector but the buffer, which it empties only after the
    -- very metrics of the buffer were posted and answered with a status below 500.
    pub send_batch-IsDone :
        (c : Collector) (w : W) → IsDone c w.1 (send_batch json gzip net' timeout retry c w)
    unfolding send_batch
    send_batch-IsDone c w = send_buffer-IsDone c.buffer c w refl
