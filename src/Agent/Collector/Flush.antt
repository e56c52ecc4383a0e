-- ===== src/Agent/Collector/Flush.antt =====
-- When sendBatch empties the buffer, and what it posts.
use study_project_metrics_an.Base.{
  ℕ, zero, suc, sym, ap, ◌∙◌, String, ◌≡◌, ◌⊎◌, inl, inr, refl, Bool, false, Bool-cases, Option,
  none, some, Option-cases, List, [], ◌∷◌, arith, leb, eqb, ◌<◌,
}
use study_project_metrics_an.Model.{Metrics}
use study_project_metrics_an.Wire.{Bytes, Json, Gzip}
use study_project_metrics_an.Agent.{Post, Net}
use study_project_metrics_an.Agent.Collector.{
  Collector, TryError, try_send_batch, batch_post, tried, try_post, after_answer, send_post,
  send_encoded, send_buffer, retry_batch, send_batch,
}

-- The network after so many runs of an operation.
unfoldable pub again : {N : Type 0} → (N → N × Option TryError) → ℕ → N → N
again op zero n = n
again op (suc k) n = again op k (op n).0

-- backoff.Retry: a success ends it, and it returns what the last of its runs of the operation did.
pub record IsRetry {N : Type 0} (retry : (N → N × Option TryError) → N → N × Option TryError)
    : Type 0 where
  pub at_once :
      (op : N → N × Option TryError) (n n' : N) → op n ≡ (n', none) → retry op n ≡ (n', none)
  pub last : (op : N → N × Option TryError) (n : N) → (k : ℕ) × (retry op n ≡ op (again op k n))

module _ {N E : Type 0} (json : Json) (gzip : Gzip) (net : Net N E) (timeout : E → Bool) where
  pub tried-none :
      (a : E ⊎ ℕ)
      → tried json gzip net timeout a ≡ none
      → (code : ℕ) × (a ≡ inr code) × (code < 500)
  tried-none (inl e) h = ground arith
  tried-none (inr code) h = (code, refl, ground arith)

module _ {N E : Type 0} (json : Json) (gzip : Gzip) (net : Net N E) (timeout : E → Bool)
    (retry : (N → N × Option TryError) → N → N × Option TryError) (law : IsRetry retry) where
  -- A post was answered with this status.
  abbrev pub Answered : Post → ℕ → Type 0
  Answered post code = (m : N) × ((net.client_do post m).1 ≡ inr code)

  try_post-Answered :
      (post : Post) (m : N)
      → (try_post json gzip net timeout post m).1 ≡ none
      → (code : ℕ) × Answered post code × (code < 500)
  try_post-Answered post m h = elim (Option-cases (net.bad_url post.url)) [
    | inr (e, bad) ↦ ground arith
    | inl good ↦
        let answered : tried json gzip net timeout (net.client_do post m).1 ≡ none = ground arith in
        let (code, answer, below) =
          tried-none json gzip net timeout (net.client_do post m).1 answered in
        (code, (m, answer), below)
  ]

  try_send_batch-Answered :
      (endpoint : String) (buffer : List Metrics) (m : N)
      → (try_send_batch json gzip net timeout endpoint buffer m).1 ≡ none
      → (b : Bytes) × (code : ℕ) × (json.encode_metrics buffer ≡ some b)
        × Answered (batch_post gzip endpoint b) code
        × (code < 500)
  unfolding try_send_batch
  try_send_batch-Answered endpoint buffer m h = elim (Option-cases (json.encode_metrics buffer)) [
    | inl bad ↦ ground arith
    | inr (b, encoded) ↦
        let tried_b : (try_post json gzip net timeout (batch_post gzip endpoint b) m).1 ≡ none =
          rw (encoded, try_send_batch) at h in
        let (code, answer, below) = try_post-Answered (batch_post gzip endpoint b) m tried_b in
        (b, code, encoded, answer, below)
  ]

  -- Some post was answered with a status below 500.
  abbrev pub IsAnswered : Type 0
  IsAnswered = (post : Post) × (code : ℕ) × Answered post code × (code < 500)

  abbrev pub IsKept : List Metrics → List Metrics → Type 0
  IsKept old new = (new ≡ old) ⊎ ((new ≡ []) × IsAnswered)

  retry_batch-IsKept :
      (c : Collector) (n : N)
      → IsKept c.buffer (retry_batch json gzip net timeout retry c n).0.buffer
  unfolding retry_batch
  retry_batch-IsKept c n =
      elim (Option-cases (retry (try_send_batch json gzip net timeout c.endpoint c.buffer) n).1) [
        | inr (e, failed) ↦ inl (rw failed refl)
        | inl done ↦
            let op = try_send_batch json gzip net timeout c.endpoint c.buffer in
            let (k, e) = law.last op n in
            let m = again op k n in
            let success : (op m).1 ≡ none = sym (ap (λ t. t.1) e) ∙ done in
            let (b, code, encoded, answer, below) =
              try_send_batch-Answered c.endpoint c.buffer m success in
            inr (rw done refl, (batch_post gzip c.endpoint b, code, answer, below))
      ]

  after_answer-IsKept :
      (post : Post) (c : Collector) (m : N) (a : E ⊎ ℕ)
      → (net.client_do post m).1 ≡ a
      → IsKept c.buffer
          (after_answer json gzip net timeout retry c ((net.client_do post m).0, a)).0.buffer
  after_answer-IsKept post c m (inl e) h = inl refl
  after_answer-IsKept post c m (inr code) h = elim (Bool-cases (eqb code 200)) [
    | inr other ↦ rw other (retry_batch-IsKept c (net.client_do post m).0)
    | inl fine ↦ rw fine (
        inr (
          elim (retry_batch-IsKept (record c { buffer = [] }) (net.client_do post m).0) [
            | inl e ↦ e
            | inr (e, _) ↦ e
          ],
          (post, code, (m, h), ground arith),
        ))
  ]

  send_post-IsKept :
      (post : Post) (c : Collector) (n : N)
      → IsKept c.buffer (send_post json gzip net timeout retry post c n).0.buffer
  send_post-IsKept post c n = elim (Option-cases (net.bad_url post.url)) [
    | inr (e, bad) ↦ inl (rw (bad, send_post) refl)
    | inl good ↦ rw (good, send_post) (after_answer-IsKept post c n (net.client_do post n).1 refl)
  ]

  send_buffer-IsKept :
      (buffer : List Metrics) (c : Collector) (n : N)
      → IsKept c.buffer (send_buffer json gzip net timeout retry buffer c n).0.buffer
  send_buffer-IsKept [] c n = inl refl
  send_buffer-IsKept (x ∷ xs) c n = elim (Option-cases (json.encode_metrics (x ∷ xs))) [
    | inl bad ↦ inl (rw (bad, send_encoded) refl)
    | inr (b, good) ↦ rw (good, send_encoded) (send_post-IsKept (batch_post gzip c.endpoint b) c n)
  ]

  -- No batch is lost without an answer: sendBatch leaves the buffer as it was, or empties it after
  -- a post that the server answered with a status below 500, where backoff reports success only
  -- after the operation did.
  pub send_batch-IsKept :
      (c : Collector) (n : N)
      → IsKept c.buffer (send_batch json gzip net timeout retry c n).0.buffer
  unfolding send_batch
  send_batch-IsKept c n = send_buffer-IsKept c.buffer c n

  try_send_batch-fine :
      (endpoint : String) (buffer : List Metrics) (n n' : N) (b : Bytes) (code : ℕ)
      → json.encode_metrics buffer ≡ some b
      → net.bad_url (batch_post gzip endpoint b).url ≡ none
      → net.client_do (batch_post gzip endpoint b) n ≡ (n', inr code)
      → leb 500 code ≡ false
      → try_send_batch json gzip net timeout endpoint buffer n ≡ (n', none)
  unfolding try_send_batch
  try_send_batch-fine endpoint buffer n n' b code encoded url answer below =
      rw (encoded, try_send_batch) (rw (url, try_post) (rw answer (rw below refl)))

  -- The second post of an accepted batch: once the server has answered a batch with 200, sendBatch
  -- posts an empty batch as well, and if that gets an answer below 500 the buffer is empty and
  -- these two are the posts that were made.
  pub send_batch-accepted :
      (c : Collector) (n n1 n2 : N) (x : Metrics) (xs : List Metrics) (b empty : Bytes) (code : ℕ)
      → c.buffer ≡ x ∷ xs
      → json.encode_metrics (x ∷ xs) ≡ some b
      → json.encode_metrics [] ≡ some empty
      → net.bad_url (batch_post gzip c.endpoint b).url ≡ none
      → net.client_do (batch_post gzip c.endpoint b) n ≡ (n1, inr 200)
      → net.client_do (batch_post gzip c.endpoint empty) n1 ≡ (n2, inr code)
      → leb 500 code ≡ false
      → send_batch json gzip net timeout retry c n ≡ (record c { buffer = [] }, n2)
  unfolding send_batch retry_batch
  send_batch-accepted c n n1 n2 x xs b empty code full eb ee url first second below =
      let once : try_send_batch json gzip net timeout c.endpoint [] n1 ≡ (n2, none) =
        try_send_batch-fine c.endpoint [] n1 n2 empty code ee url second below in
      let again = law.at_once (try_send_batch json gzip net timeout c.endpoint []) n1 n2 once in
      rw full (rw (eb, send_encoded) (rw (url, send_post) (rw first (rw again refl))))
