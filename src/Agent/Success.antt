-- ===== src/Agent/Success.antt =====
-- What it means that a send of the agent returns no error.
use Prim.Native.String
use study_project_metrics_an.Base.{
  ℕ, String, ◌≡◌, ◌⊎◌, inl, inr, refl, sym, ◌∙◌, ap, Bool, Option, none, some, Option-cases, List,
  [], ◌∷◌, arith,
}
use study_project_metrics_an.Model.{Metrics}
use study_project_metrics_an.Wire.{Bytes}
use study_project_metrics_an.Crypto.{CryptoError, Result, ok, err}
use study_project_metrics_an.Retry.{retry_on_conn_err}
use study_project_metrics_an.Retry.Laws.{retry_on_conn_err-eq-with_retry, with_retry-success}
use study_project_metrics_an.Agent.{
  context_done, is_retriable_net_error, Sender, Net, Codec, Post, post_header, seal_payload,
  answered, send_payload, post, send_batch, posted,
}

some_not_none : {A : Type 0} {a : A} → some a ≡ none → ⊥
some_not_none h = cc

Result-cases :
    {A : Type 0} (r : Result A) → ((a : A) × (r ≡ ok a)) ⊎ ((e : CryptoError) × (r ≡ err e))
Result-cases (ok a) = inl (a, refl)
Result-cases (err e) = inr (e, refl)

module _ {PublicKey PrivateKey N E : Type 0} (codec : Codec PublicKey PrivateKey) (net : Net N E)
    (s : Sender PublicKey) where
  -- A payload sealed from these bytes was posted with the agent's headers, and answered with 200.
  abbrev pub IsAcknowledged : Bytes → Type 0
  IsAcknowledged b =
      (n : N) × (p : Post) × (payload : Bytes) × (content_encoding : String) × ((seal_payload codec
          net s b n).1
        ≡ ok (payload, content_encoding))
      × (p.body ≡ payload)
      × (p.header ≡ post_header codec s content_encoding b)
      × ((m : N) × ((net.client_do p m).1 ≡ inr 200))

  answered-none : (a : E ⊎ ℕ) → answered codec net s a ≡ none → a ≡ inr 200
  answered-none (inl e) h = ground arith
  answered-none (inr code) h = let same : code ≡ 200 = ground arith in ap inr same

  send_payload-none :
      (path : String) (b payload : Bytes) (content_encoding : String) (n : N)
      → (send_payload codec net s path b (payload, content_encoding) n).1 ≡ none
      → (p : Post) × (p.body ≡ payload)
        × (p.header ≡ post_header codec s content_encoding b)
        × ((net.client_do p n).1 ≡ inr 200)
  unfolding send_payload
  send_payload-none path b payload content_encoding n h =
      let p : Post = record {
        url = String.◌++◌ s.base_url path;
        header = post_header codec s content_encoding b;
        body = payload;
      } in
      elim (Option-cases (net.bad_url p.url)) [
        | inr (e, bad) ↦ elim (some_not_none (rw (bad, send_payload) at h)) [ ]
        | inl good ↦
            (p, refl, refl, answered-none (net.client_do p n).1 (rw (good, send_payload) at h))
      ]

  post-IsAcknowledged :
      (path : String) (b : Bytes) (n : N) → (post codec net s path b n).1 ≡ none → IsAcknowledged b
  unfolding post
  post-IsAcknowledged path b n h = elim (Result-cases (seal_payload codec net s b n).1) [
    | inr (e, failed) ↦ elim (some_not_none (rw (failed, post) at h)) [ ]
    | inl ((payload, content_encoding), sealed) ↦
        let (p, body, header, answer) =
          send_payload-none path b payload content_encoding (seal_payload codec net s b n).0
            (rw (sealed, post) at h) in
        (
          n,
          p,
          payload,
          content_encoding,
          sealed,
          body,
          header,
          ((seal_payload codec net s b n).0, answer),
        )
  ]

  module _ (ends : ℕ → Bool) where
    retried-IsAcknowledged :
        (path : String) (b : Bytes) (n : N)
        → (retry_on_conn_err
            (post codec net s path b)
            (is_retriable_net_error net.is_net_error)
            ends
            context_done
            n).1
          ≡ none
        → IsAcknowledged b
    retried-IsAcknowledged path b n h =
        let same =
          retry_on_conn_err-eq-with_retry (post codec net s path b)
            (is_retriable_net_error net.is_net_error) ends context_done n in
        let h' = sym (ap (λ r. r.1) same) ∙ h in
        let (t, last) =
          with_retry-success (post codec net s path b) (is_retriable_net_error net.is_net_error)
            ends context_done n h' in
        post-IsAcknowledged path b t (ap (λ r. r.1) last ∙ h')

    posted-IsAcknowledged :
        (path : String) (o : Option Bytes) (n : N)
        → (posted codec net s ends path o n).1 ≡ none
        → (b : Bytes) × (o ≡ some b) × IsAcknowledged b
    posted-IsAcknowledged path none n h = elim (some_not_none h) [ ]
    posted-IsAcknowledged path (some b) n h = (b, refl, retried-IsAcknowledged path b n h)

    -- A batch that SendBatch reports as sent was received: if it returns no error, there was nothing
    -- to send, or the batch was encoded, and a request with the sealed bytes and the headers that
    -- belong to them was answered with the status 200.
    pub send_batch-IsAcknowledged :
        (xs : List Metrics) (n : N)
        → (send_batch codec net s ends xs n).1 ≡ none
        → (xs ≡ []) ⊎ ((b : Bytes) × (codec.json.encode_metrics xs ≡ some b) × IsAcknowledged b)
    unfolding send_batch
    send_batch-IsAcknowledged [] n h = inl refl
    send_batch-IsAcknowledged (x ∷ xs) n h =
        inr (posted-IsAcknowledged "/updates" (codec.json.encode_metrics (x ∷ xs)) n h)
