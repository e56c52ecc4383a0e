-- ===== src/Agent.antt =====
-- internal/agent/sender.go: how the agent turns metrics into requests and sends them.
pub mod Delivery
pub mod Success
pub mod Collector
pub mod Main
pub mod Compress
pub mod Setup
pub mod GrpcMode
mod Tests
use Prim.Native.String
use study_project_metrics_an.Base.{
  ℕ, String, Bool, true, false, Option, none, some, List, [], ◌∷◌, ◌++◌, ◌==◌, ◌⊎◌, inl, inr, eqb,
  if◌then◌else◌,
}
use study_project_metrics_an.Base.Int64.{Int64}
use study_project_metrics_an.Base.Assoc.{Assoc, insert}
use study_project_metrics_an.Model.{Float64, Metrics, type_counter, type_gauge}
use study_project_metrics_an.Wire.{Bytes, Json, Gzip, Mac, whole}
use study_project_metrics_an.Http.{Header, Request}
use study_project_metrics_an.Crypto.{Cipher, Random, Result, CryptoError, ok, err, encrypt}
use study_project_metrics_an.Retry.{retry_on_conn_err}

-- The errors of a sender; `E` are those of net/http.
pub data SendError (E : Type 0) : Type 0 where
  marshal : SendError E
  encrypting : CryptoError → SendError E
  create_request : E → SendError E
  no_answer : E → SendError E
  server_returned : ℕ → SendError E
  context_done : SendError E

pub record Sender (PublicKey : Type 0) : Type 0 where
  pub base_url : String
  pub key : String
  pub public_key : Option PublicKey
  pub local_ip : String

-- A request of the client: where it goes, its headers and its body.
pub record Post : Type 0 where
  pub url : String
  pub header : Header
  pub body : Bytes

-- net/http and the random source on the state `N` of the network: the check of an URL, the answer
-- to a request, which is an error or a status, and errors.As with net.Error.
pub record Net (N E : Type 0) : Type 0 where
  pub bad_url : String → Option E
  pub random : N → N × Random
  pub client_do : Post → N → N × (E ⊎ ℕ)
  pub is_net_error : E → Bool

-- The libraries that the sender calls.
pub record Codec (PublicKey PrivateKey : Type 0) : Type 0 where
  pub json : Json
  pub gzip : Gzip
  pub mac : Mac
  pub cipher : Cipher PublicKey PrivateKey

unfoldable pub is_retriable_net_error : {E : Type 0} → (E → Bool) → SendError E → Bool
is_retriable_net_error net marshal = false
is_retriable_net_error net (encrypting e) = false
is_retriable_net_error net (create_request e) = net e
is_retriable_net_error net (no_answer e) = net e
is_retriable_net_error net (server_returned code) = false
is_retriable_net_error net context_done = false

module _ {PublicKey PrivateKey : Type 0} (codec : Codec PublicKey PrivateKey)
    (s : Sender PublicKey) where
  -- The headers that post sets.
  unfoldable pub post_header : String → Bytes → Header
  post_header content_encoding b =
      let typed : Header =
        insert "Content-Encoding" content_encoding (insert "Content-Type" "application/json" []) in
      let signed : Header =
        if s.key == "" then typed else insert "HashSHA256" (codec.mac b s.key) typed in
      if s.local_ip == "" then signed else insert "X-Real-IP" s.local_ip signed

module _ {PublicKey PrivateKey N E : Type 0} (codec : Codec PublicKey PrivateKey) (net : Net N E)
    (s : Sender PublicKey) where
  abbrev pub encrypted_payload : Result Bytes → Result (Bytes × String)
  encrypted_payload (err e) = err e
  encrypted_payload (ok encrypted) = ok (encrypted, "encrypted")

  -- The payload and its encoding.
  unfoldable pub seal_payload : Bytes → N → N × Result (Bytes × String)
  seal_payload b n = elim s.public_key [
    | none ↦ (n, ok (codec.gzip.gzip b, "gzip"))
    | some public_key ↦
        let (n', random) = net.random n in
        (n', encrypted_payload (encrypt codec.cipher random public_key (codec.gzip.gzip b)))
  ]

  abbrev pub answered : E ⊎ ℕ → Option (SendError E)
  answered (inl e) = some (no_answer e)
  answered (inr code) = if eqb code 200 then none else some (server_returned code)

  unfoldable pub send_payload : String → Bytes → Bytes × String → N → N × Option (SendError E)
  unfolding post_header
  send_payload path b (payload, content_encoding) n =
      let url : String = String.◌++◌ s.base_url path in
      let post : Post = record {
        url = url;
        header = post_header codec s content_encoding b;
        body = payload;
      } in
      elim (net.bad_url url) [
        | some e ↦ (n, some (create_request e))
        | none ↦ let (n', answer) = net.client_do post n in (n', answered answer)
      ]

  unfoldable pub post : String → Bytes → N → N × Option (SendError E)
  unfolding seal_payload send_payload
  post path b n =
      let (n', result) = seal_payload b n in
      elim result [ err e ↦ (n', some (encrypting e)) | ok sealed ↦ send_payload path b sealed n' ]

  -- `ends` says whether the context ends during a wait.
  module _ (ends : ℕ → Bool) where
    abbrev pub posted : String → Option Bytes → N → N × Option (SendError E)
    posted path none n = (n, some marshal)
    posted path (some b) n =
        retry_on_conn_err (post path b) (is_retriable_net_error net.is_net_error) ends context_done
          n

    unfoldable pub send_batch : List Metrics → N → N × Option (SendError E)
    unfolding is_retriable_net_error post
    send_batch [] n = (n, none)
    send_batch (x ∷ xs) n = posted "/updates" (codec.json.encode_metrics (x ∷ xs)) n

    -- sendJSON, which SendMetric passes on
    unfoldable pub send_json : Metrics → N → N × Option (SendError E)
    unfolding is_retriable_net_error post
    send_json x n = posted "/update" (codec.json.encode_metric x) n

    unfoldable pub send_gauge : String → Float64 → N → N × Option (SendError E)
    unfolding send_json
    send_gauge name value n =
        send_json
          (record { id = name; mtype = type_gauge; delta = none; value = some value; hash = "" }) n

    unfoldable pub send_counter : String → Int64 → N → N × Option (SendError E)
    unfolding send_json
    send_counter name value n =
        send_json
          (record { id = name; mtype = type_counter; delta = some value; value = none; hash = "" })
          n

    -- A loop that stops at the first error.
    unfoldable pub send_each :
        {V : Type 0}
        → (String → V → N → N × Option (SendError E))
        → Assoc V
        → N
        → N × Option (SendError E)
    send_each send [] n = (n, none)
    send_each send ((name, value) ∷ rest) n =
        let (n', e) = send name value n in
        let others = send_each send rest n' in
        elim e [ some failed ↦ (n', some failed) | none ↦ others ]

    -- The two maps are listed in the order in which `range` visits them.
    unfoldable pub send_all_metrics : Assoc Float64 → Assoc Int64 → N → N × Option (SendError E)
    unfolding send_each send_gauge send_counter
    send_all_metrics gauges counters n =
        let (n', e) = send_each send_gauge gauges n in
        let others = send_each send_counter counters n' in
        elim e [ some failed ↦ (n', some failed) | none ↦ others ]
