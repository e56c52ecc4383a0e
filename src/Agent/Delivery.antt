-- ===== src/Agent/Delivery.antt =====
-- What the agent posts is what the handler gets. Where the two ends share the libraries, gzip and
-- the encryption undo themselves, the random source fills its buffers, the server checks no key or
-- the agent's, the agent encrypts with no key or the one that belongs to the server's private key,
-- and its address is trusted: once a payload was sealed, the request that carries it and the
-- agent's headers passes all middlewares, and the handler is called with the bytes that the agent
-- started from as its whole body.
use study_project_metrics_an.Base.{
  String, ◌≡◌, ◌⊎◌, inl, inr, refl, sym, ◌∙◌, ap, true, false, none, some, arith, ◌==◌, eq_iff,
  if◌then◌else◌,
}
use study_project_metrics_an.Base.Assoc.{insert, remove, lookup, lookup-insert}
use study_project_metrics_an.Wire.{Bytes, whole, Json, IsGzip}
use study_project_metrics_an.Http.{Header, get_header, Request}
use study_project_metrics_an.Crypto.{ok, encrypt}
use study_project_metrics_an.Crypto.RoundTrip.{IsPair, IsFull}
use study_project_metrics_an.Middleware.{Serve, Config, chain, opened_body}
use study_project_metrics_an.Middleware.Guard.{
  get_header-remove, encoding_not_hash, encoding_not_ip,
}
use study_project_metrics_an.Middleware.Passage.{
  Gets, IsTrusted, IsSigned, chain-compressed, chain-encrypted, restricted-trusted,
  inflated-compressed, inflated-opened, opened_body-encrypt, accept_not_encoding,
  get_header-remove_self,
}
use study_project_metrics_an.Agent.{Sender, Net, Codec, post_header, seal_payload}

pub get_header-insert :
    (name other value : String) (h : Header)
    → get_header name (insert other value h) ≡ (if other == name then value else get_header name h)
unfolding get_header
get_header-insert name other value h = ground (arith, lookup-insert other name value h)

-- The three headers that the middlewares read, in what post sets.
module _ {PublicKey PrivateKey : Type 0} (codec : Codec PublicKey PrivateKey) (s : Sender PublicKey)
    (encoding : String) (b : Bytes) where
  post_header-encoding : get_header "Content-Encoding" (post_header codec s encoding b) ≡ encoding
  unfolding post_header get_header lookup insert
  post_header-encoding = ground arith

  pub post_header-hash :
      (s.key == "") ≡ false
      → get_header "HashSHA256" (post_header codec s encoding b) ≡ codec.mac b s.key
  unfolding post_header get_header lookup insert
  post_header-hash set = ground arith

  post_header-address : get_header "X-Real-IP" (post_header codec s encoding b) ≡ s.local_ip
  unfolding post_header get_header lookup insert
  post_header-address = ground (arith, eq_iff s.local_ip "")

module _ {Ip Subnet PublicKey PrivateKey : Type 0}
    (cfg : Config Ip Subnet PublicKey PrivateKey) where
  -- The agent is built with the libraries of the server.
  abbrev pub codec_of : Json → Codec PublicKey PrivateKey
  codec_of json = record { json = json; gzip = cfg.gzip; mac = cfg.mac; cipher = cfg.cipher }

  -- The agent does not encrypt, or with the key that belongs to that of the server.
  abbrev pub IsMatched : Sender PublicKey → Type 0
  IsMatched s =
      (s.public_key ≡ none)
      ⊎ ((public_key : PublicKey) × (private_key : PrivateKey) × (s.public_key ≡ some public_key)
          × (cfg.private_key ≡ some private_key)
          × IsPair cfg.cipher public_key private_key)

  -- A request of the server that carries a post: its payload, and of the headers that post sets those
  -- that the middlewares read; a client adds others.
  abbrev pub IsArrival : Json → Sender PublicKey → Bytes → Bytes × String → Request → Type 0
  IsArrival json s b (payload, content_encoding) r =
      let header : Header = post_header (codec_of json) s content_encoding b in
      (r.body ≡ whole payload)
      × (get_header "Content-Encoding" r.header ≡ get_header "Content-Encoding" header)
      × (get_header "HashSHA256" r.header ≡ get_header "HashSHA256" header)
      × (get_header "X-Real-IP" r.header ≡ get_header "X-Real-IP" header)

module _ {Ip Subnet PublicKey PrivateKey N E : Type 0} (cfg : Config Ip Subnet PublicKey PrivateKey)
    (json : Json) (net : Net N E) (s : Sender PublicKey) where
  seal_payload-plain :
      (b : Bytes) (n : N) (payload : Bytes) (content_encoding : String)
      → s.public_key ≡ none
      → (seal_payload (codec_of cfg json) net s b n).1 ≡ ok (payload, content_encoding)
      → (payload ≡ cfg.gzip.gzip b) × (content_encoding ≡ "gzip")
  unfolding seal_payload
  seal_payload-plain b n payload content_encoding off done = ground arith

  seal_payload-encrypted :
      (b : Bytes) (n : N) (payload : Bytes) (content_encoding : String) (public_key : PublicKey)
      → s.public_key ≡ some public_key
      → (seal_payload (codec_of cfg json) net s b n).1 ≡ ok (payload, content_encoding)
      → (encrypt cfg.cipher (net.random n).1 public_key (cfg.gzip.gzip b) ≡ ok payload)
        × (content_encoding ≡ "encrypted")
  unfolding seal_payload
  seal_payload-encrypted b n payload content_encoding public_key on done = ground arith

module _ {W Ip Subnet PublicKey PrivateKey N E : Type 0}
    (cfg : Config Ip Subnet PublicKey PrivateKey) (next : Serve W) (world : W) (json : Json)
    (net : Net N E) (s : Sender PublicKey) (gz : IsGzip cfg.gzip)
    (full : (n : N) → IsFull (net.random n).1) (keys : ((cfg.key == "") ≡ true) ⊎ (cfg.key ≡ s.key))
    (trusted : IsTrusted cfg next world s.local_ip) (b : Bytes) (r : Request) where
  arrival-IsSigned :
      (payload : Bytes) (content_encoding : String)
      → IsArrival cfg json s b (payload, content_encoding) r
      → IsSigned cfg next world b r
  arrival-IsSigned payload content_encoding (body, encoding, hash, address) set = elim keys [
    | inl off ↦ cc
    | inr same ↦
        hash
        ∙ (post_header-hash (codec_of cfg json) s content_encoding b (rw⁻¹ same set)
            ∙ ap (cfg.mac b) (sym same))
  ]

  arrival-address :
      (payload : Bytes) (content_encoding : String)
      → IsArrival cfg json s b (payload, content_encoding) r
      → get_header "X-Real-IP" r.header ≡ s.local_ip
  arrival-address payload content_encoding (body, encoding, hash, address) =
      address ∙ post_header-address (codec_of cfg json) s content_encoding b

  arrival-encoding :
      (payload : Bytes) (content_encoding : String)
      → IsArrival cfg json s b (payload, content_encoding) r
      → get_header "Content-Encoding" r.header ≡ content_encoding
  arrival-encoding payload content_encoding (body, encoding, hash, address) =
      encoding ∙ post_header-encoding (codec_of cfg json) s content_encoding b

  chain-plain :
      (n : N) (payload : Bytes) (content_encoding : String)
      → s.public_key ≡ none
      → (seal_payload (codec_of cfg json) net s b n).1 ≡ ok (payload, content_encoding)
      → IsArrival cfg json s b (payload, content_encoding) r
      → Gets cfg next world b r (chain cfg next r world)
  chain-plain n payload content_encoding off done arrival =
      let (zipped, gzip) =
        seal_payload-plain cfg json net s b n payload content_encoding off done in
      let encoding : get_header "Content-Encoding" r.header ≡ "gzip" =
        arrival-encoding payload content_encoding arrival ∙ gzip in
      let address = arrival-address payload content_encoding arrival in
      let (r', same, e) =
        inflated-compressed cfg next world r b gz encoding (arrival.0 ∙ ap whole zipped)
          (arrival-IsSigned payload content_encoding arrival) in
      (
        r',
        same,
        chain-compressed cfg next world r encoding
            ∙ (restricted-trusted cfg next world r (rw address trusted) ∙ e),
      )

  chain-sealed :
      (n : N) (payload : Bytes) (content_encoding : String) (public_key : PublicKey)
      (private_key : PrivateKey)
      → s.public_key ≡ some public_key
      → cfg.private_key ≡ some private_key
      → IsPair cfg.cipher public_key private_key
      → (seal_payload (codec_of cfg json) net s b n).1 ≡ ok (payload, content_encoding)
      → IsArrival cfg json s b (payload, content_encoding) r
      → Gets cfg next world b r (chain cfg next r world)
  chain-sealed n payload content_encoding public_key private_key on has pair done arrival =
      let (sealed, named) =
        seal_payload-encrypted cfg json net s b n payload content_encoding public_key on done in
      let encoding : get_header "Content-Encoding" r.header ≡ "encrypted" =
        arrival-encoding payload content_encoding arrival ∙ named in
      let opened : opened_body cfg.cipher cfg.gzip private_key r.body ≡ some b =
        ap (opened_body cfg.cipher cfg.gzip private_key) arrival.0
        ∙ opened_body-encrypt cfg.cipher cfg.gzip (net.random n).1 public_key private_key b payload
            gz pair (full n) sealed in
      let inner : Request = record r {
        header = remove "Content-Encoding" r.header;
        body = whole b;
      } in
      let address : get_header "X-Real-IP" inner.header ≡ s.local_ip =
        get_header-remove "X-Real-IP" "Content-Encoding" r.header encoding_not_ip
        ∙ arrival-address payload content_encoding arrival in
      let signed : IsSigned cfg next world b inner = λ set.
        get_header-remove "HashSHA256" "Content-Encoding" r.header encoding_not_hash
        ∙ arrival-IsSigned payload content_encoding arrival set in
      let (r', same, e) =
        inflated-opened cfg next world inner b (get_header-remove_self "Content-Encoding" r.header)
          refl signed in
      (
        r',
        same,
        chain-encrypted cfg next world r private_key b encoding has opened
            ∙ (restricted-trusted cfg next world inner (rw address trusted)
                ∙ (rw⁻¹
                    (get_header-remove "Accept-Encoding" "Content-Encoding" r.header
                      accept_not_encoding)
                    e)),
      )

  -- What the agent posts is what the handler gets. Where the two ends share the libraries, the
  -- server checks no key or the agent's, the agent encrypts with no key or the one that belongs to
  -- the server's private key, and its address is trusted: once a payload was sealed, the request
  -- that carries it and the agent's headers passes all middlewares, and the handler is called with
  -- the bytes that the agent started from as its whole body.
  pub chain-seal_payload :
      (n : N) (payload : Bytes) (content_encoding : String)
      → IsMatched cfg s
      → (seal_payload (codec_of cfg json) net s b n).1 ≡ ok (payload, content_encoding)
      → IsArrival cfg json s b (payload, content_encoding) r
      → Gets cfg next world b r (chain cfg next r world)
  chain-seal_payload n payload content_encoding (inl off) done arrival =
      chain-plain n payload content_encoding off done arrival
  chain-seal_payload n payload content_encoding (inr (pk, sk, on, has, pair)) done arrival =
      chain-sealed n payload content_encoding pk sk on has pair done arrival
