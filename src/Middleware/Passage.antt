-- ===== src/Middleware/Passage.antt =====
-- A request with an encrypted or a compressed body on its way through the middlewares.
use study_project_metrics_an.Base.{
  String, ◌≡◌, ◌≢◌, ◌⊎◌, inl, inr, refl, sym, ◌∙◌, ap, true, false, Bool-cases, none, some,
  Option-cases, List, [], arith, ◌==◌, eq_iff,
}
use study_project_metrics_an.Base.Assoc.{remove, lookup-remove_self}
use study_project_metrics_an.Wire.{Bytes, whole, read_all, Gzip, IsGzip}
use study_project_metrics_an.Http.{Header, get_header, Request}
use study_project_metrics_an.Crypto.{Cipher, Random, ok, encrypt}
use study_project_metrics_an.Crypto.RoundTrip.{IsPair, IsFull, decrypt-encrypt}
use study_project_metrics_an.Middleware.{
  Call, Serve, Config, chain, sha256_check_middleware, gzip_middleware, trusted_subnet_middleware,
  decrypt_middleware, opened_body, wrapped, new_writer,
}
use study_project_metrics_an.Middleware.Guard.{get_header-remove, encoding_name, encoding_not_hash}

module _ {W Ip Subnet PublicKey PrivateKey : Type 0} (cfg : Config Ip Subnet PublicKey PrivateKey)
    (next : Serve W) (world : W) where
  -- The handler gets these bytes, and what it calls goes through the gzip writer for the client.
  abbrev pub Gets : Bytes → Request → W × List Call → Type 0
  Gets b r result =
      (r' : Request) × (r'.body ≡ whole b)
      × (result ≡ (
        (next r' world).0,
        wrapped cfg.gzip.gzip cfg.contains
            (cfg.contains "gzip" (get_header "Accept-Encoding" r.header)) (next r' world).1
            (new_writer []),
      ))

  abbrev checked : Serve W
  checked r w = sha256_check_middleware cfg.mac cfg.key next r w

  abbrev pub inflated : Serve W
  inflated r w = gzip_middleware cfg.gzip cfg.contains checked r w

  abbrev pub restricted : Serve W
  restricted r w = trusted_subnet_middleware cfg.parse_ip cfg.within cfg.subnet inflated r w

  checked-signed :
      (r : Request) (b : Bytes)
      → r.body ≡ whole b
      → ((cfg.key == "") ≡ false → get_header "HashSHA256" r.header ≡ cfg.mac b cfg.key)
      → (r' : Request) × (r'.body ≡ whole b) × (checked r world ≡ next r' world)
  unfolding sha256_check_middleware
  checked-signed r b body hash = elim (Bool-cases (cfg.key == "")) [
    | inl off ↦ (r, body, rw off refl)
    | inr set ↦
        let read : read_all r.body ≡ some b = ap read_all body in
        let same : (cfg.mac b cfg.key == get_header "HashSHA256" r.header) ≡ true =
          (eq_iff (cfg.mac b cfg.key) (get_header "HashSHA256" r.header)).1 (sym (hash set)) in
        (record r { body = whole b }, refl, rw (set, read, same) refl)
  ]

  -- The headers that the middlewares read.
  abbrev pub IsSigned : Bytes → Request → Type 0
  IsSigned b r = (cfg.key == "") ≡ false → get_header "HashSHA256" r.header ≡ cfg.mac b cfg.key

  pub inflated-compressed :
      (r : Request) (b : Bytes)
      → IsGzip cfg.gzip
      → get_header "Content-Encoding" r.header ≡ "gzip"
      → r.body ≡ whole (cfg.gzip.gzip b)
      → IsSigned b r
      → Gets b r (inflated r world)
  unfolding gzip_middleware
  inflated-compressed r b gz encoding body hash =
      let inner : Request = record r {
        header = remove "Content-Encoding" r.header;
        body = cfg.gzip.gunzip r.body;
      } in
      let opened : inner.body ≡ whole b = rw body (gz.back b) in
      let (r', same, e) = checked-signed inner b opened (λ set.
        get_header-remove "HashSHA256" "Content-Encoding" r.header encoding_not_hash ∙ hash set) in
      let good : cfg.gzip.has_header r.body ≡ true = rw body (gz.header b) in
      (r', same, rw (encoding, good) (rw e refl))

  pub inflated-opened :
      (r : Request) (b : Bytes)
      → get_header "Content-Encoding" r.header ≡ ""
      → r.body ≡ whole b
      → IsSigned b r
      → Gets b r (inflated r world)
  unfolding gzip_middleware
  inflated-opened r b encoding body hash =
      let (r', same, e) = checked-signed r b body hash in (r', same, rw encoding (rw e refl))

  -- The subnet check is off, or lets the address through.
  abbrev pub IsTrusted : String → Type 0
  IsTrusted address =
      (cfg.subnet ≡ none)
      ⊎ ((net : Subnet) × (ip : Ip) × (cfg.subnet ≡ some net)
          × (cfg.parse_ip address ≡ some ip)
          × (cfg.within net ip ≡ true))

  pub restricted-trusted :
      (r : Request)
      → IsTrusted (get_header "X-Real-IP" r.header)
      → restricted r world ≡ inflated r world
  unfolding trusted_subnet_middleware
  restricted-trusted r (inl off) = rw (off, trusted_subnet_middleware) refl
  restricted-trusted r (inr (net, ip, on, parsed, inside)) =
      rw (on, trusted_subnet_middleware) (rw (parsed, inside) refl)

  pub chain-compressed :
      (r : Request)
      → get_header "Content-Encoding" r.header ≡ "gzip"
      → chain cfg next r world ≡ restricted r world
  unfolding chain decrypt_middleware
  chain-compressed r encoding = elim (Option-cases cfg.private_key) [
    | inl off ↦ rw off refl
    | inr (private_key, on) ↦ rw on (rw (encoding, decrypt_middleware) refl)
  ]

  pub chain-encrypted :
      (r : Request) (private_key : PrivateKey) (plain : Bytes)
      → get_header "Content-Encoding" r.header ≡ "encrypted"
      → cfg.private_key ≡ some private_key
      → opened_body cfg.cipher cfg.gzip private_key r.body ≡ some plain
      → chain cfg next r world
        ≡ restricted
            (record r { header = remove "Content-Encoding" r.header; body = whole plain })
            world
  unfolding chain decrypt_middleware
  chain-encrypted r private_key plain encoding on opened =
      rw on (rw (encoding, decrypt_middleware) (rw opened refl))

pub accept_not_encoding : encoding_name ≢ "Accept-Encoding"
accept_not_encoding = ground (arith, eq_iff encoding_name "Accept-Encoding")

pub get_header-remove_self : (name : String) (h : Header) → get_header name (remove name h) ≡ ""
unfolding get_header
get_header-remove_self name h = rw (lookup-remove_self name h) refl

pub opened_body-encrypt :
    {PublicKey PrivateKey : Type 0} (c : Cipher PublicKey PrivateKey) (g : Gzip) (random : Random)
    (public_key : PublicKey) (private_key : PrivateKey) (b payload : Bytes)
    → IsGzip g
    → IsPair c public_key private_key
    → IsFull random
    → encrypt c random public_key (g.gzip b) ≡ ok payload
    → opened_body c g private_key (whole payload) ≡ some b
unfolding opened_body
opened_body-encrypt c g random public_key private_key b payload gz pair full done =
    rw
      (
        opened_body,
        decrypt-encrypt c public_key private_key pair random (g.gzip b) payload full done,
      )
      (rw (gz.header b) (rw (gz.back b) refl))
