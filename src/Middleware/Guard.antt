-- ===== src/Middleware/Guard.antt =====
-- What a request must show before a handler sees it: the address and the hash.
use study_project_metrics_an.Base.{
  String, ◌≡◌, ◌≢◌, ◌⊎◌, inl, inr, refl, sym, ◌∙◌, ap, Bool, true, false, Bool-cases, Option, none,
  some, Option-cases, arith, ◌==◌, eq_iff,
}
use study_project_metrics_an.Base.Assoc.{remove, lookup-remove_ne}
use study_project_metrics_an.Wire.{Bytes, Body, whole, read_all, Gzip, Mac}
use study_project_metrics_an.Http.{Header, get_header, Request}
use study_project_metrics_an.Crypto.{Cipher}
use study_project_metrics_an.Middleware.{
  Serve, Config, chain, sha256_check_middleware, gzip_middleware, trusted_subnet_middleware,
  decrypt_middleware, opened_body,
}

pub get_header-remove :
    (name other : String) (h : Header)
    → other ≢ name
    → get_header name (remove other h) ≡ get_header name h
unfolding get_header
get_header-remove name other h ne = rw (lookup-remove_ne other name h ne)

abbrev pub encoding_name : String
encoding_name = "Content-Encoding"

pub encoding_not_ip : encoding_name ≢ "X-Real-IP"
encoding_not_ip = ground (arith, eq_iff "Content-Encoding" "X-Real-IP")

pub encoding_not_hash : encoding_name ≢ "HashSHA256"
encoding_not_hash = ground (arith, eq_iff "Content-Encoding" "HashSHA256")

-- Two requests with the same hash and the same address.
abbrev pub IsAlike : Request → Request → Type 0
IsAlike r r' =
    (get_header "HashSHA256" r'.header ≡ get_header "HashSHA256" r.header)
    × (get_header "X-Real-IP" r'.header ≡ get_header "X-Real-IP" r.header)

without_encoding :
    (r : Request) (b : Body)
    → IsAlike r (record r { header = remove "Content-Encoding" r.header; body = b })
without_encoding r b = (
  get_header-remove "HashSHA256" "Content-Encoding" r.header encoding_not_hash,
  get_header-remove "X-Real-IP" "Content-Encoding" r.header encoding_not_ip,
)

module _ {W : Type 0} (next : Serve W) (r : Request) (world : W) where
  -- A middleware either leaves the world alone or hands on a request like the one it got.
  abbrev pub Passes : Serve W → Type 0
  Passes middleware =
      ((middleware r world).0 ≡ world)
      ⊎ ((r' : Request) × IsAlike r r' × ((middleware r world).0 ≡ (next r' world).0))

  pub decrypt_middleware-Passes :
      {PublicKey PrivateKey : Type 0} (c : Cipher PublicKey PrivateKey) (g : Gzip)
      (private_key : Option PrivateKey)
      → Passes (decrypt_middleware c g private_key next)
  unfolding decrypt_middleware
  decrypt_middleware-Passes c g none = inr (r, (refl, refl), refl)
  decrypt_middleware-Passes c g (some private_key) =
      elim (Bool-cases (get_header "Content-Encoding" r.header == "encrypted")) [
        | inr other ↦ inr (r, (refl, refl), rw other refl)
        | inl encrypted ↦ elim (Option-cases (opened_body c g private_key r.body)) [
          | inl bad ↦ inl (rw (encrypted, bad) refl)
          | inr (plain, opened) ↦ inr (
            record r { header = remove "Content-Encoding" r.header; body = whole plain },
            without_encoding r (whole plain),
            rw (encrypted, opened) refl,
          )
        ]
      ]

  gzip_middleware-Passes :
      (g : Gzip) (contains : String → String → Bool) → Passes (gzip_middleware g contains next)
  unfolding gzip_middleware
  gzip_middleware-Passes g contains =
      elim (Bool-cases (get_header "Content-Encoding" r.header == "gzip")) [
        | inr other ↦ inr (r, (refl, refl), rw other refl)
        | inl zipped ↦ elim (Bool-cases (g.has_header r.body)) [
          | inr bad ↦ inl (rw (zipped, bad) refl)
          | inl good ↦ inr (
            record r { header = remove "Content-Encoding" r.header; body = g.gunzip r.body },
            without_encoding r (g.gunzip r.body),
            rw (zipped, good) refl,
          )
        ]
      ]

  pub trusted_subnet_middleware-passes :
      {Ip Subnet : Type 0} (parse_ip : String → Option Ip) (within : Subnet → Ip → Bool)
      (net : Subnet)
      → ((trusted_subnet_middleware parse_ip within (some net) next r world).0 ≡ world)
        ⊎ ((ip : Ip) × (parse_ip (get_header "X-Real-IP" r.header) ≡ some ip)
            × (within net ip ≡ true)
            × (trusted_subnet_middleware parse_ip within (some net) next r world ≡ next r world))
  unfolding trusted_subnet_middleware
  trusted_subnet_middleware-passes parse_ip within net =
      elim (Option-cases (parse_ip (get_header "X-Real-IP" r.header))) [
        | inl bad ↦ inl (rw (trusted_subnet_middleware, bad) refl)
        | inr (ip, parsed) ↦ elim (Bool-cases (within net ip)) [
          | inr outside ↦ inl (rw (trusted_subnet_middleware, parsed, outside) refl)
          | inl inside ↦
              inr (ip, parsed, inside, rw (trusted_subnet_middleware, parsed, inside) refl)
        ]
      ]

  pub trusted_subnet_middleware-Passes :
      {Ip Subnet : Type 0} (parse_ip : String → Option Ip) (within : Subnet → Ip → Bool)
      (net : Option Subnet)
      → Passes (trusted_subnet_middleware parse_ip within net next)
  trusted_subnet_middleware-Passes parse_ip within none =
      inr (r, (refl, refl), unfold trusted_subnet_middleware in refl)
  trusted_subnet_middleware-Passes parse_ip within (some net) =
      elim (trusted_subnet_middleware-passes parse_ip within net) [
        | inl same ↦ inl same
        | inr (ip, parsed, inside, e) ↦ inr (r, (refl, refl), ap (λ p. p.0) e)
      ]

  sha256_check_middleware-passes :
      (mac : Mac) (key : String)
      → (key == "") ≡ false
      → ((sha256_check_middleware mac key next r world).0 ≡ world)
        ⊎ ((b : Bytes) × (mac b key ≡ get_header "HashSHA256" r.header)
            × (sha256_check_middleware mac key next r world
                ≡ next (record r { body = whole b }) world))
  unfolding sha256_check_middleware
  sha256_check_middleware-passes mac key set = elim (Option-cases (read_all r.body)) [
    | inl broken ↦ inl (rw (set, broken) refl)
    | inr (b, read) ↦ elim (Bool-cases (mac b key == get_header "HashSHA256" r.header)) [
      | inr bad ↦ inl (rw (set, read, bad) refl)
      | inl good ↦ inr (
        b,
        (eq_iff (mac b key) (get_header "HashSHA256" r.header)).0 good,
        rw (set, read, good) refl,
      )
    ]
  ]

module _ {W Ip Subnet PublicKey PrivateKey : Type 0} (cfg : Config Ip Subnet PublicKey PrivateKey)
    (next : Serve W) where
  -- The handler gets a body whose keyed hash is the one that the request names.
  abbrev pub IsHashed : Request → W → W → Type 0
  IsHashed r world after =
      (r' : Request) × (b : Bytes) × (cfg.mac b cfg.key ≡ get_header "HashSHA256" r.header)
      × (after ≡ (next (record r' { body = whole b }) world).0)

  -- The address that the request names is in the network.
  abbrev pub IsInside : Subnet → Request → Type 0
  IsInside net r =
      (ip : Ip) × (cfg.parse_ip (get_header "X-Real-IP" r.header) ≡ some ip)
      × (cfg.within net ip ≡ true)

  abbrev checked : Serve W
  checked r world = sha256_check_middleware cfg.mac cfg.key next r world

  abbrev pub inflated : Serve W
  inflated r world = gzip_middleware cfg.gzip cfg.contains checked r world

  pub inflated-passes :
      (r : Request) (world : W)
      → (cfg.key == "") ≡ false
      → ((inflated r world).0 ≡ world) ⊎ IsHashed r world (inflated r world).0
  inflated-passes r world set =
      elim (gzip_middleware-Passes checked r world cfg.gzip cfg.contains) [
        | inl same ↦ inl same
        | inr (r', (hash, ip), e) ↦
            elim (sha256_check_middleware-passes next r' world cfg.mac cfg.key set) [
              | inl same ↦ inl (e ∙ same)
              | inr (b, good, f) ↦ inr (r', b, good ∙ hash, e ∙ ap (λ p. p.0) f)
            ]
      ]

  restricted-passes :
      (net : Subnet) (r : Request) (world : W)
      → (cfg.key == "") ≡ false
      → ((trusted_subnet_middleware cfg.parse_ip cfg.within (some net) inflated r world).0 ≡ world)
        ⊎ (IsInside net r
            × IsHashed r world
                (trusted_subnet_middleware cfg.parse_ip cfg.within (some net) inflated r world).0)
  restricted-passes net r world set =
      elim (trusted_subnet_middleware-passes inflated r world cfg.parse_ip cfg.within net) [
        | inl same ↦ inl same
        | inr (ip, parsed, inside, e) ↦ elim (inflated-passes r world set) [
          | inl same ↦ inl (ap (λ p. p.0) e ∙ same)
          | inr (r', b, good, f) ↦ inr ((ip, parsed, inside), (r', b, good, ap (λ p. p.0) e ∙ f))
        ]
      ]

  -- With a key and a trusted network set, a request changes the state of the server only through
  -- the handler, and only if the address in its X-Real-IP header is in the network and the body
  -- that the handler gets has, under the key, the hash in its HashSHA256 header.
  pub chain-admits :
      (net : Subnet) (r : Request) (world : W)
      → (cfg.key == "") ≡ false
      → cfg.subnet ≡ some net
      → ((chain cfg next r world).0 ≡ world)
        ⊎ (IsInside net r × IsHashed r world (chain cfg next r world).0)
  unfolding chain
  chain-admits net r world set on =
      rw on
        (elim (decrypt_middleware-Passes
          (trusted_subnet_middleware cfg.parse_ip cfg.within (some net) inflated) r world cfg.cipher
          cfg.gzip cfg.private_key) [
            | inl same ↦ inl same
            | inr (r', (hash, address), e) ↦ elim (restricted-passes net r' world set) [
              | inl same ↦ inl (e ∙ same)
              | inr ((ip, parsed, inside), (r2, b, good, f)) ↦ inr (
                (ip, sym (ap cfg.parse_ip address) ∙ parsed, inside),
                (r2, b, good ∙ hash, e ∙ f),
              )
            ]
          ])
