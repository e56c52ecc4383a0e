-- ===== src/Server/Guarded.antt =====
-- The middlewares that run() of cmd/server/main.go puts in front of the handlers, by its settings.
use study_project_metrics_an.Base.{
  ◌≡◌, refl, ◌∙◌, ap, sym, ◌⊎◌, inl, inr, false, Bool-cases, some, Option-cases, ◌==◌, eq_iff,
}
use study_project_metrics_an.Base.Assoc.{remove}
use study_project_metrics_an.Wire.{Bytes, whole}
use study_project_metrics_an.Http.{Request, get_header}
use study_project_metrics_an.Persist.{Disk}
use study_project_metrics_an.Server.{Libs, Server, setup}
use study_project_metrics_an.Server.Choice.{setup-IsUsed}
use study_project_metrics_an.Middleware.{
  Serve, Config, chain, trusted_subnet_middleware, decrypt_middleware, opened_body, error_calls,
}
use study_project_metrics_an.Middleware.Guard.{
  IsInside, IsHashed, IsAlike, inflated, inflated-passes, decrypt_middleware-Passes,
  trusted_subnet_middleware-passes, trusted_subnet_middleware-Passes,
}

module _ {W Ip Subnet PublicKey PrivateKey : Type 0} (cfg : Config Ip Subnet PublicKey PrivateKey)
    (next : Serve W) (r : Request) (world : W) where
  -- What stands behind the decryption.
  abbrev pub behind_decryption : Serve W
  behind_decryption q w =
      trusted_subnet_middleware cfg.parse_ip cfg.within cfg.subnet (inflated cfg next) q w

  abbrev after : W
  after = (chain cfg next r world).0

  chain-decrypts :
      ((after ≡ world) ⊎ ((q : Request) × IsAlike r q × (after ≡ (behind_decryption q world).0)))
  unfolding chain
  chain-decrypts =
      decrypt_middleware-Passes behind_decryption r world cfg.cipher cfg.gzip cfg.private_key

  chain-IsInside :
      (net : Subnet) → cfg.subnet ≡ some net → (after ≡ world) ⊎ IsInside cfg next net r
  chain-IsInside net on = elim chain-decrypts [
    | inl same ↦ inl same
    | inr (q, (hash, address), e) ↦
        elim (trusted_subnet_middleware-passes (inflated cfg next) q world cfg.parse_ip cfg.within
          net) [
            | inl same ↦ inl (e ∙ rw on same)
            | inr (ip, parsed, inside, f) ↦ inr (ip, sym (ap cfg.parse_ip address) ∙ parsed, inside)
          ]
  ]

  chain-IsHashed : (cfg.key == "") ≡ false → (after ≡ world) ⊎ IsHashed cfg next r world after
  chain-IsHashed set = elim chain-decrypts [
    | inl same ↦ inl same
    | inr (q, (hash, address), e) ↦
        elim (trusted_subnet_middleware-Passes (inflated cfg next) q world cfg.parse_ip cfg.within
          cfg.subnet) [
            | inl same ↦ inl (e ∙ same)
            | inr (q', (hash', address'), f) ↦ elim (inflated-passes cfg next q' world set) [
              | inl same ↦ inl (e ∙ f ∙ same)
              | inr (q2, b, good, g) ↦ inr (q2, b, good ∙ hash' ∙ hash, e ∙ f ∙ g)
            ]
          ]
  ]

  -- A request that is said to be encrypted is refused, or goes on with what its body decrypts to.
  abbrev pub IsOpened : PrivateKey → Type 0
  IsOpened k =
      ((get_header "Content-Encoding" r.header == "encrypted") ≡ false)
      ⊎ (chain cfg next r world ≡ (world, error_calls "bad request" 400))
      ⊎ ((plain : Bytes) × (opened_body cfg.cipher cfg.gzip k r.body ≡ some plain)
          × (chain cfg next r world
              ≡ behind_decryption
                  (record r { header = remove "Content-Encoding" r.header; body = whole plain })
                  world))

  chain-IsOpened : (k : PrivateKey) → cfg.private_key ≡ some k → IsOpened k
  unfolding chain decrypt_middleware
  chain-IsOpened k on = elim (Bool-cases (get_header "Content-Encoding" r.header == "encrypted")) [
    | inr other ↦ inl other
    | inl said ↦ elim (Option-cases (opened_body cfg.cipher cfg.gzip k r.body)) [
      | inl bad ↦ inr (inl (rw (on, said, bad) refl))
      | inr (plain, opened) ↦ inr (inr (plain, opened, rw (on, said, opened) refl))
    ]
  ]

module _ {Ip Subnet PublicKey PrivateKey Pool Handle : Type 0}
    (base : Config Ip Subnet PublicKey PrivateKey) (libs : Libs Subnet PrivateKey Pool Handle)
    (disk : Disk) where
  -- What the middlewares get: the libraries of `base`, with the key, the network and the private key of
  -- the server.
  abbrev pub guards : Server Subnet PrivateKey Pool → Config Ip Subnet PublicKey PrivateKey
  guards s = record base { private_key = s.private_key; subnet = s.subnet; key = s.config.key }

  -- No guard that is configured is left out. Of a server that is set up without an error, whatever
  -- HTTP request comes: a trusted subnet in the settings is parsed, and a request that changes the state
  -- names an address in it; with a key in the settings, such a request has the hash of the body that
  -- the handler gets; and a private key in the settings is loaded, and a request that is said to be
  -- encrypted is answered with 400 or goes on with the body that this key opens.
  pub setup-guarded :
      {W : Type 0} (s : Server Subnet PrivateKey Pool) (next : Serve W) (r : Request) (world : W)
      → setup libs disk ≡ inr s
      → ((s.config.trusted_subnet ≡ "")
          ⊎ ((net : Subnet) × (libs.parse_cidr s.config.trusted_subnet ≡ some net)
              × (((chain (guards s) next r world).0 ≡ world) ⊎ IsInside (guards s) next net r)))
        × ((s.config.key ≡ "")
            ⊎ ((chain (guards s) next r world).0 ≡ world)
            ⊎ IsHashed (guards s) next r world (chain (guards s) next r world).0)
        × ((s.config.crypto_key ≡ "")
            ⊎ ((k : PrivateKey) × (libs.load_private_key s.config.crypto_key ≡ some k)
                × IsOpened (guards s) next r world k))
  setup-guarded s next r world h =
      let (net, key) = setup-IsUsed libs disk s h in
      (
        elim net [
          | inl (none_set, _) ↦ inl none_set
          | inr (n, parsed, on) ↦ inr (n, parsed, chain-IsInside (guards s) next r world n on)
        ],
        elim (Bool-cases (s.config.key == "")) [
          | inl e ↦ inl ((eq_iff s.config.key "").0 e)
          | inr set ↦ inr (chain-IsHashed (guards s) next r world set)
        ],
        elim key [
          | inl (none_set, _) ↦ inl none_set
          | inr (k, loaded, on) ↦ inr (k, loaded, chain-IsOpened (guards s) next r world k on)
        ],
      )
