-- ===== src/Agent/Setup/Sealed.antt =====
-- What the HTTP sender of an agent that is set up does with a body, by the settings.
use study_project_metrics_an.Base.{String, ◌≡◌, ◌⊎◌, inr}
use study_project_metrics_an.Wire.{Bytes}
use study_project_metrics_an.Http.{get_header}
use study_project_metrics_an.Crypto.{ok, encrypt}
use study_project_metrics_an.Crypto.Keys.{load_public_key}
use study_project_metrics_an.Agent.{
  Codec, Net, Sender, seal_payload, post_header, encrypted_payload,
}
use study_project_metrics_an.Agent.Setup.{Libs, Setup}

module _ {PublicKey PrivateKey Conn N E : Type 0} (codec : Codec PublicKey PrivateKey)
    (net : Net N E) (libs : Libs PublicKey Conn E) (b : Bytes) (n : N) where
  -- The body is compressed, and encrypted with the key of this file, if there is one.
  abbrev pub IsSealed : String → Sender PublicKey → Type 0
  IsSealed path sender =
      (path ≡ "") × (seal_payload codec net sender b n ≡ (n, ok (codec.gzip.gzip b, "gzip")))
      ⊎ ((k : PublicKey) × (load_public_key libs.keys path ≡ inr k)
          × (seal_payload codec net sender b n ≡ (
            (net.random n).0,
            encrypted_payload codec net sender
                (encrypt codec.cipher (net.random n).1 k (codec.gzip.gzip b)),
          )))

  -- The headers of a post have the hash of the body under this key, if there is one.
  abbrev pub IsSigned : String → String → Sender PublicKey → Type 0
  IsSigned key encoding sender =
      (key ≡ "") ⊎ (get_header "HashSHA256" (post_header codec sender encoding b) ≡ codec.mac b key)
