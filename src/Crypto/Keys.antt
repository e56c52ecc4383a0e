-- ===== src/Crypto/Keys.antt =====
-- LoadPublicKey and LoadPrivateKey of internal/crypto/crypto.go. The file, encoding/pem and
-- crypto/x509 are parameters.
use study_project_metrics_an.Base.{
  String, ◌≡◌, ◌≢◌, ◌↔◌, ◌⊎◌, inl, inr, refl, Bool-cases, Option, none, some, ◌==◌, eq_iff,
  if◌then◌else◌, arith,
}
use study_project_metrics_an.Wire.{Bytes}

pub record Block : Type 0 where
  pub typ : String
  pub bytes : Bytes

pub data KeyError : Type 0 where
  read no_block parse not_rsa : KeyError
  unexpected_type : String → KeyError

-- What the two loaders call: os.ReadFile, pem.Decode and two parsers, of which the second gives a key
-- that may be of another kind than RSA.
pub record KeyLibs (Key : Type 0) : Type 0 where
  pub read_file : String → Option Bytes
  pub decode : Bytes → Option Block
  pub parse_pkcs1 : Bytes → Option Key
  pub parse_general : Bytes → Option (Option Key)

module _ {Key : Type 0} (libs : KeyLibs Key) where
  abbrev pub pkcs1_key : Option Key → KeyError ⊎ Key
  pkcs1_key none = inl parse
  pkcs1_key (some key) = inr key

  abbrev pub general_key : Option (Option Key) → KeyError ⊎ Key
  general_key none = inl parse
  general_key (some none) = inl not_rsa
  general_key (some (some key)) = inr key

  -- The `switch` with its two types of blocks.
  abbrev pub parse_block : String → String → Block → KeyError ⊎ Key
  parse_block pkcs1 general block =
      if block.typ == pkcs1
      then pkcs1_key (libs.parse_pkcs1 block.bytes)
      else if block.typ == general
      then general_key (libs.parse_general block.bytes)
      else inl (unexpected_type block.typ)

  abbrev pub decoded : String → String → Option Block → KeyError ⊎ Key
  decoded pkcs1 general none = inl no_block
  decoded pkcs1 general (some block) = parse_block pkcs1 general block

  abbrev pub load_key : String → String → Option Bytes → KeyError ⊎ Key
  load_key pkcs1 general none = inl read
  load_key pkcs1 general (some content) = decoded pkcs1 general (libs.decode content)

  unfoldable pub load_public_key : String → KeyError ⊎ Key
  load_public_key path = load_key "RSA PUBLIC KEY" "PUBLIC KEY" (libs.read_file path)

  unfoldable pub load_private_key : String → KeyError ⊎ Key
  load_private_key path = load_key "RSA PRIVATE KEY" "PRIVATE KEY" (libs.read_file path)

  -- A block holds a key in one of the two forms.
  abbrev pub Holds : String → String → Block → Key → Type 0
  Holds pkcs1 general block key =
      (block.typ ≡ pkcs1) × (libs.parse_pkcs1 block.bytes ≡ some key)
      ⊎ (block.typ ≡ general) × (libs.parse_general block.bytes ≡ some (some key))

  -- The file is there and its first block holds the key.
  abbrev pub IsKeyOf : String → String → String → Key → Type 0
  IsKeyOf pkcs1 general path key =
      (content : Bytes) × (block : Block) × (libs.read_file path ≡ some content)
      × (libs.decode content ≡ some block)
      × Holds pkcs1 general block key

  pkcs1_key-inr : (o : Option Key) (key : Key) → pkcs1_key o ≡ inr key → o ≡ some key
  pkcs1_key-inr none key h = absurd cc
  pkcs1_key-inr (some k) key h = ground arith

  general_key-inr :
      (o : Option (Option Key)) (key : Key) → general_key o ≡ inr key → o ≡ some (some key)
  general_key-inr none key h = absurd cc
  general_key-inr (some none) key h = absurd cc
  general_key-inr (some (some k)) key h = ground arith

  module _ (pkcs1 general : String) where
    parse_block-inr :
        (block : Block) (key : Key)
        → parse_block pkcs1 general block ≡ inr key
        → Holds pkcs1 general block key
    parse_block-inr block key h = elim (Bool-cases (block.typ == pkcs1)) [
      | inl e ↦ inl (
        (eq_iff block.typ pkcs1).0 e,
        pkcs1_key-inr (libs.parse_pkcs1 block.bytes) key (rw e at h),
      )
      | inr n ↦ elim (Bool-cases (block.typ == general)) [
        | inl e ↦ inr (
          (eq_iff block.typ general).0 e,
          general_key-inr (libs.parse_general block.bytes) key (rw (n, e) at h),
        )
        | inr n' ↦ absurd (ground arith)
      ]
    ]

    parse_block-Holds :
        (block : Block) (key : Key)
        → pkcs1 ≢ general
        → Holds pkcs1 general block key
        → parse_block pkcs1 general block ≡ inr key
    parse_block-Holds block key ne (inl (e, p)) = rw ((eq_iff block.typ pkcs1).1 e, p) refl
    parse_block-Holds block key ne (inr (e, p)) =
        ground (arith, eq_iff block.typ pkcs1, eq_iff block.typ general)

    -- From the result to the file and back.
    decoded-inr :
        (o : Option Block) (key : Key)
        → decoded pkcs1 general o ≡ inr key
        → (block : Block) × (o ≡ some block) × Holds pkcs1 general block key
    decoded-inr none key h = absurd cc
    decoded-inr (some block) key h = (block, refl, parse_block-inr block key h)

    load_key-inr :
        (o : Option Bytes) (key : Key)
        → load_key pkcs1 general o ≡ inr key
        → (content : Bytes) × (block : Block) × (o ≡ some content)
          × (libs.decode content ≡ some block)
          × Holds pkcs1 general block key
    load_key-inr none key h = absurd cc
    load_key-inr (some content) key h =
        let (block, e, holds) = decoded-inr (libs.decode content) key h in
        (content, block, refl, e, holds)

    load_key_iff :
        (path : String) (key : Key)
        → pkcs1 ≢ general
        → (load_key pkcs1 general (libs.read_file path) ≡ inr key) ↔ IsKeyOf pkcs1 general path key
    load_key_iff path key ne = (
      λ h. load_key-inr (libs.read_file path) key h,
      λ (content, block, e, e', holds). rw (e, e') (parse_block-Holds block key ne holds),
    )

  -- The public key is loaded exactly when the file is there and its first PEM block is a PKCS #1 key of
  -- type RSA PUBLIC KEY or an RSA key in the general form of type PUBLIC KEY, and then it is that key.
  pub load_public_key_iff :
      (path : String) (key : Key)
      → (load_public_key path ≡ inr key) ↔ IsKeyOf "RSA PUBLIC KEY" "PUBLIC KEY" path key
  unfolding load_public_key
  load_public_key_iff path key =
      load_key_iff "RSA PUBLIC KEY" "PUBLIC KEY" path key
        (λ e. ground (arith, eq_iff "RSA PUBLIC KEY" "PUBLIC KEY"))

  -- The private key is loaded exactly when the file is there and its first PEM block is a PKCS #1 key
  -- of type RSA PRIVATE KEY or an RSA key in the general form of type PRIVATE KEY.
  pub load_private_key_iff :
      (path : String) (key : Key)
      → (load_private_key path ≡ inr key) ↔ IsKeyOf "RSA PRIVATE KEY" "PRIVATE KEY" path key
  unfolding load_private_key
  load_private_key_iff path key =
      load_key_iff "RSA PRIVATE KEY" "PRIVATE KEY" path key
        (λ e. ground (arith, eq_iff "RSA PRIVATE KEY" "PRIVATE KEY"))
