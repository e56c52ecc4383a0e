-- ===== src/Crypto.antt =====
-- internal/crypto/crypto.go: hybrid encryption with RSA-OAEP and AES-256-GCM, and its wire format.
pub mod RoundTrip
pub mod Keys
mod Tests
use study_project_metrics_an.Base.{
  ℕ, suc, ◌+◌, ◌*◌, ◌/◌, ◌%◌, ◌≡◌, Bool, true, false, ◌||◌, Option, none, some, List, [], ◌∷◌, ◌++◌,
  length, take, drop, get_or, ltb, leb, eqb, if◌then◌else◌,
}
use study_project_metrics_an.Wire.{Bytes}

pub data CryptoError : Type 0 where
  generate_key rsa_encrypt new_cipher generate_nonce : CryptoError
  too_short truncated_key rsa_decrypt truncated_nonce gcm_open : CryptoError

pub data Result {κ} (Value : Type κ) : Type κ where
  err : CryptoError → Result Value
  ok : Value → Result Value

-- The first error ends Encrypt and Decrypt.
infixl 5 ◌>>=◌ ◌>>◌
abbrev pub ◌>>=◌ {κ ℓ} :
    {Value : Type κ} {Next : Type ℓ} → Result Value → (Value → Result Next) → Result Next
err failure >>= next = err failure
ok value >>= next = next value

abbrev pub ◌>>◌ {κ} : {Next : Type κ} → Result (Unit {0}) → Result Next → Result Next
err failure >> next = err failure
ok checked >> next = next

abbrev pub or_err {ℓ} : {A : Type ℓ} → CryptoError → Option A → Result A
or_err e none = err e
or_err e (some a) = ok a

abbrev pub guard : Bool → CryptoError → Result (Unit {0})
guard false failure = err failure
guard true failure = ok tt

-- crypto/rsa and crypto/cipher: OAEP, and GCM under an AES key. Both directions can fail.
pub record Cipher (PublicKey PrivateKey : Type 0) : Type 0 where
  pub encrypt_oaep : PublicKey → Bytes → Option Bytes
  pub decrypt_oaep : PrivateKey → Bytes → Option Bytes
  pub seal : Bytes → Bytes → Bytes → Bytes
  pub unseal : Bytes → Bytes → Bytes → Option Bytes

-- What the random source delivers for one message, or that it fails.
pub record Random : Type 0 where
  pub aes_key : Option Bytes
  pub nonce : Option Bytes

abbrev pub aes_key_size : ℕ
aes_key_size = 32

-- The nonce size of cipher.NewGCM.
abbrev pub nonce_size : ℕ
nonce_size = 12

-- aes.NewCipher takes keys of 16, 24 or 32 bytes.
abbrev pub is_aes_key : Bytes → Bool
is_aes_key key = eqb (length key) 16 || eqb (length key) 24 || eqb (length key) 32

-- binary.BigEndian.PutUint16 of `uint16(n)`, and Uint16
abbrev pub put_uint16 : ℕ → Bytes
put_uint16 n = n / 256 % 256 ∷ n % 256 ∷ []

abbrev pub get_uint16 : Bytes → ℕ
get_uint16 b = get_or b 0 0 * 256 + get_or b 1 0

module _ {PublicKey PrivateKey : Type 0} (c : Cipher PublicKey PrivateKey) where
  unfoldable pub encrypt : Random → PublicKey → Bytes → Result Bytes
  encrypt random public_key plaintext = do
    aes_key ← or_err generate_key random.aes_key
    enc_key ← or_err rsa_encrypt (c.encrypt_oaep public_key aes_key)
    guard (is_aes_key aes_key) new_cipher
    nonce ← or_err generate_nonce random.nonce
    let ciphertext = c.seal aes_key nonce plaintext
    ok (put_uint16 (length enc_key) ++ (enc_key ++ (nonce ++ ciphertext)))

  -- The part of Decrypt behind the encrypted key.
  unfoldable pub decrypt_rest : PrivateKey → Bytes → Bytes → Result Bytes
  decrypt_rest private_key enc_key rest = do
    aes_key ← or_err rsa_decrypt (c.decrypt_oaep private_key enc_key)
    guard (is_aes_key aes_key) new_cipher
    guard (leb nonce_size (length rest)) truncated_nonce
    or_err gcm_open (c.unseal aes_key (take nonce_size rest) (drop nonce_size rest))

  unfoldable pub decrypt : PrivateKey → Bytes → Result Bytes
  unfolding decrypt_rest
  decrypt private_key b =
      if ltb (length b) 2
      then err too_short
      else let key_len : ℕ = get_uint16 b in
        if ltb (length b) (2 + key_len)
        then err truncated_key
        else decrypt_rest private_key (take key_len (drop 2 b)) (drop (2 + key_len) b)
