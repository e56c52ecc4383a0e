-- ===== src/Crypto/RoundTrip.antt =====
-- Decrypt gives back what Encrypt was given, and accepts nothing that is too short.
use study_project_metrics_an.Base.{
  ℕ, suc, ◌+◌, ◌≤◌, ◌<◌, ◌≡◌, refl, sym, Bool, ◌∙◌, true, false, Option, none, some, ◌∷◌, ◌++◌,
  arith, length, length-append, take, take-append, drop, drop-append, length-drop, ltb, leb,
}
use study_project_metrics_an.Wire.{Bytes}
use study_project_metrics_an.Crypto.{
  CryptoError, generate_key, rsa_encrypt, new_cipher, generate_nonce, Result, ok, ◌>>=◌, ◌>>◌,
  or_err, guard, Cipher, Random, aes_key_size, is_aes_key, nonce_size, put_uint16, get_uint16,
  encrypt, decrypt_rest, decrypt,
}

-- Documented behaviour of a key pair and of GCM.
pub record IsPair {PublicKey PrivateKey : Type 0} (c : Cipher PublicKey PrivateKey)
    (public_key : PublicKey) (private_key : PrivateKey) : Type 0 where
  pub oaep_back :
      (key e : Bytes)
      → c.encrypt_oaep public_key key ≡ some e
      → c.decrypt_oaep private_key e ≡ some key
  pub key_fits : (key e : Bytes) → c.encrypt_oaep public_key key ≡ some e → length e < 65536
  pub unseal-seal :
      (key nonce p : Bytes)
      → length nonce ≡ nonce_size
      → c.unseal key nonce (c.seal key nonce p) ≡ some p

-- io.ReadFull fills its buffer, or fails.
pub record IsFull (random : Random) : Type 0 where
  pub key_size : (k : Bytes) → random.aes_key ≡ some k → length k ≡ aes_key_size
  pub nonce_full : (n : Bytes) → random.nonce ≡ some n → length n ≡ nonce_size

get_uint16-put_uint16 : (n : ℕ) (b : Bytes) → n < 65536 → get_uint16 (put_uint16 n ++ b) ≡ n
get_uint16-put_uint16 n b h = omega arith

ok-injective : {a b : Bytes} → ok a ≡ ok b → a ≡ b
ok-injective h = cc

-- What a chain of steps that succeeded went through.
or_err-eq-ok :
    (e : CryptoError) (o : Option Bytes) (f : Bytes → Result Bytes) {b : Bytes}
    → (or_err e o >>= f) ≡ ok b
    → (a : Bytes) × (o ≡ some a) × (f a ≡ ok b)
or_err-eq-ok e none f h = cc
or_err-eq-ok e (some a) f h = (a, refl, h)

guard-eq-ok :
    (e : CryptoError) (t : Bool) (k : Result Bytes) {b : Bytes} → (guard t e >> k) ≡ ok b → k ≡ ok b
guard-eq-ok e true k h = h
guard-eq-ok e false k h = cc

drop_two : (n a b : ℕ) (xs : Bytes) → drop (2 + n) (a ∷ b ∷ xs) ≡ drop n xs
drop_two n a b xs = let e : 2 + n ≡ suc (suc n) = omega arith in rw e

take_nonce : (nonce xs : Bytes) → length nonce ≡ nonce_size → take nonce_size (nonce ++ xs) ≡ nonce
take_nonce nonce xs h = rw (← h) (take-append nonce xs)

drop_nonce : (nonce xs : Bytes) → length nonce ≡ nonce_size → drop nonce_size (nonce ++ xs) ≡ xs
drop_nonce nonce xs h = rw (← h) (drop-append nonce xs)

is_aes_key_32 : (key : Bytes) → length key ≡ aes_key_size → is_aes_key key ≡ true
is_aes_key_32 key h = rw h

nonce_room :
    (nonce : Bytes) (n : ℕ) → length nonce ≡ nonce_size → leb nonce_size (length nonce + n) ≡ true
nonce_room nonce n h = ground arith

module _ {PublicKey PrivateKey : Type 0} (c : Cipher PublicKey PrivateKey) (public_key : PublicKey)
    (private_key : PrivateKey) (pair : IsPair c public_key private_key) where
  decrypt_rest-sealed :
      (key e nonce plaintext : Bytes)
      → length key ≡ aes_key_size
      → length nonce ≡ nonce_size
      → c.encrypt_oaep public_key key ≡ some e
      → decrypt_rest c private_key e (nonce ++ c.seal key nonce plaintext) ≡ ok plaintext
  unfolding decrypt_rest
  decrypt_rest-sealed key e nonce plaintext hk hn he =
      rw (pair.oaep_back key e he, decrypt_rest)
        (rw
          (
            is_aes_key_32 key hk,
            length-append nonce (c.seal key nonce plaintext),
            nonce_room nonce _ hn,
          )
          (rw (
            take_nonce nonce _ hn,
            drop_nonce nonce _ hn,
            pair.unseal-seal key nonce plaintext hn,
          )))

  -- The parts of an encrypted message.
  encrypted :
      (random : Random) (plaintext b : Bytes)
      → IsFull random
      → encrypt c random public_key plaintext ≡ ok b
      → (key : Bytes) × (e : Bytes) × (nonce : Bytes) × (length key ≡ aes_key_size)
        × (c.encrypt_oaep public_key key ≡ some e)
        × (length nonce ≡ nonce_size)
        × (b ≡ put_uint16 (length e) ++ (e ++ (nonce ++ c.seal key nonce plaintext)))
  unfolding encrypt
  encrypted random plaintext b full done =
      let (key, hk, after_key) = or_err-eq-ok generate_key random.aes_key _ done in
      let (e, he, after_e) = or_err-eq-ok rsa_encrypt (c.encrypt_oaep public_key key) _ after_key in
      let after_guard = guard-eq-ok new_cipher (is_aes_key key) _ after_e in
      let (nonce, hn, shape) = or_err-eq-ok generate_nonce random.nonce _ after_guard in
      (key, e, nonce, full.key_size key hk, he, full.nonce_full nonce hn, ok-injective (sym shape))

  decrypt-wire :
      (e rest : Bytes)
      → length e < 65536
      → decrypt c private_key (put_uint16 (length e) ++ (e ++ rest))
        ≡ decrypt_rest c private_key e rest
  unfolding decrypt
  decrypt-wire e rest h =
      let key_len = get_uint16-put_uint16 (length e) (e ++ rest) h in
      let two : ltb (suc (suc (length (e ++ rest)))) 2 ≡ false = ground arith in
      let room : ltb (suc (suc (length (e ++ rest)))) (2 + length e) ≡ false =
        ground (arith, length-append e rest) in
      rw (key_len, drop_two (length e), take-append e rest, drop-append e rest) (rw (two, room))

  -- Decrypt gives back every message that Encrypt accepted for the matching public key: if the
  -- random source fills its buffers, OAEP and GCM undo themselves and the encrypted key is shorter
  -- than 2 ^ 16, then whatever bytes Encrypt returns decrypt to the plaintext.
  pub decrypt-encrypt :
      (random : Random) (plaintext b : Bytes)
      → IsFull random
      → encrypt c random public_key plaintext ≡ ok b
      → decrypt c private_key b ≡ ok plaintext
  decrypt-encrypt random plaintext b full done =
      let (key, e, nonce, hk, he, hn, shape) = encrypted random plaintext b full done in
      rw shape (
        decrypt-wire e (nonce ++ c.seal key nonce plaintext) (pair.key_fits key e he)
        ∙ decrypt_rest-sealed key e nonce plaintext hk hn he)

module _ {PublicKey PrivateKey : Type 0} (c : Cipher PublicKey PrivateKey)
    (private_key : PrivateKey) where
  decrypt_rest-length :
      (enc_key rest p : Bytes)
      → decrypt_rest c private_key enc_key rest ≡ ok p
      → nonce_size ≤ length rest
  unfolding decrypt_rest
  decrypt_rest-length enc_key rest p h = ground arith

  -- Decrypt accepts only messages that hold all of the wire format: the length of the encrypted
  -- key, a key of that length and a nonce of 12 bytes. What is cut off before the end of the nonce
  -- is an error.
  pub decrypt-length :
      (b p : Bytes) → decrypt c private_key b ≡ ok p → 2 + get_uint16 b + nonce_size ≤ length b
  unfolding decrypt
  decrypt-length b p h = ground (
    arith,
    decrypt_rest-length (take (get_uint16 b) (drop 2 b)) (drop (2 + get_uint16 b) b) p,
    length-drop (2 + get_uint16 b) b,
  )
