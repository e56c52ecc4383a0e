-- ===== src/Crypto/Tests.antt =====
-- Encryption with a cipher that only marks what it is given.
use study_project_metrics_an.Base.{
  ℕ, ◌<◌, ◌≡◌, refl, Option, none, some, [], ◌∷◌, ◌++◌, arith, length, eqb, if◌then◌else◌, inr,
  ◌==◌,
}
use study_project_metrics_an.Wire.{Bytes}
use study_project_metrics_an.Crypto.{ok, err, truncated_nonce, Cipher, Random, encrypt, decrypt}
use study_project_metrics_an.Crypto.RoundTrip.{IsPair, IsFull, decrypt-encrypt}
use study_project_metrics_an.Crypto.Keys.{KeyLibs, Block, load_public_key, load_public_key_iff}

abbrev unmark : ℕ → Bytes → Option Bytes
unmark k [] = none
unmark k (m ∷ b) = if eqb m k then some b else none

-- OAEP takes 32 bytes here and puts the number of the key in front; GCM puts a tag in front.
abbrev marks : Cipher ℕ ℕ
marks = record {
  encrypt_oaep = λ k b. if eqb (length b) 32 then some (k ∷ b) else none;
  decrypt_oaep = unmark;
  seal = λ key nonce p. 9 ∷ p;
  unseal = λ key nonce b. unmark 9 b;
}

oaep_back :
    (key e : Bytes)
    → (if eqb (length key) 32 then some (5 ∷ key) else none) ≡ some e
    → unmark 5 e ≡ some key
oaep_back key [] h = ground arith
oaep_back key (m ∷ e) h = ground arith

key_fits :
    (key e : Bytes)
    → (if eqb (length key) 32 then some (5 ∷ key) else none) ≡ some e
    → length e < 65536
key_fits key [] h = omega arith
key_fits key (m ∷ e) h = ground arith

marks-IsPair : IsPair marks 5 5
marks-IsPair = record {
  oaep_back = oaep_back;
  key_fits = key_fits;
  unseal-seal = λ key nonce p h. refl;
}

abbrev eight : Bytes
eight = 1 ∷ 2 ∷ 3 ∷ 4 ∷ 5 ∷ 6 ∷ 7 ∷ 8 ∷ []

abbrev random : Random
random = record {
  aes_key = some (eight ++ (eight ++ (eight ++ eight)));
  nonce = some (eight ++ (1 ∷ 2 ∷ 3 ∷ 4 ∷ []));
}

random-IsFull : IsFull random
random-IsFull = record { key_size = λ k h. ground arith; nonce_full = λ n h. ground arith }

abbrev message : Bytes
message =
    0
    ∷ 33
    ∷ 5
    ∷ (eight ++ (eight ++ (eight ++ (eight ++ (eight ++ (1 ∷ 2 ∷ 3 ∷ 4 ∷ 9 ∷ 7 ∷ 7 ∷ []))))))

sent : encrypt marks random 5 (7 ∷ 7 ∷ []) ≡ ok message
unfolding encrypt
sent = refl

decrypt-encrypt_example : decrypt marks 5 message ≡ ok (7 ∷ 7 ∷ [])
decrypt-encrypt_example =
    decrypt-encrypt marks 5 5 marks-IsPair random (7 ∷ 7 ∷ []) message random-IsFull sent

cut_off :
    decrypt marks 5 (0 ∷ 33 ∷ 5 ∷ (eight ++ (eight ++ (eight ++ (eight ++ (1 ∷ 2 ∷ []))))))
    ≡ err truncated_nonce
unfolding decrypt
cut_off = refl

-- A key file whose first byte is the kind of its block and whose second is the key.
abbrev block_of : Bytes → Option Block
block_of (kind ∷ bytes) =
    some (record { typ = if eqb kind 1 then "PUBLIC KEY" else "RSA PRIVATE KEY"; bytes = bytes })
block_of [] = none

abbrev first_byte : Bytes → Option ℕ
first_byte [] = none
first_byte (b ∷ bytes) = some b

abbrev key_libs : KeyLibs ℕ
key_libs = record {
  read_file = λ path. if path == "pub.pem" then some (1 ∷ 7 ∷ []) else none;
  decode = block_of;
  parse_pkcs1 = first_byte;
  parse_general = λ b. some (first_byte b);
}

public_key_loaded : load_public_key key_libs "pub.pem" ≡ inr 7
public_key_loaded =
    (load_public_key_iff key_libs "pub.pem" 7).1
      (1 ∷ 7 ∷ [], record { typ = "PUBLIC KEY"; bytes = 7 ∷ [] }, refl, refl, inr (refl, refl))
