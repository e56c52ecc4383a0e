-- ===== src/Middleware/Toy.antt =====
-- A server with concrete libraries: a cipher that marks its messages, a gzip that puts a mark in
-- front, and a network that holds one address.
use study_project_metrics_an.Base.{
  ℕ, zero, suc, String, ◌≡◌, refl, Bool, true, false, Option, none, some, [], ◌∷◌, ◌++◌, ◌<◌, arith,
  eqb, length, ◌==◌, if◌then◌else◌,
}
use study_project_metrics_an.Wire.{Bytes}
use study_project_metrics_an.Crypto.{Cipher, Random}
use study_project_metrics_an.Crypto.RoundTrip.{IsPair, IsFull}
use study_project_metrics_an.Middleware.{Config, Serve, status, body}
use study_project_metrics_an.Fixtures.{toy_gzip}

abbrev one_ip : String → Option ℕ
one_ip t = if t == "10.0.0.1" then some 1 else none

abbrev is_one : ℕ → ℕ → Bool
is_one net zero = false
is_one net (suc ip) = true

abbrev unmark : ℕ → Bytes → Option Bytes
unmark k [] = none
unmark k (m ∷ b) = if eqb m k then some b else none

-- OAEP puts the number of the key in front, GCM a tag.
abbrev pub marks : Cipher ℕ ℕ
marks = record {
  encrypt_oaep = λ k b. if eqb (length b) 32 then some (k ∷ b) else none;
  decrypt_oaep = unmark;
  seal = λ key nonce p. 9 ∷ p;
  unseal = λ key nonce b. unmark 9 b;
}

oaep_back :
    (key e : Bytes)
    → (if eqb (length key) 32 then some (5 ∷ key) else none) ≡ some e
    → unmark 5 e ≡ some key
oaep_back key [] h = ground arith
oaep_back key (m ∷ e) h = ground arith

key_fits :
    (key e : Bytes)
    → (if eqb (length key) 32 then some (5 ∷ key) else none) ≡ some e
    → length e < 65536
key_fits key [] h = omega arith
key_fits key (m ∷ e) h = ground arith

pub marks-IsPair : IsPair marks 5 5
marks-IsPair = record {
  oaep_back = oaep_back;
  key_fits = key_fits;
  unseal-seal = λ key nonce p h. refl;
}

abbrev eight : Bytes
eight = 1 ∷ 2 ∷ 3 ∷ 4 ∷ 5 ∷ 6 ∷ 7 ∷ 8 ∷ []

abbrev pub full_random : Random
full_random = record {
  aes_key = some (eight ++ (eight ++ (eight ++ eight)));
  nonce = some (eight ++ (1 ∷ 2 ∷ 3 ∷ 4 ∷ []));
}

pub full_random-IsFull : IsFull full_random
full_random-IsFull = record { key_size = λ k h. ground arith; nonce_full = λ n h. ground arith }

-- Every message has the hash "signed" here.
abbrev pub server : Config ℕ ℕ ℕ ℕ
server = record {
  cipher = marks;
  gzip = toy_gzip;
  mac = λ b key. "signed";
  contains = λ part t. part == t;
  parse_ip = one_ip;
  within = is_one;
  private_key = some 5;
  subnet = some 0;
  key = "k";
}

-- A handler that adds its body to the world and answers 200.
abbrev pub collect : Serve Bytes
collect r world = (world ++ r.body.content, status 200 ∷ body (7 ∷ []) ∷ [])
