-- ===== src/Fixtures.antt =====
-- Concrete instances of what the program takes from outside, for the tests of all parts: loops that
-- visit maps in their listed order, a json that knows one gauge and one counter, and a gzip that
-- puts a mark in front.
use study_project_metrics_an.Base.{
  ℕ, zero, suc, String, ◌≡◌, refl, Bool, true, false, ◌&&◌, Option, none, some, List, [], ◌∷◌,
  arith, ◌==◌, eqb, eq_iff, if◌then◌else◌,
}
use study_project_metrics_an.Model.{Metrics, type_counter, type_gauge, Float64}
use study_project_metrics_an.Wire.{Bytes, Body, text, Json, IsJson, Gzip, IsGzip}
use study_project_metrics_an.Handler.{Libs}
use study_project_metrics_an.Storage.Memory.{Visit}
use study_project_metrics_an.Storage.Memory.Snapshot.{IsVisit}

abbrev pub listed : Visit
listed = record { gauges = λ m. m; counters = λ m. m }

pub listed-IsVisit : IsVisit listed
listed-IsVisit = record {
  gauges_once = λ m d. record { distinct = d; same = λ k. refl };
  counters_once = λ m d. record { distinct = d; same = λ k. refl };
}

abbrev pub gauge_a : ℕ → Metrics
gauge_a v = record { id = "a"; mtype = type_gauge; delta = none; value = some v; hash = "" }

abbrev pub counter_n : ℕ → Metrics
counter_n d = record { id = "n"; mtype = type_counter; delta = some d; value = none; hash = "" }

abbrev pub histogram_h : Metrics
histogram_h = record { id = "h"; mtype = "histogram"; delta = none; value = some 1; hash = "" }

abbrev is_a : Metrics → Bool
is_a x = x.id == "a" && x.mtype == type_gauge && x.hash == ""

abbrev is_n : Metrics → Bool
is_n x = x.id == "n" && x.mtype == type_counter && x.hash == ""

-- The tag and the number of a metric that is known.
abbrev tagged : Option ℕ → Option ℕ → Metrics → Option (ℕ × ℕ)
tagged none (some v) x = if is_a x then some (0, v) else none
tagged (some d) none x = if is_n x then some (1, d) else none
tagged _ _ x = none

abbrev encode_one : Option (ℕ × ℕ) → Option Bytes → Option Bytes
encode_one (some (t, n)) (some rest) = some (t ∷ n ∷ rest)
encode_one _ _ = none

abbrev pub encode : List Metrics → Option Bytes
encode [] = some []
encode (x ∷ xs) = encode_one (tagged x.delta x.value x) (encode xs)

abbrev decode_one : ℕ → ℕ → Metrics
decode_one zero n = gauge_a n
decode_one (suc t) n = counter_n n

abbrev pub decode : Bytes → Option (List Metrics)
decode [] = some []
decode (t ∷ []) = none
decode (t ∷ n ∷ rest) = elim (decode rest) [ none ↦ none | some xs ↦ some (decode_one t n ∷ xs) ]

tagged-gauge : (x : Metrics) → is_a x ≡ true → (x.id ≡ "a") × (x.mtype ≡ type_gauge) × (x.hash ≡ "")
tagged-gauge x h = ground (arith, eq_iff x.id "a", eq_iff x.mtype type_gauge, eq_iff x.hash "")

tagged-counter :
    (x : Metrics) → is_n x ≡ true → (x.id ≡ "n") × (x.mtype ≡ type_counter) × (x.hash ≡ "")
tagged-counter x h = ground (arith, eq_iff x.id "n", eq_iff x.mtype type_counter, eq_iff x.hash "")

decode_one-tagged :
    (d v : Option ℕ) (x : Metrics) (t n : ℕ)
    → x.delta ≡ d
    → x.value ≡ v
    → tagged d v x ≡ some (t, n)
    → decode_one t n ≡ x
decode_one-tagged none (some v) x zero n p q h = ground (arith, tagged-gauge x)
decode_one-tagged none (some v) x (suc t) n p q h = ground arith
decode_one-tagged (some d) none x zero n p q h = ground arith
decode_one-tagged (some d) none x (suc t) n p q h = ground (arith, tagged-counter x)
decode_one-tagged none none x t n p q h = cc
decode_one-tagged (some d) (some v) x t n p q h = cc

encode_one-some :
    (o : Option (ℕ × ℕ)) (r : Option Bytes) (b : Bytes)
    → encode_one o r ≡ some b
    → (t : ℕ) × (n : ℕ) × (rest : Bytes) × (o ≡ some (t, n)) × (r ≡ some rest) × (b ≡ t ∷ n ∷ rest)
encode_one-some (some (t, n)) (some rest) b h = (t, n, rest, refl, refl, ground arith)
encode_one-some none r b h = cc
encode_one-some (some (t, n)) none b h = cc

decode-cons :
    (t n : ℕ) (rest : Bytes) (xs : List Metrics) (x : Metrics)
    → decode rest ≡ some xs
    → decode_one t n ≡ x
    → decode (t ∷ n ∷ rest) ≡ some (x ∷ xs)
decode-cons t n rest xs x h e = ground arith

decode-encode : (xs : List Metrics) (b : Bytes) → encode xs ≡ some b → decode b ≡ some xs
decode-encode [] [] h = refl
decode-encode [] (t ∷ b) h = ground arith
decode-encode (x ∷ xs) b h =
    let (t, n, rest, first, more, shape) =
      encode_one-some (tagged x.delta x.value x) (encode xs) b h in
    rw shape (
      decode-cons t n rest xs x (decode-encode xs rest more)
        (decode_one-tagged x.delta x.value x t n refl refl first))

abbrev first_of_list : Option (List Metrics) → Option Metrics
first_of_list (some (x ∷ [])) = some x
first_of_list _ = none

abbrev decode_body : Body → Option (List Metrics)
decode_body body = elim body.broken [ true ↦ none | false ↦ decode body.content ]

abbrev pub toy_json : Json
toy_json = record {
  encode_metric = λ x. encode (x ∷ []);
  read_metric = λ b. first_of_list (decode_body b);
  encode_metrics = encode;
  decode_metrics = decode;
  read_metrics = decode_body;
}

pub toy_json-IsJson : IsJson toy_json
toy_json-IsJson = record {
  metric_read = λ x b h. rw (decode-encode (x ∷ []) b h);
  metrics_back = decode-encode;
  metrics_read = decode-encode;
}

abbrev is_marked : Bytes → Bool
is_marked [] = false
is_marked (m ∷ b) = eqb m 31

abbrev unmark : Bytes → Bytes
unmark [] = []
unmark (m ∷ b) = b

abbrev pub toy_gzip : Gzip
toy_gzip = record {
  gzip = λ b. 31 ∷ b;
  has_header = λ b. is_marked b.content;
  gunzip = λ b. record b { content = unmark b.content };
}

pub toy_gzip-IsGzip : IsGzip toy_gzip
toy_gzip-IsGzip = record { header = λ b. refl; back = λ b. refl }

-- A float64 is posted and printed as one text, and the page of the root is empty.
abbrev parse_one : String → Option Float64
parse_one t = if t == "1.5" then some 4609434218613702656 else none

abbrev host_of : String → Option String
host_of a = if a == "10.0.0.1:80" then some "10.0.0.1" else none

abbrev pub toy_libs : Libs
toy_libs = record {
  json = toy_json;
  gzip = toy_gzip;
  mac = λ b k. "signed";
  decode_error = λ b. "EOF";
  split_host_port = host_of;
  parse_float = parse_one;
  format_float = λ v. text "1.5";
  parse_template = λ t. some (λ g c. []);
}
