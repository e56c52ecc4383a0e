-- ===== src/Wire.antt =====
-- What the program takes from outside to turn data into bytes: encoding/json, compress/gzip and the
-- keyed hash. They are parameters of the model, with the documented behaviour that proofs rely on.
use Prim.Native.Char.{code}
use study_project_metrics_an.Base.{
  ℕ, String, ◌≡◌, Bool, true, false, Option, none, some, List, [], ◌∷◌,
}
use study_project_metrics_an.Model.{Metrics}

abbrev pub Bytes : Type 0
Bytes = List ℕ

-- The bytes of an ASCII text.
abbrev pub text : String → Bytes
text String.[] = []
text (String.◌∷◌ c s) = code c ∷ text s

-- What a reader delivers: some bytes, and then the end or an error.
pub record Body : Type 0 where
  pub content : Bytes
  pub broken : Bool

abbrev pub whole : Bytes → Body
whole b = record { content = b; broken = false }

-- io.ReadAll
abbrev pub read_all : Body → Option Bytes
read_all body = elim body.broken [ true ↦ none | false ↦ some body.content ]

-- encoding/json at the types that the program encodes: Marshal, which fails at a NaN or an
-- infinity, Unmarshal, and a Decoder that reads one value from a body.
pub record Json : Type 0 where
  pub encode_metric : Metrics → Option Bytes
  pub read_metric : Body → Option Metrics
  pub encode_metrics : List Metrics → Option Bytes
  pub decode_metrics : Bytes → Option (List Metrics)
  pub read_metrics : Body → Option (List Metrics)

-- What was encoded decodes to itself.
pub record IsJson (json : Json) : Type 0 where
  pub metric_read :
      (x : Metrics) (b : Bytes)
      → json.encode_metric x ≡ some b
      → json.read_metric (whole b) ≡ some x
  pub metrics_back :
      (xs : List Metrics) (b : Bytes)
      → json.encode_metrics xs ≡ some b
      → json.decode_metrics b ≡ some xs
  pub metrics_read :
      (xs : List Metrics) (b : Bytes)
      → json.encode_metrics xs ≡ some b
      → json.read_metrics (whole b) ≡ some xs

-- compress/gzip: NewReader fails unless the body begins with a gzip header; what it delivers then
-- may still break off.
pub record Gzip : Type 0 where
  pub gzip : Bytes → Bytes
  pub has_header : Body → Bool
  pub gunzip : Body → Body

pub record IsGzip (g : Gzip) : Type 0 where
  pub header : (b : Bytes) → g.has_header (whole (g.gzip b)) ≡ true
  pub back : (b : Bytes) → g.gunzip (whole (g.gzip b)) ≡ whole b

-- The hex text of the keyed hash of a message, crypto/hmac over sha256.
abbrev pub Mac : Type 0
Mac = Bytes → String → String
