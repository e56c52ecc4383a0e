-- ===== src/Agent/Compress/Tests.antt =====
-- Two calls that share a buffer and a writer which were left with old bytes.
use study_project_metrics_an.Base.{◌≡◌, true, Option, none, some, List, [], ◌∷◌}
use study_project_metrics_an.Wire.{Bytes}
use study_project_metrics_an.Agent.Compress.{Pools, compress_all, compress_all-map}

abbrev first : {A : Type 0} → List A → Option A × List A
first [] = (none, [])
first (x ∷ xs) = (some x, xs)

abbrev left_over : Pools
left_over = record {
  buffers = (9 ∷ 9 ∷ []) ∷ [];
  writers = record { taken = 8 ∷ []; closed = true } ∷ [];
}

abbrev framed : Bytes → Bytes
framed b = 31 ∷ b

two_calls :
    compress_all framed
      (record { buffer = first; writer = first })
      ((1 ∷ []) ∷ (2 ∷ []) ∷ [])
      left_over
    ≡ (31 ∷ 1 ∷ []) ∷ (31 ∷ 2 ∷ []) ∷ []
two_calls = compress_all-map framed (record { buffer = first; writer = first }) _ left_over
