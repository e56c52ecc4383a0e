-- ===== src/Retry.antt =====
-- retryOnConnErr of internal/agent/util.go and withRetry of internal/storage/postgresql.go: the two
-- loops that repeat an operation after a transient error. The operation is a step on a state, with
-- an error or none; waiting is where the context can end.
pub mod Laws
mod Tests
use study_project_metrics_an.Base.{ℕ, Bool, Option, none, some, List, [], ◌∷◌, if◌then◌else◌}

-- The waits in seconds, the same in both packages.
abbrev pub retry_delays : List ℕ
retry_delays = 1 ∷ 3 ∷ 5 ∷ []

-- `retriable` is the test of the package, `ends` says whether the context ends during the wait of
-- that many seconds, and `ctx_err` is then its error.
module _ {S E : Type 0} (fn : S → S × Option E) (retriable : E → Bool) (ends : ℕ → Bool)
    (ctx_err : E) where
  -- The loop of retryOnConnErr, with the state and the error of the last call.
  unfoldable pub conn_loop : List ℕ → S → Option E → S × Option E
  conn_loop [] s err = (s, err)
  conn_loop (delay ∷ delays) s none = (s, none)
  conn_loop (delay ∷ delays) s (some e) =
      let (s', err') = fn s in
      let again = conn_loop delays s' err' in
      if retriable e then (if ends delay then (s, some ctx_err) else again) else (s, some e)

  unfoldable pub retry_on_conn_err : S → S × Option E
  unfolding conn_loop
  retry_on_conn_err s = let (s', err) = fn s in conn_loop retry_delays s' err

  -- The loop of withRetry with the delays that are left; with none left the error is returned.
  unfoldable pub attempt_loop : List ℕ → S → S × Option E
  attempt_loop [] s = fn s
  attempt_loop (delay ∷ delays) s =
      let (s', err) = fn s in
      let again = attempt_loop delays s' in
      elim err [
        | none ↦ (s', none)
        | some e ↦
            if retriable e then (if ends delay then (s', some ctx_err) else again) else (s', some e)
      ]

  unfoldable pub with_retry : S → S × Option E
  unfolding attempt_loop
  with_retry s = attempt_loop retry_delays s
