-- ===== src/Retry/Laws.antt =====
-- How often an operation is called, when its success is reported, and that the two loops agree.
use study_project_metrics_an.Base.{
  ℕ, ◌+◌, ◌≤◌, ◌≡◌, refl, sym, ◌∙◌, Bool, true, false, Option, none, some, List, [], ◌∷◌, arith,
  length, Option-cases, inl, inr,
}
use study_project_metrics_an.Retry.{
  retry_delays, conn_loop, retry_on_conn_err, attempt_loop, with_retry,
}

module _ {S E : Type 0} (fn : S → S × Option E) (retriable : E → Bool) (ends : ℕ → Bool)
    (ctx_err : E) where
  loops_agree :
      (delays : List ℕ) (s : S)
      → conn_loop fn retriable ends ctx_err delays (fn s).0 (fn s).1
        ≡ attempt_loop fn retriable ends ctx_err delays s
  unfolding conn_loop attempt_loop
  loops_agree [] s = refl
  loops_agree (d ∷ ds) s = ground (arith, loops_agree ds (fn s).0)

  -- The agent's and the database's retry loop are the same function of the operation, the test for
  -- a transient error and the context.
  pub retry_on_conn_err-eq-with_retry :
      (s : S)
      → retry_on_conn_err fn retriable ends ctx_err s ≡ with_retry fn retriable ends ctx_err s
  unfolding retry_on_conn_err with_retry
  retry_on_conn_err-eq-with_retry s = loops_agree retry_delays s

  -- A failed call is followed by another one only after a transient error and a wait that the
  -- context outlasts.
  went_on :
      (d : ℕ) (ds : List ℕ) (s : S) (e : E)
      → (fn s).1 ≡ some e
      → (attempt_loop fn retriable ends ctx_err (d ∷ ds) s).1 ≡ none
      → (retriable e ≡ true)
        × (ends d ≡ false)
        × (attempt_loop fn retriable ends ctx_err (d ∷ ds) s
            ≡ attempt_loop fn retriable ends ctx_err ds (fn s).0)
  unfolding attempt_loop
  went_on d ds s e failed h = (ground arith, ground arith, ground arith)

  -- A loop that reports success has seen it: the last call of the operation returned no error.
  attempt_loop-success :
      (delays : List ℕ) (s : S)
      → (attempt_loop fn retriable ends ctx_err delays s).1 ≡ none
      → (t : S) × (fn t ≡ attempt_loop fn retriable ends ctx_err delays s)
  unfolding attempt_loop
  attempt_loop-success [] s h = (s, refl)
  attempt_loop-success (d ∷ ds) s h = elim (Option-cases (fn s).1) [
    | inl done ↦ (s, ground arith)
    | inr (e, failed) ↦
        let (transient, lasts, again) = went_on d ds s e failed h in
        let (t, last) = attempt_loop-success ds (fn s).0 (rw again at h) in (t, last ∙ sym again)
  ]

  module _ (calls : S → ℕ) (counts : (s : S) → calls (fn s).0 ≡ calls s + 1) where
    attempt_loop-calls :
        (delays : List ℕ) (s : S)
        → (calls s + 1 ≤ calls (attempt_loop fn retriable ends ctx_err delays s).0)
          × (calls (attempt_loop fn retriable ends ctx_err delays s).0
              ≤ calls s + 1 + length delays)
    unfolding attempt_loop
    attempt_loop-calls [] s = omega (arith, counts s)
    attempt_loop-calls (d ∷ ds) s = ground (arith, counts s, attempt_loop-calls ds (fn s).0)

  -- An operation whose every call fails with a transient error, in a context that does not end, is
  -- called once more for each delay.
  module _ (calls : S → ℕ) (counts : (s : S) → calls (fn s).0 ≡ calls s + 1)
      (fails : (s : S) → (e : E) × ((fn s).1 ≡ some e) × (retriable e ≡ true))
      (lasts : (d : ℕ) → ends d ≡ false) where
    attempt_loop-exhausts :
        (delays : List ℕ) (s : S)
        → calls (attempt_loop fn retriable ends ctx_err delays s).0 ≡ calls s + 1 + length delays
    unfolding attempt_loop
    attempt_loop-exhausts [] s = omega (arith, counts s)
    attempt_loop-exhausts (d ∷ ds) s =
        let (e, failed, transient) = fails s in
        rw (failed, attempt_loop)
          (rw (transient, lasts d) (omega (arith, counts s, attempt_loop-exhausts ds (fn s).0)))

module _ {S E : Type 0} (fn : S → S × Option E) (retriable : E → Bool) (ends : ℕ → Bool)
    (ctx_err : E) (s : S) where
  -- A retry that reports success has seen it: the operation's last call returned no error, and the
  -- state is the one that it left.
  pub with_retry-success :
      (with_retry fn retriable ends ctx_err s).1 ≡ none
      → (t : S) × (fn t ≡ with_retry fn retriable ends ctx_err s)
  unfolding with_retry
  with_retry-success h = attempt_loop-success fn retriable ends ctx_err retry_delays s h

  module _ (calls : S → ℕ) (counts : (t : S) → calls (fn t).0 ≡ calls t + 1) where
    -- Whatever the errors and the context, the operation is called at least once and at most four
    -- times.
    pub with_retry-calls :
        (calls s + 1 ≤ calls (with_retry fn retriable ends ctx_err s).0)
        × (calls (with_retry fn retriable ends ctx_err s).0 ≤ calls s + 4)
    unfolding with_retry
    with_retry-calls =
        let b = attempt_loop-calls fn retriable ends ctx_err calls counts retry_delays s in
        (b.0, omega (arith, b.1))

    -- Four calls are made where every call fails with a transient error and no wait is cut short.
    pub with_retry-exhausts :
        ((t : S) → (e : E) × ((fn t).1 ≡ some e) × (retriable e ≡ true))
        → ((d : ℕ) → ends d ≡ false)
        → calls (with_retry fn retriable ends ctx_err s).0 ≡ calls s + 4
    unfolding with_retry
    with_retry-exhausts fails lasts = omega (
      arith,
      attempt_loop-exhausts fn retriable ends ctx_err calls counts fails lasts retry_delays s,
    )
