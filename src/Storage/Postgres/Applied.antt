-- ===== src/Storage/Postgres/Applied.antt =====
-- How often a batch is applied to the database: not in part, and with retries perhaps several times.
use mathlib.Core.Path.{subst}
use study_project_metrics_an.Base.{
  ℕ, zero, suc, ◌≤◌, ◌≡◌, ◌⊎◌, inl, inr, refl, sym, ◌∙◌, ap, Bool, false, Bool-cases, Option, none,
  some, Option-cases, List, [], ◌∷◌, arith, length, All, String, ◌==◌,
}
use study_project_metrics_an.Base.Int64.{Int64}
use study_project_metrics_an.Model.{
  Float64, Metrics, type_counter, type_gauge, counter-false_of_gauge,
}
use study_project_metrics_an.Retry.{retry_delays, attempt_loop, with_retry}
use study_project_metrics_an.Storage.Memory
use study_project_metrics_an.Storage.Memory.{MetricsStorage}
use study_project_metrics_an.Storage.Memory.Batch.{IsKnown, batch_update-succeeds_iff}
use study_project_metrics_an.Storage.Postgres.{
  Pool, TxError, database, context_done, is_retriable_db_error, as_database, tx_delta, tx_value,
  tx_metric, tx_all, end_tx, run_tx, batch_update_tx, batch_update,
}

-- Documented behaviour of the database: `tables` are the rows of the two tables, `view` those that
-- a transaction sees. A statement without an error is an upsert; a commit without an error makes
-- the view the rows, one with an error may have done so or not; nothing else changes the rows.
pub record IsPool {D T E : Type 0} (pool : Pool D T E) (tables : D → MetricsStorage)
    (view : T → MetricsStorage) : Type 0 where
  pub begin_keeps : (d : D) → tables (pool.begin d).0 ≡ tables d
  pub begin_sees : (d : D) (tx : T) → (pool.begin d).1 ≡ inr tx → view tx ≡ tables d
  pub gauge_upsert :
      (k : String) (v : Float64) (tx : T)
      → (pool.tx_gauge k v tx).1 ≡ none
      → view (pool.tx_gauge k v tx).0 ≡ Memory.update_gauge k v (view tx)
  pub counter_upsert :
      (k : String) (d : Int64) (tx : T)
      → (pool.tx_counter k d tx).1 ≡ none
      → view (pool.tx_counter k d tx).0 ≡ Memory.update_counter k d (view tx)
  pub commit_done :
      (tx : T) (d : D) → (pool.commit tx d).1 ≡ none → tables (pool.commit tx d).0 ≡ view tx
  pub commit_either :
      (tx : T) (d : D)
      → (tables (pool.commit tx d).0 ≡ tables d) ⊎ (tables (pool.commit tx d).0 ≡ view tx)
  pub rollback_keeps : (tx : T) (d : D) → tables (pool.rollback tx d) ≡ tables d

-- The rows after so many applications of a batch; it is whole where its types are known.
unfoldable pub times : ℕ → List Metrics → MetricsStorage → MetricsStorage
times zero xs m = m
times (suc n) xs m = times n xs (Memory.batch_update xs m).0

module _ {D T E : Type 0} (pool : Pool D T E) (tables : D → MetricsStorage)
    (view : T → MetricsStorage) (law : IsPool pool tables view) where
  as_database-none : (o : Option E) → as_database o ≡ none → o ≡ none
  as_database-none none h = refl
  as_database-none (some e) h = ground arith

  tx_delta-view :
      (id : String) (delta : Option Int64) (tx : T)
      → (tx_delta pool id delta tx).1 ≡ none
      → view (tx_delta pool id delta tx).0 ≡ Memory.counter_metric id delta (view tx)
  unfolding Memory.counter_metric
  tx_delta-view id none tx h = refl
  tx_delta-view id (some d) tx h =
      law.counter_upsert id d tx (as_database-none (pool.tx_counter id d tx).1 h)

  tx_value-view :
      (id : String) (value : Option Float64) (tx : T)
      → (tx_value pool id value tx).1 ≡ none
      → view (tx_value pool id value tx).0 ≡ Memory.gauge_metric id value (view tx)
  unfolding Memory.gauge_metric
  tx_value-view id none tx h = refl
  tx_value-view id (some v) tx h =
      law.gauge_upsert id v tx (as_database-none (pool.tx_gauge id v tx).1 h)

  tx_metric-view :
      (x : Metrics) (tx : T)
      → (tx_metric pool x tx).1 ≡ none
      → Memory.apply_metric x (view tx) ≡ (view (tx_metric pool x tx).0, none)
  unfolding tx_metric Memory.apply_metric
  tx_metric-view x tx h = elim (Bool-cases (x.mtype == type_counter)) [
    | inl counter ↦
        let not_gauge : (x.mtype == type_gauge) ≡ false =
          ground (arith, counter-false_of_gauge x.mtype) in
        rw (counter, not_gauge)
          (ap (λ m. (m, none)) (sym (tx_delta-view x.id x.delta tx (rw (tx_metric, counter) at h))))
    | inr other ↦ elim (Bool-cases (x.mtype == type_gauge)) [
      | inl gauge ↦
          rw (other, gauge)
            (ap (λ m. (m, none))
              (sym (tx_value-view x.id x.value tx (rw (other, gauge, tx_metric) at h))))
      | inr unknown ↦ ground arith
    ]
  ]

  tx_all-view :
      (xs : List Metrics) (tx : T)
      → (tx_all pool xs tx).1 ≡ none
      → Memory.batch_update xs (view tx) ≡ (view (tx_all pool xs tx).0, none)
  unfolding tx_all Memory.batch_update
  tx_all-view [] tx h = refl
  tx_all-view (x ∷ xs) tx h = elim (Option-cases (tx_metric pool x tx).1) [
    | inr (e, failed) ↦ ground arith
    | inl fine ↦
        let step = tx_metric-view x tx fine in
        let first : (Memory.apply_metric x (view tx)).0 ≡ view (tx_metric pool x tx).0 =
          ap (λ p. p.0) step in
        let no_error : (Memory.apply_metric x (view tx)).1 ≡ none = ap (λ p. p.1) step in
        rw (Memory.batch_update, no_error)
          (rw (first, fine, tx_all)
            (tx_all-view xs (tx_metric pool x tx).0 (rw (fine, tx_all) at h)))
  ]

  -- The rows after one attempt: as before or with the whole batch applied, and the latter if there
  -- is no error; a batch with an unknown type leaves them as before.
  abbrev IsWhole : List Metrics → D → D × Option (TxError E) → Type 0
  IsWhole xs d (d', e) =
      ((tables d' ≡ tables d) × ((error : TxError E) × (e ≡ some error)))
      ⊎ (tables d' ≡ (Memory.batch_update xs (tables d)).0) × All IsKnown xs

  commit-IsWhole :
      (xs : List Metrics) (d d' : D) (tx : T)
      → tables d' ≡ tables d
      → view tx ≡ (Memory.batch_update xs (tables d)).0
      → All IsKnown xs
      → IsWhole xs d (end_tx pool (tx, none) d')
  commit-IsWhole xs d d' tx same seen known = elim (Option-cases (pool.commit tx d').1) [
    | inl done ↦
        inr
          (law.rollback_keeps tx (pool.commit tx d').0 ∙ (law.commit_done tx d' done ∙ seen), known)
    | inr (e, failed) ↦ elim (law.commit_either tx d') [
      | inl before ↦ inl (
        law.rollback_keeps tx (pool.commit tx d').0 ∙ (before ∙ same),
        (database e, ap as_database failed),
      )
      | inr after ↦ inr (law.rollback_keeps tx (pool.commit tx d').0 ∙ (after ∙ seen), known)
    ]
  ]

  end_tx-IsWhole :
      (xs : List Metrics) (d d' : D) (tx : T)
      → tables d' ≡ tables d
      → view tx ≡ tables d
      → IsWhole xs d (end_tx pool (tx_all pool xs tx) d')
  end_tx-IsWhole xs d d' tx same seen = elim (Option-cases (tx_all pool xs tx).1) [
    | inr (e, failed) ↦
        rw failed (inl (law.rollback_keeps (tx_all pool xs tx).0 d' ∙ same, (e, refl)))
    | inl fine ↦ rw fine (
        commit-IsWhole xs d d' (tx_all pool xs tx).0 same
          (sym (ap (λ p. p.0) (tx_all-view xs tx fine))
            ∙ ap (λ m. (Memory.batch_update xs m).0) seen)
          ((batch_update-succeeds_iff xs (view tx)).0 (ap (λ p. p.1) (tx_all-view xs tx fine))))
  ]

  run_tx-IsWhole :
      (xs : List Metrics) (d : D) (begun : E ⊎ T)
      → (pool.begin d).1 ≡ begun
      → IsWhole xs d (run_tx pool xs begun (pool.begin d).0)
  run_tx-IsWhole xs d (inl e) h = inl (law.begin_keeps d, (database e, refl))
  run_tx-IsWhole xs d (inr tx) h =
      end_tx-IsWhole xs d (pool.begin d).0 tx (law.begin_keeps d) (law.begin_sees d tx h)

  batch_update_tx-IsWhole : (xs : List Metrics) (d : D) → IsWhole xs d (batch_update_tx pool xs d)
  unfolding batch_update_tx
  batch_update_tx-IsWhole xs d = run_tx-IsWhole xs d (pool.begin d).1 refl

  -- The rows after several attempts, with what the last error and the types of the batch say of them.
  abbrev pub IsApplied : ℕ → List Metrics → D → D × Option (TxError E) → Type 0
  IsApplied most xs d r =
      (n : ℕ) × (n ≤ most)
      × (tables r.0 ≡ times n xs (tables d))
      × ((1 ≤ n) × All IsKnown xs ⊎ ((error : TxError E) × (r.1 ≡ some error)))
      × ((n ≡ 0) ⊎ All IsKnown xs)

  IsApplied-once :
      (xs : List Metrics) (d : D) (most : ℕ) → IsApplied (suc most) xs d (batch_update_tx pool xs d)
  unfolding times
  IsApplied-once xs d most = elim (batch_update_tx-IsWhole xs d) [
    | inl (same, failed) ↦ (0, omega arith, same, inr failed, inl refl)
    | inr (whole, known) ↦ (1, omega arith, whole, inl (omega arith, known), inr known)
  ]

  module _ (ends : ℕ → Bool) (xs : List Metrics) where
    abbrev retried : List ℕ → D → D × Option (TxError E)
    retried delays d =
        attempt_loop (batch_update_tx pool xs) (is_retriable_db_error pool.pg_code) ends
          context_done delays d

    IsApplied-after :
        (d : D) (most : ℕ) (r : D × Option (TxError E))
        → IsApplied most xs (batch_update_tx pool xs d).0 r
        → IsApplied (suc most) xs d r
    unfolding times
    IsApplied-after d most (d', e) (n, bound, rows, failed, types) =
        elim (batch_update_tx-IsWhole xs d) [
          | inl (same, _) ↦ (n, omega (arith, bound), rows ∙ ap (times n xs) same, failed, types)
          | inr (whole, known) ↦ (
            suc n,
            omega (arith, bound),
            rows ∙ ap (times n xs) whole,
            inl (omega arith, known),
            inr known,
          )
        ]

    IsApplied-first :
        (d : D) (most : ℕ) (error : TxError E)
        → IsApplied (suc most) xs d ((batch_update_tx pool xs d).0, some error)
    IsApplied-first d most error =
        let (n, bound, rows, failed, types) = IsApplied-once xs d most in
        (n, bound, rows, inr (error, refl), types)

    retried-IsApplied :
        (delays : List ℕ) (d : D) → IsApplied (suc (length delays)) xs d (retried delays d)
    unfolding attempt_loop
    retried-IsApplied [] d = IsApplied-once xs d 0
    retried-IsApplied (delay ∷ ds) d = elim (Option-cases (batch_update_tx pool xs d).1) [
      | inl done ↦
          rw (done, attempt_loop)
            (subst (λ e. IsApplied (suc (suc (length ds))) xs d ((batch_update_tx pool xs d).0, e))
              done (IsApplied-once xs d (suc (length ds))))
      | inr (e, failed) ↦ elim (Bool-cases (is_retriable_db_error pool.pg_code e)) [
        | inr lasting ↦
            rw (failed, attempt_loop) (rw lasting (IsApplied-first d (suc (length ds)) e))
        | inl transient ↦ elim (Bool-cases (ends delay)) [
          | inl ended ↦
              rw (failed, attempt_loop)
                (rw (transient, ended) (IsApplied-first d (suc (length ds)) context_done))
          | inr waits ↦
              rw (failed, attempt_loop)
                (rw (transient, waits)
                  (IsApplied-after d (suc (length ds)) (retried ds (batch_update_tx pool xs d).0)
                    (retried-IsApplied ds (batch_update_tx pool xs d).0)))
        ]
      ]
    ]

    -- A batch reaches the database whole or not at all, but perhaps more than once: if statements
    -- are upserts, a commit without an error takes effect, one with an error may have done so or
    -- not, and nothing else changes the rows, then after BatchUpdate, retries included, the rows
    -- are those after n applications of the batch for some n up to 4. A batch with a metric of an
    -- unknown type is not applied at all, and an error is returned; if n is 0, one is returned as well.
    pub batch_update-IsApplied : (d : D) → IsApplied 4 xs d (batch_update pool ends xs d)
    unfolding batch_update with_retry
    batch_update-IsApplied d = retried-IsApplied retry_delays d
