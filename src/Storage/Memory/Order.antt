-- ===== src/Storage/Memory/Order.antt =====
-- Counters do not depend on the order in which deltas arrive: whatever the interleaving of
-- concurrent updates, none is lost.
use mathlib.Core.List.{Perm, Permᴰ}
use mathlib.Core.Logic.{∥∥₁_elim}
use native.Mathlib.Nat.{ℕ_set}
use study_project_metrics_an.Base.{
  String, ◌≡◌, refl, ap, ◌∙◌, sym, Option, none, some, List, arith, All,
}
use study_project_metrics_an.Base.Int64.{Int64, add64}
use study_project_metrics_an.Base.Assoc.{lookup}
use study_project_metrics_an.Model.{Metrics}
use study_project_metrics_an.Storage.Memory.{MetricsStorage, batch_update, get_counter, found}
use study_project_metrics_an.Storage.Memory.Batch.{
  IsKnown, counter_delta, plus, total_delta, raised, batch_update-reads,
}

plus_left_comm : (a b c : Option Int64) → plus a (plus b c) ≡ plus b (plus a c)
unfolding add64
plus_left_comm none none c = refl
plus_left_comm none (some b) c = refl
plus_left_comm (some a) none c = refl
plus_left_comm (some a) (some b) none = ground arith
plus_left_comm (some a) (some b) (some c) = ground arith

total_delta-Permᴰ :
    (k : String) {xs ys : List Metrics} → Permᴰ xs ys → total_delta k xs ≡ total_delta k ys
unfolding total_delta
total_delta-Permᴰ k Permᴰ.nil = refl
total_delta-Permᴰ k (Permᴰ.cons {b = b} e p) = rw (e, total_delta-Permᴰ k p)
total_delta-Permᴰ k (Permᴰ.swap {a' = a'} {b' = b'} {l = l} e f) =
    rw (e, f) (plus_left_comm (counter_delta k b') (counter_delta k a') (total_delta k l))
total_delta-Permᴰ k (Permᴰ.trans p q) = total_delta-Permᴰ k p ∙ total_delta-Permᴰ k q

total_delta-set : IsSet (Option Int64)
total_delta-set = hlevel ℕ_set

-- Two batches of known types that hold the same metrics in another order leave every counter with
-- the same reading.
pub get_counter-batch_update_perm :
    (k : String) (xs ys : List Metrics) (m : MetricsStorage)
    → Perm xs ys
    → All IsKnown xs
    → All IsKnown ys
    → get_counter k (batch_update xs m).0 ≡ get_counter k (batch_update ys m).0
get_counter-batch_update_perm k xs ys m p hx hy =
    (batch_update-reads k xs m hx).1
    ∙ ap (λ t. found (raised t (lookup k m.counters)))
        (∥∥₁_elim p (total_delta-set _ _) (total_delta-Permᴰ k))
    ∙ sym (batch_update-reads k ys m hy).1
