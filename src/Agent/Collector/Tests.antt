-- ===== src/Agent/Collector/Tests.antt =====
-- Runs of the collector with its goroutines.
use study_project_metrics_an.Middleware.Toy.{full_random}
use study_project_metrics_an.Base.{
  ℕ, zero, suc, ◌≡◌, refl, ap, ◌∙◌, true, false, Option, none, some, List, [], ◌∷◌, ◌++◌, ◌⊎◌, inl,
  inr,
}
use study_project_metrics_an.Model.{Metrics}
use study_project_metrics_an.Agent.{Net}
use study_project_metrics_an.Agent.Collector.{
  Collector, TryError, permanent, transient, add_metric, send_batch, retry_batch, try_send_batch,
}
use study_project_metrics_an.Agent.Collector.Flush.{IsRetry, again}
use study_project_metrics_an.Agent.Collector.Goroutines.{
  Log, recorded, State, start, add, send, Reach, here, next,
}
use study_project_metrics_an.Agent.Collector.Accounts.{IsAccounted, Reach-IsAccounted}
use study_project_metrics_an.Fixtures.{toy_json, toy_gzip, gauge_a, counter_n}

-- The result of a run, or `rest` after an error that can pass.
abbrev settle : {N : Type 0} → N × Option TryError → N × Option TryError → N × Option TryError
settle (n, none) rest = (n, none)
settle (n, some permanent) rest = (n, some permanent)
settle (n, some transient) rest = rest

-- Up to so many more runs after such an error.
unfoldable attempts : {N : Type 0} → ℕ → (N → N × Option TryError) → N → N × Option TryError
attempts zero op n = op n
attempts (suc k) op n = settle (op n) (attempts k op (op n).0)

attempts-at_once :
    {N : Type 0} (k : ℕ) (op : N → N × Option TryError) (n n' : N)
    → op n ≡ (n', none)
    → attempts k op n ≡ (n', none)
unfolding attempts
attempts-at_once zero op n n' h = h
attempts-at_once (suc k) op n n' h = ap (λ r. settle r (attempts k op (op n).0)) h

settle-cases :
    {N : Type 0} (r rest : N × Option TryError) → (settle r rest ≡ r) ⊎ (settle r rest ≡ rest)
settle-cases (n, none) rest = inl refl
settle-cases (n, some permanent) rest = inl refl
settle-cases (n, some transient) rest = inr refl

attempts-last :
    {N : Type 0} (k : ℕ) (op : N → N × Option TryError) (n : N)
    → (j : ℕ) × (attempts k op n ≡ op (again op j n))
unfolding attempts again
attempts-last zero op n = (0, refl)
attempts-last (suc k) op n = elim (settle-cases (op n) (attempts k op (op n).0)) [
  | inl e ↦ (0, e)
  | inr e ↦ let (j, last) = attempts-last k op (op n).0 in (suc j, e ∙ last)
]

attempts-IsRetry : {N : Type 0} (k : ℕ) → IsRetry {N = N} (attempts k)
attempts-IsRetry k = record { at_once = attempts-at_once k; last = attempts-last k }

-- A server that gives these answers and then none.
abbrev answering : Net (List ℕ) ℕ
answering = record {
  bad_url = λ u. none;
  random = λ n. (n, full_random);
  client_do = λ p n. elim n [ [] ↦ ([], inl 1) | code ∷ codes ↦ (codes, inr code) ];
  is_net_error = λ e. true;
}

abbrev fresh : Collector
fresh = record { gauge = []; counter = []; buffer = []; batch_size = 2; endpoint = "http://server" }

abbrev Reached : List Metrics → State (List ℕ × Log) → Type 0
Reached =
    Reach toy_json toy_gzip (recorded answering) (λ e. false) (attempts 3)
      (start fresh (503 ∷ 200 ∷ [], []))

abbrev two : List Metrics
two = gauge_a 7 ∷ counter_n 3 ∷ []

-- The second metric fills the buffer, and sendBatch is started.
abbrev full : State (List ℕ × Log)
full = record {
  collector = record fresh { buffer = two };
  network = (503 ∷ 200 ∷ [], []);
  flushers = 0;
  started = 1;
}

full-Reached : Reached two full
unfolding add_metric
full-Reached = next (next here (add (gauge_a 7))) (add (counter_n 3))

-- It posts the batch, which is answered with 503, and once more, which is answered with 200.
abbrev after_send : State (List ℕ × Log)
after_send = record {
  collector =
      (send_batch toy_json toy_gzip (recorded answering) (λ e. false) (attempts 3) full.collector
        full.network).0;
  network =
      (send_batch toy_json toy_gzip (recorded answering) (λ e. false) (attempts 3) full.collector
        full.network).1;
  flushers = 0;
  started = 0;
}

after_send-Reached : Reached (two ++ []) after_send
after_send-Reached = next full-Reached (send 0 refl)

answered_codes : (after_send.collector.buffer ≡ []) × (after_send.network.0 ≡ [])
unfolding send_batch retry_batch try_send_batch attempts
answered_codes = (refl, refl)

Reach-IsAccounted_example :
    IsAccounted toy_json toy_gzip answering
      (λ e. false)
      (attempts 3)
      (attempts-IsRetry 3)
      "http://server"
      two
      after_send.collector
      after_send.network.1
Reach-IsAccounted_example =
    Reach-IsAccounted toy_json toy_gzip answering (λ e. false) (attempts 3) (attempts-IsRetry 3)
      fresh (503 ∷ 200 ∷ []) refl after_send-Reached
