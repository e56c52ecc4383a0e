-- ===== src/Agent/Setup/Runs.antt =====
-- Which settings let the agent run, and how a run of it ends.
use study_project_metrics_an.Base.{
  ℕ, String, ◌≡◌, refl, ◌+◌, ◌<◌, ◌≤◌, ◌^◌, ◌↔◌, true, List, [], ◌⊎◌, inl, inr, arith,
}
use study_project_metrics_an.Base.Int64.{Int64}
use study_project_metrics_an.Model.{Metrics}
use study_project_metrics_an.Storage.Memory.{Visit}
use study_project_metrics_an.Config.{Flags}
use study_project_metrics_an.Agent.Main.{Agent, Reach, capacity}
use study_project_metrics_an.Agent.Main.Accounts.{total}
use study_project_metrics_an.Agent.Main.Shutdown.{
  Run, IsDone, Reach-Run, Reach-ends, done-accounted,
}
use study_project_metrics_an.Agent.Setup.{
  SetupError, Transport, grpc, http, Libs, Setup, setup, duration, channel_size, ticks, has_channel,
  runs, exit_status,
}
use study_project_metrics_an.Agent.Setup.Configured.{IsConfigured, setup-IsConfigured}

-- The whole seconds of the longest time.Duration.
abbrev pub longest : ℕ
longest = 9223372036

ticks_iff : (n : Int64) → n ≤ longest → (ticks n ≡ true) ↔ (0 < n)
unfolding ticks duration
ticks_iff n h = (λ e. ground arith, λ p. ground arith)

-- The channel of jobs can be made.
abbrev pub HasRoom : {Conn : Type 0} → Transport Conn → Int64 → Type 0
HasRoom (grpc sender) n = Unit
HasRoom http n = n < 2 ^ 62

has_channel_iff :
    {Conn : Type 0} (t : Transport Conn) (n : Int64)
    → 0 < n
    → n < 2 ^ 63
    → (has_channel t n ≡ true) ↔ HasRoom t n
unfolding channel_size
has_channel_iff (grpc sender) n p h = (λ e. tt, λ r. refl)
has_channel_iff http n p h = (λ e. ground arith, λ r. ground arith)

module _ {PublicKey Conn E : Type 0} (libs : Libs PublicKey Conn E) (config : String)
    (args : List String) (f : Flags) where
  abbrev outcome : SetupError E ⊎ Setup PublicKey Conn
  outcome = setup libs config args f

  -- What the settings must be for the goroutines to come to their loops.
  abbrev pub CanRun : Setup PublicKey Conn → Type 0
  CanRun s =
      (0 < s.config.poll_interval)
      × (0 < s.config.report_interval)
      × HasRoom s.transport s.config.rate_limit

  runs_iff :
      (s : Setup PublicKey Conn)
      → IsConfigured libs s
      → s.config.poll_interval ≤ longest
      → s.config.report_interval ≤ longest
      → (runs s ≡ true) ↔ CanRun s
  unfolding runs
  runs_iff s i p r = ground (
    arith,
    i.working,
    ticks_iff s.config.poll_interval,
    ticks_iff s.config.report_interval,
    has_channel_iff s.transport s.config.rate_limit,
  )

  status-inr :
      (o : SetupError E ⊎ Setup PublicKey Conn)
      → (exit_status o ≡ 0) ↔ ((s : Setup PublicKey Conn) × (o ≡ inr s) × (runs s ≡ true))
  unfolding exit_status
  status-inr (inl e) = (λ h. absurd (omega (arith, h)), λ (s, e', r). absurd cc)
  status-inr (inr s) = (λ h. (s, refl, ground arith), λ (s', e, r). ground arith)

  pub exit_status_iff :
      ((s : Setup PublicKey Conn)
        → setup libs config args f ≡ inr s
        → (s.config.poll_interval ≤ longest) × (s.config.report_interval ≤ longest))
      → (exit_status (setup libs config args f) ≡ 0)
        ↔ ((s : Setup PublicKey Conn) × (setup libs config args f ≡ inr s) × CanRun s)
  exit_status_iff bounded = (
    λ h.
        let (s, e, r) = (status-inr outcome).0 h in
        let (p, q) = bounded s e in
        (s, e, (runs_iff s (setup-IsConfigured libs config args f s e) p q).0 r),
    λ (s, e, can).
        let (p, q) = bounded s e in
        (status-inr outcome).1
          (s, e, (runs_iff s (setup-IsConfigured libs config args f s e) p q).1 can),
  )

  -- From the settings to the end: an agent that is set up for HTTP and can run has a channel of the
  -- size that its workers go by, and from every state that it then reaches there is a run, with
  -- the signal, to the return of all goroutines, at which the channel is empty and every metric of
  -- the snapshots was handed to SendMetric or given up by the reporter.
  pub setup-ends :
      (s : Setup PublicKey Conn)
      → setup libs config args f ≡ inr s
      → s.transport ≡ http
      → CanRun s
      → (visit : Visit) (a : Agent) (w : Metrics → ℕ)
      → Reach visit s.config.rate_limit s.collector a
      → (channel_size s.config.rate_limit ≡ capacity s.config.rate_limit)
        × ((t : Agent) × Run visit s.config.rate_limit a t
            × IsDone t
            × (t.jobs ≡ [])
            × (total w t.handled + total w t.lost ≡ total w t.taken))
  unfolding channel_size
  setup-ends s e over_http can visit a w r =
      let i = setup-IsConfigured libs config args f s e in
      let room : s.config.rate_limit < 2 ^ 62 = rw over_http at can.2 in
      let (t, run, done) = Reach-ends visit s.config.rate_limit s.collector i.working.0 r in
      let (empty, accounted) = done-accounted w s.collector i.working.0 (Reach-Run r run) done in
      (omega arith, (t, run, done, empty, accounted))
