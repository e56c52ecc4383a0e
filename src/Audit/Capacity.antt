-- ===== src/Audit/Capacity.antt =====
-- The bounded channel: its capacity, and what is lost when it is full.
use study_project_metrics_an.Base.{
  ℕ, ◌+◌, ◌≤◌, ◌≡◌, refl, ap, false, Option, none, some, List, [], ◌∷◌, arith, length,
  length-append,
}
use study_project_metrics_an.Audit.{
  Event, Observer, default_audit_buf_size, Subject, notify, advance, dispatch,
}
use study_project_metrics_an.Audit.Delivery.{Action, send, work, act, run}

-- A subject between two actions, before Close.
pub record IsOpen (s : Subject) : Type 0 where
  pub open_channel : s.closed ≡ false
  pub no_panic : s.panicked ≡ false
  pub capacity : length s.queue ≤ default_audit_buf_size

IsOpen-advance :
    (p : Option (Event × List Observer)) (q : List Event) (s : Subject)
    → s.queue ≡ q
    → IsOpen s
    → IsOpen (advance p q s)
unfolding advance
IsOpen-advance (some (e, o ∷ os)) q s hq h = record {
  open_channel = h.open_channel;
  no_panic = h.no_panic;
  capacity = h.capacity;
}
IsOpen-advance (some (e, [])) q s hq h = record {
  open_channel = h.open_channel;
  no_panic = h.no_panic;
  capacity = h.capacity;
}
IsOpen-advance none [] s hq h = h
IsOpen-advance none (e ∷ q) s hq h = record {
  open_channel = h.open_channel;
  no_panic = h.no_panic;
  capacity = omega (arith, h.capacity, ap (λ (l : List Event). length l) hq);
}

notify-IsOpen : (e : Event) (s : Subject) → IsOpen s → IsOpen (notify e s)
unfolding notify
notify-IsOpen e s h = ground (arith, length-append s.queue (e ∷ []))

act-IsOpen : (a : Action) (s : Subject) → IsOpen s → IsOpen (act a s)
unfolding act
act-IsOpen (send e) s h = notify-IsOpen e s h
act-IsOpen work s h = unfold dispatch in IsOpen-advance s.pending s.queue s refl h

-- Under every schedule of Notify and dispatch the queue holds at most 256 events, the channel stays
-- open and no send panics.
pub run-IsOpen : (schedule : List Action) (s : Subject) → IsOpen s → IsOpen (run schedule s)
unfolding run
run-IsOpen [] s h = h
run-IsOpen (a ∷ rest) s h = run-IsOpen rest (act a s) (act-IsOpen a s h)

-- The events that a schedule hands to Notify.
abbrev pub sent : List Action → ℕ
sent [] = 0
sent (send e ∷ rest) = sent rest + 1
sent (work ∷ rest) = sent rest
