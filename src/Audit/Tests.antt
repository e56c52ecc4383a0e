-- ===== src/Audit/Tests.antt =====
-- The audit subject under concrete schedules.
use study_project_metrics_an.Base.{
  ℕ, ◌≤◌, ◌≡◌, refl, List, [], ◌∷◌, arith, true, false, Option, some,
}
use study_project_metrics_an.Audit.{Event, Observer, Subject, new_subject, notify, close, dispatch}
use study_project_metrics_an.Audit.Delivery.{
  Action, send, work, act, run, accepted, all_calls, steps_left, drain, close-delivers,
}
use study_project_metrics_an.Wire.{Bytes}
use study_project_metrics_an.Audit.Observers.{FileObserver}

abbrev first_event : Event
first_event = record { ts = 1; metrics = "a" ∷ []; ip_address = "10.0.0.1" }

abbrev second_event : Event
second_event = record { ts = 2; metrics = "a" ∷ "n" ∷ []; ip_address = "10.0.0.2" }

abbrev schedule : List Action
schedule = send first_event ∷ work ∷ send second_event ∷ work ∷ []

abbrev observers : List Observer
observers = 0 ∷ 1 ∷ []

-- The first event has reached one observer when Close is called.
so_far : (run schedule (new_subject observers)).delivered ≡ (0, first_event) ∷ []
unfolding run act notify dispatch new_subject
so_far = refl

in_order :
    (drain 6 (close (run schedule (new_subject observers)))).delivered
    ≡ (0, first_event) ∷ (1, first_event) ∷ (0, second_event) ∷ (1, second_event) ∷ []
unfolding drain close run act notify dispatch new_subject
in_order = refl

enough : steps_left (close (run schedule (new_subject observers))) ≤ 6
unfolding close run act notify dispatch new_subject
enough = omega arith

close-delivers_example :
    (drain 6 (close (run schedule (new_subject observers)))).delivered
    ≡ all_calls observers (accepted schedule (new_subject observers))
close-delivers_example = close-delivers observers schedule 6 enough

abbrev after : Subject
after = run schedule (new_subject observers)

-- An encoding of events by their time.
abbrev encode_time : Event → Option Bytes
encode_time e = some (e.ts ∷ [])

abbrev at_time : ℕ → Event
at_time ts = record { ts = ts; metrics = []; ip_address = "" }

abbrev opened_file : FileObserver
opened_file = record { content = 1 ∷ 10 ∷ []; stuck = false }

-- What the observer is after a write that failed.
abbrev stuck_file : FileObserver
stuck_file = record opened_file { stuck = true }
