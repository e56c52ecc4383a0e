-- ===== src/Audit.antt =====
-- internal/audit/audit.go: the subject that queues audit events and its dispatch goroutine.
pub mod Delivery
pub mod Capacity
pub mod Observers
mod Tests
use study_project_metrics_an.Base.{
  ℕ, String, Bool, true, false, Option, none, some, List, [], ◌∷◌, ◌++◌, length, ltb, if◌then◌else◌,
}
use study_project_metrics_an.Base.Int64.{Int64}

pub record Event : Type 0 where
  pub ts : Int64
  pub metrics : List String
  pub ip_address : String

-- An observer, by its place among those that NewSubject was given.
abbrev pub Observer : Type 0
Observer = ℕ

abbrev pub default_audit_buf_size : ℕ
default_audit_buf_size = 256

-- `queue` is the buffered channel, `pending` the event that dispatch has taken from it with the
-- observers that it has still to call. The last three record what happened: a panic, the calls of
-- observers and the events that a full channel lost, each in order.
pub record Subject : Type 0 where
  pub observers : List Observer
  pub queue : List Event
  pub pending : Option (Event × List Observer)
  pub closed : Bool
  pub panicked : Bool
  pub delivered : List (Observer × Event)
  pub dropped : List Event

unfoldable pub new_subject : List Observer → Subject
new_subject obs = record {
  observers = obs;
  queue = [];
  pending = none;
  closed = false;
  panicked = false;
  delivered = [];
  dropped = [];
}

-- The `select` of Notify: a send on a closed channel panics, one to a full channel is not ready.
unfoldable pub notify : Event → Subject → Subject
notify e s =
    if s.closed
    then record s { panicked = true }
    else if ltb (length s.queue) default_audit_buf_size
    then record s { queue = s.queue ++ e ∷ [] }
    else record s { dropped = s.dropped ++ e ∷ [] }

unfoldable pub close : Subject → Subject
close s = record s { closed = true }

-- One step of dispatch: the next observer of the event in hand, or else the next event.
unfoldable pub advance : Option (Event × List Observer) → List Event → Subject → Subject
advance (some (e, o ∷ os)) queue s = record s {
  pending = some (e, os);
  delivered = s.delivered ++ (o, e) ∷ [];
}
advance (some (e, [])) queue s = record s { pending = none }
advance none [] s = s
advance none (e ∷ queue) s = record s { queue = queue; pending = some (e, s.observers) }

unfoldable pub dispatch : Subject → Subject
unfolding advance
dispatch s = advance s.pending s.queue s
