-- ===== src/Audit/Delivery.antt =====
-- Every event that Notify takes reaches every observer, once and in order.
use study_project_metrics_an.Base.{
  ℕ, zero, suc, ◌+◌, ◌-◌, ◌≤◌, ◌≡◌, refl, ap, sym, ◌∙◌, Option, none, some, List, [], ◌∷◌, ◌++◌,
  append-nil, append_assoc, arith, length, ltb, if◌then◌else◌,
}
use study_project_metrics_an.Audit.{
  Event, Observer, default_audit_buf_size, Subject, new_subject, notify, close, advance, dispatch,
}

-- A schedule of the handlers' calls of Notify and the steps of the goroutine.
pub data Action : Type 0 where
  send : Event → Action
  work : Action

unfoldable pub act : Action → Subject → Subject
act (send e) s = notify e s
act work s = dispatch s

unfoldable pub run : List Action → Subject → Subject
run [] s = s
run (a ∷ rest) s = run rest (act a s)

-- The events that Notify puts in the channel.
unfoldable pub taken : Action → Subject → List Event
taken (send e) s =
    if s.closed then [] else if ltb (length s.queue) default_audit_buf_size then e ∷ [] else []
taken work s = []

unfoldable pub accepted : List Action → Subject → List Event
accepted [] s = []
accepted (a ∷ rest) s = taken a s ++ accepted rest (act a s)

-- The calls that one event asks for, and those that a list of events asks for.
abbrev pub calls : List Observer → Event → List (Observer × Event)
calls [] e = []
calls (o ∷ os) e = (o, e) ∷ calls os e

abbrev pub all_calls : List Observer → List Event → List (Observer × Event)
all_calls obs [] = []
all_calls obs (e ∷ es) = calls obs e ++ all_calls obs es

abbrev pending_calls : Option (Event × List Observer) → List (Observer × Event)
pending_calls none = []
pending_calls (some (e, os)) = calls os e

-- What dispatch has still to do.
abbrev pub owed : Subject → List (Observer × Event)
owed s = pending_calls s.pending ++ all_calls s.observers s.queue

abbrev pub pending_steps : Option (Event × List Observer) → ℕ
pending_steps none = 0
pending_steps (some (e, os)) = length os + 1

abbrev pub queue_steps : ℕ → List Event → ℕ
queue_steps n [] = 0
queue_steps n (e ∷ es) = n + 2 + queue_steps n es

all_calls-append :
    (obs : List Observer) (xs ys : List Event)
    → all_calls obs (xs ++ ys) ≡ all_calls obs xs ++ all_calls obs ys
all_calls-append obs [] ys = refl
all_calls-append obs (x ∷ xs) ys = simp (all_calls-append obs xs ys, append_assoc)

observers-advance :
    (p : Option (Event × List Observer)) (q : List Event) (s : Subject)
    → (advance p q s).observers ≡ s.observers
unfolding advance
observers-advance (some (e, o ∷ os)) q s = refl
observers-advance (some (e, [])) q s = refl
observers-advance none [] s = refl
observers-advance none (e ∷ q) s = refl

observers-act : (a : Action) (s : Subject) → (act a s).observers ≡ s.observers
unfolding act
observers-act (send e) s = unfold notify in ground arith
observers-act work s = unfold dispatch in observers-advance s.pending s.queue s

-- A step of dispatch moves one call from what is owed to what is delivered.
owed-advance :
    (p : Option (Event × List Observer)) (q : List Event) (s : Subject)
    → s.pending ≡ p
    → s.queue ≡ q
    → (advance p q s).delivered ++ owed (advance p q s)
      ≡ s.delivered ++ (pending_calls p ++ all_calls s.observers q)
unfolding advance
owed-advance (some (e, o ∷ os)) q s hp hq = rw hq (append_assoc s.delivered ((o, e) ∷ []) _)
owed-advance (some (e, [])) q s hp hq = rw hq
owed-advance none [] s hp hq = rw (hp, hq)
owed-advance none (e ∷ q) s hp hq = refl

owed-act :
    (a : Action) (s : Subject)
    → (act a s).delivered ++ owed (act a s)
      ≡ (s.delivered ++ owed s) ++ all_calls s.observers (taken a s)
unfolding act taken
owed-act (send e) s =
    unfold notify in
    ground (
      arith,
      append-nil (s.delivered ++ owed s),
      all_calls-append s.observers s.queue (e ∷ []),
      append_assoc (pending_calls s.pending) (all_calls s.observers s.queue)
          (all_calls s.observers (e ∷ [])),
      append_assoc s.delivered (owed s) (all_calls s.observers (e ∷ [])),
    )
owed-act work s = unfold dispatch in owed-advance s.pending s.queue s refl refl ∙ sym (append-nil _)

-- For every schedule: what was delivered and what is owed make up what was delivered and owed
-- before and the calls for the events accepted since, in that order.
pub owed-run :
    (schedule : List Action) (s : Subject)
    → (run schedule s).delivered ++ owed (run schedule s)
      ≡ (s.delivered ++ owed s) ++ all_calls s.observers (accepted schedule s)
unfolding run accepted
owed-run [] s = sym (append-nil _)
owed-run (a ∷ rest) s =
    owed-run rest (act a s)
    ∙ cc (
      owed-act a s,
      observers-act a s,
      append_assoc (s.delivered ++ owed s) (all_calls s.observers (taken a s))
          (all_calls s.observers (accepted rest (act a s))),
      all_calls-append s.observers (taken a s) (accepted rest (act a s)),
    )

-- The loop of dispatch after Close: it goes on while something is owed.
unfoldable pub drain : ℕ → Subject → Subject
drain zero s = s
drain (suc fuel) s = drain fuel (dispatch s)

-- The steps that dispatch has still to make: one for an event in hand, one for a queued event, one
-- for each call, and one to be done with each.
abbrev pub steps_left : Subject → ℕ
steps_left s = pending_steps s.pending + queue_steps (length s.observers) s.queue

steps-advance :
    (p : Option (Event × List Observer)) (q : List Event) (s : Subject)
    → s.pending ≡ p
    → s.queue ≡ q
    → steps_left (advance p q s) ≡ pending_steps p + queue_steps (length s.observers) q - 1
unfolding advance
steps-advance (some (e, o ∷ os)) q s hp hq = rw hq (omega arith)
steps-advance (some (e, [])) q s hp hq = rw hq (omega arith)
steps-advance none [] s hp hq = rw (hp, hq) (omega arith)
steps-advance none (e ∷ q) s hp hq = omega arith

steps-dispatch : (s : Subject) → steps_left (dispatch s) ≡ steps_left s - 1
unfolding dispatch
steps-dispatch s = steps-advance s.pending s.queue s refl refl

drain-steps : (fuel : ℕ) (s : Subject) → steps_left s ≤ fuel → steps_left (drain fuel s) ≡ 0
unfolding drain
drain-steps zero s h = omega arith
drain-steps (suc fuel) s h = drain-steps fuel (dispatch s) (omega (arith, steps-dispatch s))

pending_calls-idle :
    (p : Option (Event × List Observer)) → pending_steps p ≡ 0 → pending_calls p ≡ []
pending_calls-idle none h = refl
pending_calls-idle (some (e, os)) h = absurd (omega arith)

all_calls-idle :
    (obs : List Observer) (q : List Event) → queue_steps (length obs) q ≡ 0 → all_calls obs q ≡ []
all_calls-idle obs [] h = refl
all_calls-idle obs (e ∷ q) h = absurd (omega arith)

owed-idle : (s : Subject) → steps_left s ≡ 0 → owed s ≡ []
owed-idle s h =
    cc
      (pending_calls-idle s.pending (omega arith), all_calls-idle s.observers s.queue (omega arith))

owed-drain :
    (fuel : ℕ) (s : Subject)
    → (drain fuel s).delivered ++ owed (drain fuel s) ≡ s.delivered ++ owed s
unfolding drain
owed-drain zero s = refl
owed-drain (suc fuel) s =
    owed-drain fuel (dispatch s) ∙ (unfold dispatch in owed-advance s.pending s.queue s refl refl)

owed-close : (s : Subject) → (close s).delivered ++ owed (close s) ≡ s.delivered ++ owed s
unfolding close
owed-close s = refl

owed-run-new :
    (obs : List Observer) (schedule : List Action)
    → (run schedule (new_subject obs)).delivered ++ owed (run schedule (new_subject obs))
      ≡ all_calls obs (accepted schedule (new_subject obs))
unfolding new_subject
owed-run-new obs schedule = owed-run schedule (new_subject obs)

module _ (obs : List Observer) (schedule : List Action) where
  -- After Close has waited for the goroutine, whatever the schedule was, the calls of observers are
  -- exactly those for the accepted events: each event goes to every observer once, events in the
  -- order of acceptance and observers in their order; the steps that dispatch has left when Close
  -- is called are enough.
  pub close-delivers :
      (fuel : ℕ)
      → steps_left (close (run schedule (new_subject obs))) ≤ fuel
      → (drain fuel (close (run schedule (new_subject obs)))).delivered
        ≡ all_calls obs (accepted schedule (new_subject obs))
  close-delivers fuel enough =
      let s = run schedule (new_subject obs) in
      sym (append-nil _)
      ∙ ap (λ t. (drain fuel (close s)).delivered ++ t)
          (sym (owed-idle (drain fuel (close s)) (drain-steps fuel (close s) enough)))
      ∙ owed-drain fuel (close s)
      ∙ owed-close s
      ∙ owed-run-new obs schedule
