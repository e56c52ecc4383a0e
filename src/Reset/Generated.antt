-- ===== src/Reset/Generated.antt =====
-- internal/audit/reset.gen.go: the method Reset of audit.Event, as it stands in the repository, against
-- the statements that the generator makes for the fields of that struct.
use study_project_metrics_an.Base.{
  ℕ, String, ◌≡◌, false, Option, none, some, List, [], ◌∷◌, ◌==◌, if◌then◌else◌, length, arith,
}
use study_project_metrics_an.Base.Assoc.{lookup}
use study_project_metrics_an.Audit.{Event}
use study_project_metrics_an.Reset.{ident, array, Field, field_names, primitive_zero}
use study_project_metrics_an.Reset.Values.{num, text, slice, null, stmt_of}
use study_project_metrics_an.Reset.Typing.{run}
use study_project_metrics_an.Reset.Method.{declared, StructValue, run_method}

-- A nil receiver is left as it is.
unfoldable pub reset : Option Event → Option Event
reset none = none
reset (some e) = some (record { ts = 0; metrics = []; ip_address = "" })

-- The fields of Event as the generator reads them.
abbrev pub event_fields : List Field
event_fields =
    record { names = "TS" ∷ []; typ = ident "int64" }
    ∷ record { names = "Metrics" ∷ []; typ = array false (ident "string") }
    ∷ record { names = "IPAddress" ∷ []; typ = ident "string" }
    ∷ []

-- An event as a struct value; `room` is the capacity of its slice.
abbrev pub event_value : ℕ → Event → StructValue
event_value room e k =
    if "IPAddress" == k
    then text e.ip_address
    else if "Metrics" == k
    then slice (length e.metrics) room
    else if "TS" == k
    then num e.ts
    else null

-- The method that stands in the repository does what the generator's statements for the fields of Event
-- do: to each field, and to none other, with the capacity of the slice kept.
pub reset-run_method :
    (methods : String → Option (ℕ → ℕ)) (room : ℕ) (e after : Event) (k : String)
    → reset (some e) ≡ some after
    → run_method methods (declared event_fields) (event_value room e) k ≡ event_value room after k
unfolding reset run_method declared field_names stmt_of primitive_zero lookup run
reset-run_method methods room e after k h = ground arith
