-- ===== src/Audit/Observers.antt =====
-- FileObserver and URLObserver of internal/audit/audit.go. encoding/json and net/http are
-- parameters.
use study_project_metrics_an.Base.{
  String, ◌≡◌, refl, sym, ◌∙◌, ap, Bool, true, false, Option, none, some, List, [], ◌∷◌, ◌++◌,
  append_assoc, append-nil, All, arith, if◌then◌else◌,
}
use study_project_metrics_an.Wire.{Bytes, text}
use study_project_metrics_an.Audit.{Event}

-- The file that is open for appending, and whether the encoder has had an error: a json.Encoder
-- returns the error of a write at every later call.
pub record FileObserver : Type 0 where
  pub content : Bytes
  pub stuck : Bool

-- NewFileObserver. `open_file` opens a file for appending and gives what it holds, nothing where it is
-- created, or none for an error.
unfoldable pub new_file_observer : (String → Option Bytes) → String → Option FileObserver
new_file_observer open_file path = elim (open_file path) [
  | none ↦ none
  | some content ↦ some (record { content = content; stuck = false })
]

abbrev pub written : Bool → Option Bytes → FileObserver → FileObserver
written write_fails none o = o
written true (some line) o = record o { stuck = true }
written false (some line) o = record o { content = o.content ++ (line ++ text "\n") }

-- Notify of a FileObserver; its error is only logged. `encode` is the encoding of an event and
-- `write_fails` says how this write fares; a write that fails is taken to leave nothing.
unfoldable pub file_notify : (Event → Option Bytes) → Bool → Event → FileObserver → FileObserver
file_notify encode write_fails e o = if o.stuck then o else written write_fails (encode e) o

-- The events that dispatch passes on, each with how its write fares.
unfoldable pub notify_all :
    (Event → Option Bytes) → List (Event × Bool) → FileObserver → FileObserver
unfolding file_notify
notify_all encode [] o = o
notify_all encode ((e, write_fails) ∷ events) o =
    notify_all encode events (file_notify encode write_fails e o)

abbrev pub line_of : Option Bytes → Bytes
line_of none = []
line_of (some line) = line ++ text "\n"

-- A line for each event that encodes.
abbrev pub lines_of : (Event → Option Bytes) → List (Event × Bool) → Bytes
lines_of encode [] = []
lines_of encode ((e, write_fails) ∷ events) = line_of (encode e) ++ lines_of encode events

abbrev pub IsWritten : Event × Bool → Type 0
IsWritten (e, write_fails) = write_fails ≡ false

module _ (encode : Event → Option Bytes) where
  written-content :
      (o : FileObserver) (r : Option Bytes) → (written false r o).content ≡ o.content ++ line_of r
  written-content o none = sym (append-nil o.content)
  written-content o (some line) = refl

  written-stuck : (o : FileObserver) (r : Option Bytes) → (written false r o).stuck ≡ o.stuck
  written-stuck o none = refl
  written-stuck o (some line) = refl

  file_notify-open :
      (e : Event) (w : Bool) (o : FileObserver)
      → o.stuck ≡ false
      → w ≡ false
      → file_notify encode w e o ≡ written false (encode e) o
  unfolding file_notify
  file_notify-open e w o s f =
      ap (λ b. if b then o else written w (encode e) o) s ∙ ap (λ b. written b (encode e) o) f

  file_notify-stuck :
      (e : Event) (w : Bool) (o : FileObserver) → o.stuck ≡ true → file_notify encode w e o ≡ o
  unfolding file_notify
  file_notify-stuck e w o s = ap (λ b. if b then o else written w (encode e) o) s

  -- While no write fails, the audit file is what it was, followed by the line of each event that
  -- encodes, in the order of the events.
  pub notify_all-lines :
      (events : List (Event × Bool)) (o : FileObserver)
      → o.stuck ≡ false
      → All IsWritten events
      → (notify_all encode events o).content ≡ o.content ++ lines_of encode events
  unfolding notify_all
  notify_all-lines [] o s h = sym (append-nil o.content)
  notify_all-lines ((e, w) ∷ events) o s (f, h) =
      let next = written false (encode e) o in
      ap (λ n. (notify_all encode events n).content) (file_notify-open e w o s f)
      ∙ notify_all-lines events next (written-stuck o (encode e) ∙ s) h
      ∙ ap (λ c. c ++ lines_of encode events) (written-content o (encode e))
      ∙ append_assoc o.content (line_of (encode e)) (lines_of encode events)

  -- The same of an observer that has just been made: an audit file of an earlier run is continued.
  pub new_file_observer-lines :
      (open_file : String → Option Bytes) (path : String) (o : FileObserver) (content : Bytes)
      (events : List (Event × Bool))
      → open_file path ≡ some content
      → new_file_observer open_file path ≡ some o
      → All IsWritten events
      → (notify_all encode events o).content ≡ content ++ lines_of encode events
  unfolding new_file_observer
  new_file_observer-lines open_file path o content events opened made h =
      let fresh : FileObserver = record { content = content; stuck = false } in
      let same : o ≡ fresh = ground arith in rw same (notify_all-lines events fresh refl h)

  -- After one write that fails the observer writes nothing any more: the events behind it are lost,
  -- even if their writes would succeed.
  pub notify_all-stuck :
      (events : List (Event × Bool)) (o : FileObserver)
      → o.stuck ≡ true
      → (notify_all encode events o).content ≡ o.content
  unfolding notify_all
  notify_all-stuck [] o s = refl
  notify_all-stuck ((e, w) ∷ events) o s =
      ap (λ n. (notify_all encode events n).content) (file_notify-stuck e w o s)
      ∙ notify_all-stuck events o s

pub record UrlObserver : Type 0 where
  pub url : String

abbrev pub new_url_observer : String → UrlObserver
new_url_observer url = record { url = url }

-- A request that the client of a URLObserver sends.
pub record Post : Type 0 where
  pub url : String
  pub content_type : String
  pub body : Bytes

abbrev pub posted : {N E : Type 0} → (Post → N → N × Option E) → String → Option Bytes → N → N
posted send url none n = n
posted send url (some b) n =
    (send (record { url = url; content_type = "application/json"; body = b }) n).0

-- Notify of a URLObserver: `send` is Post of the client, whose error is only logged.
unfoldable pub url_notify :
    {N E : Type 0}
    → (Event → Option Bytes)
    → (Post → N → N × Option E)
    → UrlObserver
    → Event
    → N
    → N
url_notify encode send o e n = posted send o.url (encode e) n
