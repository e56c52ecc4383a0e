-- ===== src/Middleware/Compressed.antt =====
-- What a gzipResponseWriter makes of the calls of a handler, and what the log sees behind it.
use study_project_metrics_an.Base.{
  ℕ, ◌≡◌, ◌⊎◌, refl, Bool, true, false, none, some, List, [], ◌∷◌, ◌++◌, append_assoc, append-nil,
  ◌+◌, length, length-append, arith, String,
}
use study_project_metrics_an.Base.Assoc.{insert}
use study_project_metrics_an.Wire.{Bytes}
use study_project_metrics_an.Http.{Response, new_response, set_header, write_header, write}
use study_project_metrics_an.Middleware.{
  Call, set, status, body, replay, Writer, new_writer, should_gzip, start, call, close, wrapped,
  logged,
}

-- The bytes that a handler writes, and the status in force at its first write: the last one that it
-- set before, else the given one.
unfoldable pub written : List Call → Bytes
written [] = []
written (set name value ∷ calls) = written calls
written (status code ∷ calls) = written calls
written (body b ∷ calls) = b ++ written calls

unfoldable pub status_at_write : List Call → ℕ → ℕ
status_at_write [] code = code
status_at_write (set name value ∷ calls) code = status_at_write calls code
status_at_write (status new ∷ calls) code = status_at_write calls new
status_at_write (body b ∷ calls) code = code

-- The bytes as they are or, for a client that takes gzip, as one gzip stream.
abbrev pub IsEncoded : (Bytes → Bytes) → Bool → Bytes → Bytes → Type 0
IsEncoded gzip client_gzip plain sent =
    (sent ≡ plain) ⊎ ((client_gzip ≡ true) × (sent ≡ gzip plain))

replay-append : (xs ys : List Call) (w : Response) → replay (xs ++ ys) w ≡ replay ys (replay xs w)
unfolding replay
replay-append [] ys w = refl
replay-append (set n v ∷ xs) ys w = replay-append xs ys (set_header n v w)
replay-append (status c ∷ xs) ys w = replay-append xs ys (write_header c w)
replay-append (body b ∷ xs) ys w = replay-append xs ys (write b w)

module _ (gzip : Bytes → Bytes) (contains : String → String → Bool) (client_gzip : Bool) where
  abbrev through : List Call → Writer → List Call
  through calls g = wrapped gzip contains client_gzip calls g

  -- Behind the first write of a plain response.
  abbrev IsPlain : Writer → Type 0
  IsPlain g = (g.wrote ≡ true) × (g.gz ≡ none)

  replay-through_plain :
      (calls : List Call) (g : Writer) (w : Response) (code : ℕ)
      → IsPlain g
      → w.status ≡ some code
      → ((replay (through calls g) w).body ≡ w.body ++ written calls)
        × ((replay (through calls g) w).status ≡ some code)
  unfolding wrapped call start close replay written
  replay-through_plain [] g w code p h = ground (arith, append-nil w.body)
  replay-through_plain (set n v ∷ calls) g w code p h = ground (
    arith,
    replay-through_plain calls (call gzip contains client_gzip (set n v) g).0 (set_header n v w)
        code p h,
  )
  replay-through_plain (status c ∷ calls) g w code p h =
      ground (arith, replay-through_plain calls (record g { kept = c }) w code p h)
  replay-through_plain (body b ∷ calls) g w code (p, q) h = ground (
    arith,
    replay-through_plain calls g (write b w) code (p, q),
    append_assoc w.body b (written calls),
  )

  -- Behind the first write of a compressed response, with the bytes taken so far.
  abbrev IsZipped : Bytes → Writer → Type 0
  IsZipped taken g = (g.wrote ≡ true) × (g.gz ≡ some taken)

  replay-through_zipped :
      (calls : List Call) (g : Writer) (w : Response) (code : ℕ) (taken : Bytes)
      → IsZipped taken g
      → w.status ≡ some code
      → ((replay (through calls g) w).body ≡ w.body ++ gzip (taken ++ written calls))
        × ((replay (through calls g) w).status ≡ some code)
  unfolding wrapped call start close replay written
  replay-through_zipped [] g w code taken p h = ground (arith, append-nil taken)
  replay-through_zipped (set n v ∷ calls) g w code taken p h = ground (
    arith,
    replay-through_zipped calls (call gzip contains client_gzip (set n v) g).0 (set_header n v w)
        code taken p h,
  )
  replay-through_zipped (status c ∷ calls) g w code taken p h =
      ground (arith, replay-through_zipped calls (record g { kept = c }) w code taken p h)
  replay-through_zipped (body b ∷ calls) g w code taken (p, q) h = ground (
    arith,
    replay-through_zipped calls (record g { gz = some (taken ++ b) }) w code (taken ++ b) (p, refl)
        h,
    append_assoc taken b (written calls),
  )

  -- Before the first write.
  abbrev IsFresh : Writer → Type 0
  IsFresh g = (g.wrote ≡ false) × (g.gz ≡ none)

  abbrev IsSent : List Call → Writer → Response → Type 0
  IsSent calls g w =
      IsEncoded gzip client_gzip (written calls) w.body
      × (w.status ≡ some (status_at_write calls g.kept))

  replay-first_write :
      (calls : List Call) (b : Bytes) (g : Writer) (w : Response)
      → IsFresh g
      → w.status ≡ none
      → w.body ≡ []
      → IsSent (body b ∷ calls) g (replay (through (body b ∷ calls) g) w)
  unfolding wrapped call start should_gzip replay written status_at_write
  replay-first_write calls b g w p h e = ground (
    arith,
    replay-through_zipped calls
        (record g { header = insert "Content-Encoding" "gzip" g.header; wrote = true; gz = some b })
        (write_header g.kept (set_header "Content-Encoding" "gzip" w)) g.kept b (refl, refl),
    replay-through_plain calls (record g { wrote = true }) (write b (write_header g.kept w)) g.kept,
  )

  replay-through :
      (calls : List Call) (g : Writer) (w : Response)
      → IsFresh g
      → w.status ≡ none
      → w.body ≡ []
      → IsSent calls g (replay (through calls g) w)
  unfolding wrapped call start close replay written status_at_write
  replay-through [] g w p h e = ground arith
  replay-through (set n v ∷ calls) g w p h e =
      replay-through calls (call gzip contains client_gzip (set n v) g).0 (set_header n v w) p h e
  replay-through (status c ∷ calls) g w p h e = replay-through calls (record g { kept = c }) w p h e
  replay-through (body b ∷ calls) g w p h e = replay-first_write calls b g w p h e

  logged-through_plain :
      (calls : List Call) (g : Writer) (code size : ℕ)
      → IsPlain g
      → logged (through calls g) (code, size) ≡ (code, size + length (written calls))
  unfolding wrapped call start close logged written
  logged-through_plain [] g code size p = ground arith
  logged-through_plain (set n v ∷ calls) g code size p =
      logged-through_plain calls (call gzip contains client_gzip (set n v) g).0 code size p
  logged-through_plain (status c ∷ calls) g code size p =
      logged-through_plain calls (record g { kept = c }) code size p
  logged-through_plain (body b ∷ calls) g code size p = ground (
    arith,
    logged-through_plain calls g code (size + length b) p,
    length-append b (written calls),
  )

  logged-through_zipped :
      (calls : List Call) (g : Writer) (code size : ℕ) (taken : Bytes)
      → IsZipped taken g
      → logged (through calls g) (code, size)
        ≡ (code, size + length (gzip (taken ++ written calls)))
  unfolding wrapped call start close logged written
  logged-through_zipped [] g code size taken p = ground (arith, append-nil taken)
  logged-through_zipped (set n v ∷ calls) g code size taken p =
      logged-through_zipped calls (call gzip contains client_gzip (set n v) g).0 code size taken p
  logged-through_zipped (status c ∷ calls) g code size taken p =
      logged-through_zipped calls (record g { kept = c }) code size taken p
  logged-through_zipped (body b ∷ calls) g code size taken (p, q) = ground (
    arith,
    logged-through_zipped calls (record g { gz = some (taken ++ b) }) code size (taken ++ b)
        (p, refl),
    append_assoc taken b (written calls),
  )

  abbrev IsLogged : List Call → Writer → ℕ × ℕ → Type 0
  IsLogged calls g seen =
      (seen.0 ≡ status_at_write calls g.kept)
      × ((seen.1 ≡ length (written calls))
          ⊎ ((client_gzip ≡ true) × (seen.1 ≡ length (gzip (written calls)))))

  logged-first_write :
      (calls : List Call) (b : Bytes) (g : Writer) (code : ℕ)
      → IsFresh g
      → IsLogged (body b ∷ calls) g (logged (through (body b ∷ calls) g) (code, 0))
  unfolding wrapped call start should_gzip logged written status_at_write
  logged-first_write calls b g code p = ground (
    arith,
    logged-through_zipped calls
        (record g { header = insert "Content-Encoding" "gzip" g.header; wrote = true; gz = some b })
        g.kept 0 b (refl, refl),
    logged-through_plain calls (record g { wrote = true }) g.kept (length b),
    length-append b (written calls),
  )

  logged-through :
      (calls : List Call) (g : Writer) (code : ℕ)
      → IsFresh g
      → IsLogged calls g (logged (through calls g) (code, 0))
  unfolding wrapped call start close logged written status_at_write
  logged-through [] g code p = ground arith
  logged-through (set n v ∷ calls) g code p =
      logged-through calls (call gzip contains client_gzip (set n v) g).0 code p
  logged-through (status c ∷ calls) g code p = logged-through calls (record g { kept = c }) code p
  logged-through (body b ∷ calls) g code p = logged-first_write calls b g code p

  -- Whatever calls a handler makes, in whatever order, the response behind the gzip writer holds
  -- the bytes that it wrote, as they are or, for a client that takes gzip, as one gzip stream, and
  -- one status: the last one that was set before the first write, else 200.
  pub replay-wrapped :
      (calls : List Call)
      → IsEncoded gzip client_gzip
          (written calls)
          (replay (wrapped gzip contains client_gzip calls (new_writer [])) new_response).body
        × ((replay (wrapped gzip contains client_gzip calls (new_writer [])) new_response).status
            ≡ some (status_at_write calls 200))
  replay-wrapped calls = replay-through calls (new_writer []) new_response (refl, refl) refl refl

  -- The request log, which stands in front of the gzip writer, notes the status that was sent and
  -- the number of bytes that were sent, compressed or not.
  pub logged-wrapped :
      (calls : List Call) (code : ℕ)
      → ((logged (wrapped gzip contains client_gzip calls (new_writer [])) (code, 0)).0
          ≡ status_at_write calls 200)
        × (((logged (wrapped gzip contains client_gzip calls (new_writer [])) (code, 0)).1
              ≡ length (written calls))
            ⊎ ((client_gzip ≡ true)
                × ((logged (wrapped gzip contains client_gzip calls (new_writer [])) (code, 0)).1
                    ≡ length (gzip (written calls)))))
  logged-wrapped calls code = logged-through calls (new_writer []) code (refl, refl)
