-- ===== src/Middleware/Logging.antt =====
-- The line of the request log against the response that is sent.
use study_project_metrics_an.Base.{
  ℕ, String, ◌≡◌, refl, sym, ap, ◌∙◌, ◌+◌, Bool, false, some, List, [], ◌∷◌, ◌++◌, append_assoc,
  append-nil, length, length-append, arith, ◌==◌,
}
use study_project_metrics_an.Wire.{Gzip}
use study_project_metrics_an.Http.{
  Request, Response, get_header, new_response, set_header, write_header, write,
}
use study_project_metrics_an.Middleware.{
  Call, set, status, body, replay, logged, Serve, gzip_middleware, logging_middleware, wrapped,
  new_writer,
}
use study_project_metrics_an.Middleware.Compressed.{written, replay-wrapped, logged-wrapped}

replay-written :
    (calls : List Call) (w : Response) → (replay calls w).body ≡ w.body ++ written calls
unfolding replay written
replay-written [] w = sym (append-nil w.body)
replay-written (set name value ∷ calls) w = replay-written calls (set_header name value w)
replay-written (status code ∷ calls) w = replay-written calls (write_header code w)
replay-written (body b ∷ calls) w =
    replay-written calls (write b w) ∙ append_assoc w.body b (written calls)

logged-size :
    (calls : List Call) (code size : ℕ)
    → (logged calls (code, size)).1 ≡ size + length (written calls)
unfolding logged written
logged-size [] code size = omega arith
logged-size (set name value ∷ calls) code size = logged-size calls code size
logged-size (status new ∷ calls) code size = logged-size calls new size
logged-size (body b ∷ calls) code size =
    omega (arith, logged-size calls code (size + length b), length-append b (written calls))

module _ {W : Type 0} (g : Gzip) (contains : String → String → Bool) (next : Serve W) where
  -- A line of the log in front of the gzip middleware.
  abbrev compressed : Serve W
  compressed = gzip_middleware g contains next

  abbrev sends : Request → W → List Call
  sends r world =
      wrapped g.gzip contains (contains "gzip" (get_header "Accept-Encoding" r.header))
        (next r world).1 (new_writer [])

  gzip_middleware-plain :
      (r : Request) (world : W)
      → (get_header "Content-Encoding" r.header == "gzip") ≡ false
      → compressed r world ≡ ((next r world).0, sends r world)
  unfolding gzip_middleware
  gzip_middleware-plain r world plain = rw (plain, gzip_middleware) refl

  sends-status :
      (r : Request) (world : W)
      → (replay (sends r world) new_response).status ≡ some (logged (sends r world) (200, 0)).0
  sends-status r world =
      let client : Bool = contains "gzip" (get_header "Accept-Encoding" r.header) in
      (replay-wrapped g.gzip contains client (next r world).1).1
      ∙ ap some (sym (logged-wrapped g.gzip contains client (next r world).1 200).0)

  sends-size :
      (calls : List Call) → (logged calls (200, 0)).1 ≡ length (replay calls new_response).body
  sends-size calls =
      let bytes : length (replay calls new_response).body ≡ length (written calls) =
        ap length (replay-written calls new_response) in
      omega (arith, logged-size calls 200 0, bytes)

  -- Whatever calls a handler makes, the request log gives the number of bytes that the client gets,
  -- compressed or not, and behind the gzip middleware also its status; the handler's effect and
  -- the response are what they are without the log. This is so for a request whose body is not
  -- compressed.
  pub logging_middleware-sent :
      (r : Request) (world : W) (lines : List (ℕ × ℕ))
      → (get_header "Content-Encoding" r.header == "gzip") ≡ false
      → (line : ℕ × ℕ) × (logging_middleware compressed r (world, lines)
          ≡ (((next r world).0, lines ++ (line ∷ [])), (compressed r world).1))
        × ((replay (compressed r world).1 new_response).status ≡ some line.0)
        × (line.1 ≡ length (replay (compressed r world).1 new_response).body)
  unfolding logging_middleware
  logging_middleware-sent r world lines plain =
      let e = gzip_middleware-plain r world plain in
      (
        logged (compressed r world).1 (200, 0),
        ap
            (λ (t : W).
              ((t, lines ++ (logged (compressed r world).1 (200, 0) ∷ [])), (compressed r world).1))
            (ap (λ (p : W × List Call). p.0) e),
        rw e (sends-status r world),
        sends-size (compressed r world).1,
      )
