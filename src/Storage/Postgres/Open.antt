-- ===== src/Storage/Postgres/Open.antt =====
-- NewPostgresStorage and runMigrations of internal/storage/postgresql.go. pgxpool, iofs and
-- golang-migrate are parameters.
use Prim.Native.Char.{code}
use Prim.Native.String
use text.Mathlib.TextLemmas.{nil-append, cons-append}
use study_project_metrics_an.Base.{
  String, ◌≡◌, refl, Bool, true, false, Option, none, some, List, [], ◌∷◌, ◌⊎◌, inl, inr, eqb,
  if◌then◌else◌, arith,
}
use study_project_metrics_an.Config.{behind}

abbrev pub with_scheme : Option String → String → String
with_scheme none other = other
with_scheme (some rest) other = String.◌++◌ "pgx5://" rest

-- The loop over the prefixes, which the first that fits ends.
abbrev pub rewritten : List String → String → String
rewritten [] dsn = dsn
rewritten (prefix ∷ prefixes) dsn = with_scheme (behind prefix dsn) (rewritten prefixes dsn)

unfoldable pub migrate_dsn : String → String
unfolding behind
migrate_dsn dsn = rewritten ("postgres://" ∷ "postgresql://" ∷ []) dsn

-- The result of Up: no change is an error of golang-migrate that is none here.
pub data UpResult : Type 0 where
  done no_change failed : UpResult

pub data OpenError : Type 0 where
  create_pool ping source instance_error apply : OpenError

-- Pools `P`; `ping` and the parts of the migration say whether they succeed.
pub record OpenLibs (P : Type 0) : Type 0 where
  pub new_pool : String → Option P
  pub ping_pool : P → Bool
  pub source : Bool
  pub new_instance : String → Bool
  pub up : String → UpResult

abbrev pub applied : UpResult → Option OpenError
applied done = none
applied no_change = none
applied failed = some apply

module _ {P : Type 0} (libs : OpenLibs P) where
  unfoldable pub run_migrations : String → Option OpenError
  unfolding migrate_dsn
  run_migrations dsn =
      if libs.source
      then (if libs.new_instance (migrate_dsn dsn)
          then applied (libs.up (migrate_dsn dsn))
          else some instance_error)
      else some source

  abbrev pub ping_error : Bool → Option OpenError
  ping_error true = none
  ping_error false = some ping

  -- The result, and the pools that were opened and not closed.
  abbrev pub or_close : Option OpenError → P → (OpenError ⊎ P) × List P → (OpenError ⊎ P) × List P
  or_close none pool next = next
  or_close (some e) pool next = (inl e, [])

  abbrev pub with_pool : String → Option P → (OpenError ⊎ P) × List P
  with_pool dsn none = (inl create_pool, [])
  with_pool dsn (some pool) =
      or_close (ping_error (libs.ping_pool pool)) pool
        (or_close (run_migrations dsn) pool (inr pool, pool ∷ []))

  unfoldable pub new_postgres_storage : String → (OpenError ⊎ P) × List P
  unfolding run_migrations
  new_postgres_storage dsn = with_pool dsn (libs.new_pool dsn)

-- What is behind a prefix of an appended text.
behind-append : (p t : String) → behind p (String.◌++◌ p t) ≡ some t
unfolding behind
behind-append String.[] t = rw (nil-append t) refl
behind-append (String.◌∷◌ c p) t = rw (cons-append c p t) (ground (arith, behind-append p t))

-- Two texts that differ at a place that both have.
abbrev differ : String → String → Bool
differ String.[] s = false
differ (String.◌∷◌ c p) String.[] = false
differ (String.◌∷◌ c p) (String.◌∷◌ d s) =
    let rest = differ p s in if eqb (code c) (code d) then rest else true

behind-differ : (p s t : String) → differ p s ≡ true → behind p (String.◌++◌ s t) ≡ none
unfolding behind
behind-differ String.[] s t h = absurd cc
behind-differ (String.◌∷◌ c p) String.[] t h = absurd cc
behind-differ (String.◌∷◌ c p) (String.◌∷◌ d s) t h =
    rw (cons-append d s t) (ground (arith, behind-differ p s t))

-- A DSN of either scheme of PostgreSQL goes to golang-migrate under its own scheme, with the rest
-- unchanged.
pub migrate_dsn-append :
    (rest : String)
    → (migrate_dsn (String.◌++◌ "postgres://" rest) ≡ String.◌++◌ "pgx5://" rest)
      × (migrate_dsn (String.◌++◌ "postgresql://" rest) ≡ String.◌++◌ "pgx5://" rest)
unfolding migrate_dsn
migrate_dsn-append rest = (
  rw (behind-append "postgres://" rest) refl,
  rw (behind-differ "postgres://" "postgresql://" rest refl, behind-append "postgresql://" rest)
      refl,
)

module _ {P : Type 0} (libs : OpenLibs P) (dsn : String) where
  -- What becomes of the pool of connections.
  abbrev pub IsOwned : (OpenError ⊎ P) × List P → Type 0
  IsOwned (inl e, pools) = pools ≡ []
  IsOwned (inr pool, pools) =
      (pools ≡ pool ∷ []) × (libs.ping_pool pool ≡ true) × (run_migrations libs dsn ≡ none)

  or_close-IsOwned :
      (pool : P) (p : Bool) (m : Option OpenError)
      → libs.ping_pool pool ≡ p
      → run_migrations libs dsn ≡ m
      → IsOwned
          (or_close libs (ping_error libs p) pool (or_close libs m pool (inr pool, pool ∷ [])))
  or_close-IsOwned pool false m e e' = refl
  or_close-IsOwned pool true none e e' = (refl, e, e')
  or_close-IsOwned pool true (some error) e e' = refl

  with_pool-IsOwned : (o : Option P) → IsOwned (with_pool libs dsn o)
  with_pool-IsOwned none = refl
  with_pool-IsOwned (some pool) =
      or_close-IsOwned pool (libs.ping_pool pool) (run_migrations libs dsn) refl refl

  -- Opening the storage leaks no pool: with an error every pool that was opened is closed again, and
  -- without one the pool of the storage is the only one that is open, it answered a ping, and the
  -- migrations are applied or were.
  pub new_postgres_storage-IsOwned : IsOwned (new_postgres_storage libs dsn)
  unfolding new_postgres_storage
  new_postgres_storage-IsOwned = with_pool-IsOwned (libs.new_pool dsn)
