-- ===== src/Agent/Compress.antt =====
-- Compress of internal/agent/util.go, with the buffers and gzip writers that it takes from two pools.
-- A pool gives an object to one caller at a time, so that the calls of several goroutines do not meet in
-- an object, and the model takes them one after the other.
mod Tests
use study_project_metrics_an.Base.{
  ◌≡◌, refl, Bool, true, false, if◌then◌else◌, Option, none, some, List, [], ◌∷◌, ◌++◌, map, ap,
}
use study_project_metrics_an.Wire.{Bytes}

-- What the last user left: the bytes of a buffer, and those that a gzip.Writer has taken and not sent.
abbrev pub Buffer : Type 0
Buffer = Bytes

pub record GzipWriter : Type 0 where
  pub taken : Bytes
  pub closed : Bool

pub record Pools : Type 0 where
  pub buffers : List Buffer
  pub writers : List GzipWriter

-- `Get` of a sync.Pool: any object that is in it, or none, where New makes one; and what is left.
pub record Get : Type 0 where
  pub buffer : List Buffer → Option Buffer × List Buffer
  pub writer : List GzipWriter → Option GzipWriter × List GzipWriter

abbrev buffer_of : Option Buffer → Buffer
buffer_of none = []
buffer_of (some buf) = buf

abbrev writer_of : Option GzipWriter → GzipWriter
writer_of none = record { taken = []; closed = false }
writer_of (some gz) = gz

abbrev reset_buffer : Buffer → Buffer
reset_buffer buf = []

abbrev reset_writer : GzipWriter → GzipWriter
reset_writer gz = record { taken = []; closed = false }

abbrev write : Bytes → GzipWriter → GzipWriter
write message gz = record gz { taken = if gz.closed then gz.taken else gz.taken ++ message }

-- Close sends the stream to the buffer, once.
abbrev close : (Bytes → Bytes) → GzipWriter → Buffer → GzipWriter × Buffer
close gzip gz buf = (record gz { closed = true }, if gz.closed then buf else buf ++ gzip gz.taken)

module _ (gzip : Bytes → Bytes) (get : Get) where
  -- The copy of the buffer, and the pools when both objects are put back.
  unfoldable pub compress : Bytes → Pools → Bytes × Pools
  compress message pools =
      let (found_buffer, buffers) = get.buffer pools.buffers in
      let buf : Buffer = reset_buffer (buffer_of found_buffer) in
      let (found_writer, writers) = get.writer pools.writers in
      let gz : GzipWriter = reset_writer (writer_of found_writer) in
      let (gz_closed, filled) = close gzip (write message gz) buf in
      (filled, record { buffers = filled ∷ buffers; writers = gz_closed ∷ writers })

  -- A sequence of calls.
  unfoldable pub compress_all : List Bytes → Pools → List Bytes
  unfolding compress
  compress_all [] pools = []
  compress_all (message ∷ rest) pools =
      let (result, after) = compress message pools in result ∷ compress_all rest after

  -- Whatever the pools hold and whichever of it they give, each call gets the compressed form of its own
  -- data: nothing that an earlier call left in a buffer or in a writer comes into it.
  pub compress_all-map :
      (calls : List Bytes) (pools : Pools) → compress_all calls pools ≡ map gzip calls
  unfolding compress compress_all
  compress_all-map [] pools = refl
  compress_all-map (message ∷ rest) pools =
      ap (λ t. gzip message ∷ t) (compress_all-map rest (compress message pools).1)
