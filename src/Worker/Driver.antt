-- ===== src/Worker/Driver.antt =====
-- src/transfer/driver.rs, http.rs and ftp.rs, and the reports of src/worker/transfer.rs: what a
-- worker does with a response. The answers of the server, of the file system and the clock are
-- parameters.
use paradown.Prelude.{
  ℕ, zero, suc, ◌-◌, ◌*◌, String, Bool, true, false, not, ◌&&◌, Option, some, none, List, [], ◌∷◌,
  ltb, leb, ◌==◌, if◌then◌else◌, unwrap_or, length, take, drop, add_u64, saturating_add_u64,
}
use paradown.Failure.{
  other, network_error, resume_invalidated, unsupported_protocol, Result, ok, err, ◌>>=◌,
}
use paradown.Events.{Event}
use paradown.Domain.Source.{SourceKind}
use paradown.Payload.{FileMap, Disk, Access, write_at}
use paradown.Probe.{Header, ContentRange, parse_content_range, required_range}
use paradown.Stats.{Stats, Speeds, update_worker}
use paradown.Worker.{
  WorkerState, emit, Flow, proceed, stop, waiting, Point, checkpoint, expected_length,
}

pub data Driver : Type 0 where
  http_driver ftp_driver : Driver

unfoldable pub driver_for_kind : SourceKind → Driver
driver_for_kind SourceKind.http = http_driver
driver_for_kind SourceKind.https = http_driver
driver_for_kind SourceKind.web_seed = http_driver
driver_for_kind SourceKind.mirror = http_driver
driver_for_kind _ = ftp_driver

-- A slice of a chunk: what is called before it is written, and when it is reported.
pub record SlicePoint : Type 0 where
  pub point : Point
  pub now : ℕ

-- What `stream.next()` gives: bytes, or the text of an error.
pub data Body : Type 0 where
  received : List ℕ → Body
  broken : String → Body

pub record Chunk : Type 0 where
  pub point : Point
  pub body : Body
  pub slices : List SlicePoint

-- A response to the request of a worker, as far as it is read.
pub record Reply : Type 0 where
  pub status : ℕ
  pub retry_after : Option ℕ
  pub content_length : Option ℕ
  pub content_range : Header
  pub chunks : List Chunk

-- `build_request`: the range that the request asks for. `applied` is what
-- `apply_http_request_options` gives.
unfoldable pub build_request :
    Driver → Result (Unit {0}) → ℕ → Bool → WorkerState → Result (Option (ℕ × ℕ))
build_request ftp_driver applied range_start use_range_requests w =
    err (unsupported_protocol "transfer is not implemented yet")
build_request http_driver applied range_start use_range_requests w = applied >>= λ _.
    ok (if use_range_requests && leb range_start w.end then some (range_start, w.end) else none)

unfoldable pub resolve_content_length : Driver → WorkerState → Reply → Bool → ℕ → ℕ
unfolding expected_length
resolve_content_length ftp_driver w reply use_range_requests range_start = 0
resolve_content_length http_driver w reply use_range_requests range_start =
    unwrap_or reply.content_length (
      if not w.length_known
      then 0
      else if use_range_requests
      then saturating_add_u64 (w.end - range_start) 1
      else expected_length w)

-- The test of the Content-Range of a partial response.
abbrev pub check_range : WorkerState → ℕ → ContentRange → Result (Unit {0})
check_range w expected_start range =
    if range.start == expected_start && range.end == w.end
    then ok tt
    else err (other "Unexpected Content-Range")

unfoldable pub validate_response : Driver → WorkerState → Reply → Bool → ℕ → Result (Unit {0})
unfolding parse_content_range
validate_response ftp_driver w reply use_range_requests expected_start =
    err (unsupported_protocol "ftp transfer is not implemented yet")
validate_response http_driver w reply false expected_start =
    if reply.status == 200 then ok tt else err (other "Expected 200 OK")
validate_response http_driver w reply true expected_start =
    if ltb w.start expected_start && (reply.status == 200)
    then err (resume_invalidated w.id "remote resource no longer matches stored validator")
    else if not (reply.status == 206)
    then err (other "Expected 206 Partial Content")
    else (required_range reply.content_range >>= check_range w expected_start)

-- ProgressReporter
pub record ProgressReporter : Type 0 where
  pub emit_interval : ℕ
  pub threshold : ℕ
  pub last_emit : ℕ
  pub last_reported : ℕ

-- What a run changes: the worker with its events, the files, the statistics of the task, and the
-- reporter. The local variable `downloaded_size` of the source is always the worker's field, which
-- only the run changes, and it is the field here.
pub record Transfer : Type 0 where
  pub worker : WorkerState
  pub disk : Disk
  pub stats : Stats
  pub reporter : ProgressReporter

unfoldable pub flush : ℕ → Transfer → Transfer
flush now t =
    let w = t.worker in
    record t {
      worker = emit (Event.progress w.id w.downloaded_size w.total_size) w;
      reporter = record t.reporter { last_reported = w.downloaded_size; last_emit = now };
    }

unfoldable pub maybe_emit : ℕ → Transfer → Transfer
unfolding flush
maybe_emit now t =
    if ltb (t.worker.downloaded_size - t.reporter.last_reported) t.reporter.threshold
      && ltb (now - t.reporter.last_emit) t.reporter.emit_interval
    then t
    else flush now t

-- How a loop of `stream_response` ends: by its last round, by `return`, or by waiting on.
pub data Streamed : Type 0 where
  all_read : Streamed
  returned : Result (Unit {0}) → Streamed
  still_paused : Streamed

abbrev pub rate_limit_slice_bytes : ℕ
rate_limit_slice_bytes = 16 * 1024

-- slice::chunks by rounds; as many as there are bytes are enough.
unfoldable pub chunks_loop : ℕ → ℕ → List ℕ → List (List ℕ)
chunks_loop zero size bytes = []
chunks_loop (suc rounds) size [] = []
chunks_loop (suc rounds) size (b ∷ bytes) =
    take size (b ∷ bytes) ∷ chunks_loop rounds size (drop size (b ∷ bytes))

unfoldable pub chunks : ℕ → List ℕ → List (List ℕ)
unfolding chunks_loop
chunks size bytes = chunks_loop (length bytes) size bytes

-- What stays the same while a response is streamed.
pub record Streaming : Type 0 where
  pub store : FileMap
  pub access : Access
  pub speeds : Speeds

-- Behind `write_at`: the counters of the worker and of the task, and the report.
abbrev pub count_slice : Streaming → ℕ → ℕ → Transfer → Transfer
count_slice s now size t =
    let w = t.worker in
    maybe_emit now (record t {
      worker = record w { downloaded_size = add_u64 w.downloaded_size size };
      stats = update_worker s.speeds now w.id size t.stats;
    })

abbrev pub counted : Streaming → ℕ → ℕ → Transfer → Result (Unit {0}) → Transfer × Result (Unit {0})
counted s now size t (err e) = (t, err e)
counted s now size t (ok _) = (count_slice s now size t, ok tt)

-- The write of one slice at `offset`.
unfoldable pub store_slice : Streaming → ℕ → List ℕ → ℕ → Transfer → Transfer × Result (Unit {0})
unfolding write_at maybe_emit update_worker
store_slice s offset slice now t =
    let (disk, result) = write_at s.access s.store offset slice t.disk in
    counted s now (length slice) (record t { disk = disk }) result

-- No call is made before a slice for which no point is listed.
abbrev pub next_point : List SlicePoint → SlicePoint
next_point [] = record { point = record { calls = []; polls = [] }; now = 0 }
next_point (p ∷ ps) = p

abbrev pub later_points : List SlicePoint → List SlicePoint
later_points [] = []
later_points (p ∷ ps) = ps

-- How the round for a slice goes on, from its check and its write; `rest` are the other rounds.
abbrev pub slice_end :
    Flow
    → Result (Unit {0})
    → Transfer
    → Transfer
    → ℕ
    → (Transfer × ℕ) × Streamed
    → (Transfer × ℕ) × Streamed
slice_end stop result checked stored offset rest = ((checked, offset), returned (ok tt))
slice_end waiting result checked stored offset rest = ((checked, offset), still_paused)
slice_end proceed (err e) checked stored offset rest = ((stored, offset), returned (err e))
slice_end proceed (ok _) checked stored offset rest = rest

-- `for slice in chunk.chunks(..)`, with the write offset that it leaves.
unfoldable pub slice_loop :
    Streaming → List (List ℕ) → List SlicePoint → ℕ → Transfer → (Transfer × ℕ) × Streamed
unfolding checkpoint store_slice
slice_loop s [] points offset t = ((t, offset), all_read)
slice_loop s (slice ∷ slices) points offset t =
    let p = next_point points in
    let (w, flow) = checkpoint p.point t.worker in
    let checked = record t { worker = w } in
    let (stored, result) = store_slice s offset slice p.now checked in
    let rest =
      slice_loop s slices (later_points points) (saturating_add_u64 offset (length slice)) stored in
    slice_end flow result checked stored offset rest

-- The bytes of a chunk that was received.
abbrev pub bytes_of : Body → List ℕ
bytes_of (received bytes) = bytes
bytes_of (broken text) = []

-- After the loop over the slices: the next chunk, unless it has returned.
abbrev pub chunk_end : (Transfer × ℕ) × Streamed → Transfer × Streamed → Transfer × Streamed
chunk_end (sliced, all_read) later = later
chunk_end ((t, offset), returned result) later = (t, returned result)
chunk_end ((t, offset), still_paused) later = (t, still_paused)

-- How the round for a chunk goes on; `sliced` is what the loop over its slices gives, and `later`
-- are the other rounds.
abbrev pub chunk_round :
    Flow → Body → Transfer → (Transfer × ℕ) × Streamed → Transfer × Streamed → Transfer × Streamed
chunk_round stop body checked sliced later = (checked, returned (ok tt))
chunk_round waiting body checked sliced later = (checked, still_paused)
chunk_round proceed (broken text) checked sliced later =
    (checked, returned (err (network_error checked.worker.id text)))
chunk_round proceed (received bytes) checked sliced later = chunk_end sliced later

-- `while let Some(chunk) = stream.next().await`
unfoldable pub chunk_loop : Streaming → List Chunk → ℕ → Transfer → Transfer × Streamed
unfolding checkpoint slice_loop chunks
chunk_loop s [] offset t = (t, all_read)
chunk_loop s (chunk ∷ rest) offset t =
    let (w, flow) = checkpoint chunk.point t.worker in
    let checked = record t { worker = w } in
    let sliced =
      slice_loop s (chunks rate_limit_slice_bytes (bytes_of chunk.body)) chunk.slices offset
        checked in
    let later = chunk_loop s rest sliced.0.1 sliced.0.0 in
    chunk_round flow chunk.body checked sliced later

-- What the end of the loops gives the caller; `none` is a worker that is still paused.
abbrev pub streamed : Streamed → Option (Result (Unit {0}))
streamed all_read = some (ok tt)
streamed (returned result) = some result
streamed still_paused = none

-- `stream_response` of the HTTP driver; `store` is what `task.payload_store()` gives.
unfoldable pub stream_response :
    Access
    → Speeds
    → Result FileMap
    → Bool
    → ℕ
    → Reply
    → Transfer
    → Transfer × Option (Result (Unit {0}))
unfolding chunk_loop
stream_response access speeds (err e) use_range_requests range_start reply t = (t, some (err e))
stream_response access speeds (ok store) use_range_requests range_start reply t =
    let offset = if use_range_requests then range_start else t.worker.start in
    let (t', end) =
      chunk_loop (record { store = store; access = access; speeds = speeds }) reply.chunks offset
        t in
    (t', streamed end)
