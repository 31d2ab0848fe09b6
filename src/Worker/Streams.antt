-- ===== src/Worker/Streams.antt =====
-- How the loops of src/transfer/http.rs over a response end, whatever is called meanwhile and
-- whatever the payload store answers.
use paradown.Prelude.{
  ℕ, Bool, true, false, ◌≡◌, List, [], ◌∷◌, Option, some, none, arith, length, saturating_add_u64,
  if◌then◌else◌,
}
use paradown.Failure.{Result, ok, err}
use paradown.Payload.{FileMap, Access}
use paradown.Stats.{Speeds}
use paradown.Worker.{WorkerState, Flow, proceed, stop, waiting, checkpoint, should_stop_gracefully}
use paradown.Worker.Driver.{
  Streaming, Transfer, Streamed, all_read, returned, still_paused, SlicePoint, Chunk, Body, broken,
  received, Reply, slice_loop, chunk_loop, stream_response, store_slice, counted, slice_end,
  maybe_emit, next_point, bytes_of, chunk_round, later_points, chunks, rate_limit_slice_bytes,
  streamed,
}
use paradown.Worker.Checks.{
  SameLane, Same-lane, SameLane-refl, SameLane-trans, Ended, checkpoint_lem,
}

-- A loop returns without an error only for a worker that is to stop, and waits on only for a paused
-- one that is not.
abbrev pub Closed : WorkerState → Streamed → Type 0
Closed w all_read = Unit
Closed w (returned (ok _)) = should_stop_gracefully w ≡ true
Closed w (returned (err e)) = Unit
Closed w still_paused = (w.paused ≡ true) × (should_stop_gracefully w ≡ false)

abbrev Streams : WorkerState → Transfer → Streamed → Type 0
Streams w t end = SameLane w t.worker × Closed t.worker end

counted-SameLane :
    (s : Streaming) (now size : ℕ) (t : Transfer) (result : Result (Unit {0}))
    → SameLane t.worker (counted s now size t result).0.worker
unfolding maybe_emit
counted-SameLane s now size t (err e) = SameLane-refl t.worker
counted-SameLane s now size t (ok _) = ground arith

slice_end-Streams :
    (w : WorkerState) (flow : Flow) (result : Result (Unit {0})) (checked stored : Transfer)
    (offset : ℕ) (rest : (Transfer × ℕ) × Streamed)
    → SameLane w checked.worker
    → Ended checked.worker flow
    → SameLane checked.worker stored.worker
    → Streams stored.worker rest.0.0 rest.1
    → let r = slice_end flow result checked stored offset rest in Streams w r.0.0 r.1
slice_end-Streams w stop result checked stored offset rest l e p h = (l, e)
slice_end-Streams w waiting result checked stored offset rest l e p h = (l, e)
slice_end-Streams w proceed (err x) checked stored offset rest l e p h =
    (SameLane-trans w checked.worker stored.worker l p, tt)
slice_end-Streams w proceed (ok _) checked stored offset rest l e p h = (
  SameLane-trans w stored.worker rest.0.0.worker (SameLane-trans w checked.worker stored.worker l p)
      h.0,
  h.1,
)

slice_loop-Streams :
    (s : Streaming) (slices : List (List ℕ)) (points : List SlicePoint) (offset : ℕ) (t : Transfer)
    → let r = slice_loop s slices points offset t in Streams t.worker r.0.0 r.1
unfolding slice_loop store_slice
slice_loop-Streams s [] points offset t = (SameLane-refl t.worker, tt)
slice_loop-Streams s (slice ∷ slices) points offset t =
    let p = next_point points in
    let c = checkpoint_lem p.point t.worker in
    let checked = record t { worker = (checkpoint p.point t.worker).0 } in
    let stored = (store_slice s offset slice p.now checked).0 in
    slice_end-Streams t.worker (checkpoint p.point t.worker).1
      (store_slice s offset slice p.now checked).1 checked stored offset _
      (Same-lane t.worker checked.worker c.0) c.1 (counted-SameLane s p.now (length slice) _ _)
      (slice_loop-Streams s slices (later_points points) (saturating_add_u64 offset (length slice))
        stored)

chunk_round-Streams :
    (w : WorkerState) (flow : Flow) (body : Body) (checked : Transfer)
    (sliced : (Transfer × ℕ) × Streamed) (later : Transfer × Streamed)
    → SameLane w checked.worker
    → Ended checked.worker flow
    → Streams checked.worker sliced.0.0 sliced.1
    → Streams sliced.0.0.worker later.0 later.1
    → let r = chunk_round flow body checked sliced later in Streams w r.0 r.1
chunk_round-Streams w stop body checked sliced later l e h k = (l, e)
chunk_round-Streams w waiting body checked sliced later l e h k = (l, e)
chunk_round-Streams w proceed (broken text) checked sliced later l e h k = (l, tt)
chunk_round-Streams w proceed (received bytes) checked ((t, offset), all_read) later l e h k = (
  SameLane-trans w t.worker later.0.worker (SameLane-trans w checked.worker t.worker l h.0) k.0,
  k.1,
)
chunk_round-Streams w proceed (received bytes) checked ((t, offset), returned r) later l e h k =
    (SameLane-trans w checked.worker t.worker l h.0, h.1)
chunk_round-Streams w proceed (received bytes) checked ((t, offset), still_paused) later l e h k =
    (SameLane-trans w checked.worker t.worker l h.0, h.1)

chunk_loop-Streams :
    (s : Streaming) (cs : List Chunk) (offset : ℕ) (t : Transfer)
    → let r = chunk_loop s cs offset t in Streams t.worker r.0 r.1
unfolding chunk_loop
chunk_loop-Streams s [] offset t = (SameLane-refl t.worker, tt)
chunk_loop-Streams s (chunk ∷ rest) offset t =
    let c = checkpoint_lem chunk.point t.worker in
    let checked = record t { worker = (checkpoint chunk.point t.worker).0 } in
    let slices = chunks rate_limit_slice_bytes (bytes_of chunk.body) in
    let sliced = slice_loop s slices chunk.slices offset checked in
    chunk_round-Streams t.worker (checkpoint chunk.point t.worker).1 chunk.body checked sliced _
      (Same-lane t.worker checked.worker c.0) c.1
      (slice_loop-Streams s slices chunk.slices offset checked)
      (chunk_loop-Streams s rest sliced.0.1 sliced.0.0)

-- The same of what `stream_response` gives; `none` is a worker that is still paused.
abbrev pub ClosedResult : WorkerState → Option (Result (Unit {0})) → Type 0
ClosedResult w none = (w.paused ≡ true) × (should_stop_gracefully w ≡ false)
ClosedResult w (some result) = Unit

pub stream_response-Streams :
    (access : Access) (speeds : Speeds) (store : Result FileMap) (use_range_requests : Bool)
    (range_start : ℕ) (reply : Reply) (t : Transfer)
    → let r = stream_response access speeds store use_range_requests range_start reply t in
      SameLane t.worker r.0.worker × ClosedResult r.0.worker r.1
unfolding stream_response
stream_response-Streams access speeds (err e) use_range_requests range_start reply t =
    (SameLane-refl t.worker, tt)
stream_response-Streams access speeds (ok store) use_range_requests range_start reply t =
    let s : Streaming = record { store = store; access = access; speeds = speeds } in
    let r =
      chunk_loop s reply.chunks (if use_range_requests then range_start else t.worker.start) t in
    let h = chunk_loop-Streams s reply.chunks _ t in (h.0, closed r.0.worker r.1 h.1)
  where
    closed : (w : WorkerState) (end : Streamed) → Closed w end → ClosedResult w (streamed end)
    closed w all_read c = tt
    closed w (returned result) c = tt
    closed w still_paused c = c
