-- ===== src/Worker/Written/Loops.antt =====
-- The body of a response of src/transfer/http.rs, slice by slice, chunk by chunk.
use paradown.Prelude.{
  ℕ, ◌+◌, ◌≤◌, true, ◌≡◌, refl, ◌∙◌, sym, ap, List, [], ◌∷◌, arith, length, saturating_add_u64,
}
use paradown.Failure.{Result, ok, err}
use paradown.Worker.{Flow, proceed, stop, waiting, Point, checkpoint}
use paradown.Worker.Driver.{
  Streaming, Transfer, Streamed, all_read, returned, still_paused, SlicePoint, Chunk, Body, broken,
  received, Reply, slice_loop, chunk_loop, stream_response, store_slice, slice_end, next_point,
  bytes_of, chunk_round, later_points, chunks, rate_limit_slice_bytes,
}
use paradown.Worker.Checks.{checkpoint_lem}
use paradown.Worker.Written.{
  Tiled, ServesChunks, ServesSlices, OnDisk-Keeps, Same-Keeps, Kept, Next, store_slice-Kept,
  chunks_loop-ServesSlices,
}

module _ (s : Streaming) (payload : ℕ → ℕ) (first limit : ℕ) where
  -- The progress of a loop is on disk; behind its last round it has come to `end`.
  abbrev Left : ℕ → Transfer × ℕ → Streamed → Type 0
  Left end at e =
      Kept s payload first limit at.0
      × (e ≡ all_read → (at.1 ≡ end) × (at.1 ≡ first + at.0.worker.downloaded_size))

  slice_end-Left :
      (end : ℕ) (flow : Flow) (result : Result (Unit {0})) (checked stored : Transfer) (offset : ℕ)
      (rest : (Transfer × ℕ) × Streamed)
      → Kept s payload first limit checked
      → Kept s payload first limit stored
      → Left end rest.0 rest.1
      → let r = slice_end flow result checked stored offset rest in Left end r.0 r.1
  slice_end-Left end stop result checked stored offset rest c d h = (c, λ e. ground arith)
  slice_end-Left end waiting result checked stored offset rest c d h = (c, λ e. ground arith)
  slice_end-Left end proceed (err x) checked stored offset rest c d h = (d, λ e. ground arith)
  slice_end-Left end proceed (ok _) checked stored offset rest c d h = h

  checked-Kept :
      (point : Point) (t : Transfer)
      → Kept s payload first limit t
      → Kept s payload first limit (record t { worker = (checkpoint point t.worker).0 })
  checked-Kept point t h =
      OnDisk-Keeps s.store payload first limit t _
        (Same-Keeps t (checkpoint point t.worker).0 (checkpoint_lem point t.worker).0) h

  module _ (tiled : Tiled s.store) (access : s.access ≡ (λ _. ok tt))
      (small : limit ≤ s.store.total_size) where
    slice_loop-Left :
        (slices : List (List ℕ)) (points : List SlicePoint) (offset end : ℕ) (t : Transfer)
        → Next s payload first limit (t, offset)
        → ServesSlices payload limit offset slices end
        → let r = slice_loop s slices points offset t in Left end r.0 r.1
    unfolding slice_loop
    slice_loop-Left [] points offset end t next serves = (next.0, λ e. (serves, next.1))
    slice_loop-Left (slice ∷ slices) points offset end t next serves =
        let p = next_point points in
        let checked : Transfer = record t { worker = (checkpoint p.point t.worker).0 } in
        let c = checked-Kept p.point t next.0 in
        let same = checkpoint_lem p.point t.worker in
        let h =
          store_slice-Kept s payload first limit offset slice p.now checked tiled access small
            (c, next.1 ∙ ap (λ n. first + n) (sym same.0.downloaded_size)) serves.0 in
        let moved : saturating_add_u64 offset (length slice) ≡ offset + length slice =
          omega (arith, serves.0.0, tiled.small) in
        rw moved (
          slice_end-Left end (checkpoint p.point t.worker).1
            (store_slice s offset slice p.now checked).1 checked
            (store_slice s offset slice p.now checked).0 offset _ c h.1.0
            (slice_loop-Left slices (later_points points) (offset + length slice) end
              (store_slice s offset slice p.now checked).0 h.1 serves.1))

    chunk_round-Kept :
        (end : ℕ) (flow : Flow) (body : Body) (checked : Transfer)
        (sliced : (Transfer × ℕ) × Streamed) (later : Transfer × Streamed)
        → Kept s payload first limit checked
        → Left end sliced.0 sliced.1
        → (sliced.1 ≡ all_read → Kept s payload first limit later.0)
        → Kept s payload first limit (chunk_round flow body checked sliced later).0
    chunk_round-Kept end stop body checked sliced later c h k = c
    chunk_round-Kept end waiting body checked sliced later c h k = c
    chunk_round-Kept end proceed (broken text) checked sliced later c h k = c
    chunk_round-Kept end proceed (received bytes) checked (at, all_read) later c h k = k refl
    chunk_round-Kept end proceed (received bytes) checked ((t, offset), returned r) later c h k =
        h.0
    chunk_round-Kept end proceed (received bytes) checked ((t, offset), still_paused) later c h k =
        h.0

    chunk_loop-Kept :
        (cs : List Chunk) (offset : ℕ) (t : Transfer)
        → Next s payload first limit (t, offset)
        → ServesChunks payload limit offset cs
        → Kept s payload first limit (chunk_loop s cs offset t).0
    unfolding chunk_loop chunks
    chunk_loop-Kept [] offset t next serves = next.0
    chunk_loop-Kept (chunk ∷ rest) offset t next serves =
        let bytes = bytes_of chunk.body in
        let checked : Transfer = record t { worker = (checkpoint chunk.point t.worker).0 } in
        let c = checked-Kept chunk.point t next.0 in
        let same = checkpoint_lem chunk.point t.worker in
        let at_next : Next s payload first limit (checked, offset) =
          (c, next.1 ∙ ap (λ n. first + n) (sym same.0.downloaded_size)) in
        let sliced =
          slice_loop s (chunks rate_limit_slice_bytes bytes) chunk.slices offset checked in
        let h =
          slice_loop-Left (chunks rate_limit_slice_bytes bytes) chunk.slices offset
            (offset + length bytes) checked at_next
            (chunks_loop-ServesSlices payload limit (length bytes) rate_limit_slice_bytes offset
              bytes (omega arith) (omega arith) serves.0) in
        chunk_round-Kept (offset + length bytes) (checkpoint chunk.point t.worker).1 chunk.body
          checked sliced _ c h
          (λ e. chunk_loop-Kept rest sliced.0.1 sliced.0.0 (h.0, (h.1 e).1) (rw (h.1 e).0 serves.1))

    pub stream_response-Kept :
        (reply : Reply) (offset : ℕ) (t : Transfer)
        → Next s payload first limit (t, offset)
        → ServesChunks payload limit offset reply.chunks
        → Kept s payload first limit
            (stream_response s.access s.speeds (ok s.store) true offset reply t).0
    unfolding stream_response
    stream_response-Kept reply offset t next serves =
        chunk_loop-Kept reply.chunks offset t next serves
