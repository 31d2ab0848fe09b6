-- ===== src/Worker/Written.antt =====
-- The bytes that the loops of src/transfer/http.rs write, for a response that sends the bytes of the
-- payload from the worker's next position on.
pub mod Loops
pub mod Steps
pub mod Rounds
pub mod Runs
pub mod Whole
use paradown.Prelude.{
  ℕ, zero, suc, ◌+◌, ◌-◌, ◌≤◌, ◌<◌, Bool, true, false, ◌&&◌, ◌≡◌, refl, ◌∙◌, sym, ap, List, [], ◌∷◌,
  some, arith, Bool-cases, inl, inr, length, get_elem?, take, drop, length-take, length-drop, min,
  ltb, leb, saturating_add_u64, add_u64, u64_mod, if◌then◌else◌,
}
use paradown.Failure.{Error, Result, ok, err}
use paradown.Payload.{FileMap, FileSegment, Access, Disk, write_at}
use paradown.Payload.Slices.{Consecutive}
use paradown.Payload.Effects.{DistinctPaths, payload_byte}
use paradown.Payload.ReadBack.{write_at-payload_byte}
use paradown.Stats.{Speeds, update_worker}
use paradown.Worker.{WorkerState, Flow, proceed, stop, waiting, checkpoint}
use paradown.Worker.Driver.{
  Streaming, Transfer, Streamed, all_read, returned, still_paused, SlicePoint, Chunk, Body, broken,
  received, Reply, slice_loop, chunk_loop, stream_response, store_slice, counted, slice_end,
  maybe_emit, next_point, bytes_of, chunk_end, chunk_round, later_points, chunks, chunks_loop,
  rate_limit_slice_bytes, streamed,
}
use paradown.Worker.Checks.{Same, checkpoint_lem}

-- A payload store whose files tile the payload, as a manifest's do.
pub record Tiled (store : FileMap) : Type 0 where
  pub bounded : store.bounded ≡ true
  pub small : store.total_size < u64_mod
  pub consecutive : Consecutive 0 store.segments store.total_size
  pub distinct : DistinctPaths store.segments

-- The payload's bytes from `first` on are on disk, `n` of them.
abbrev pub Holds : FileMap → (ℕ → ℕ) → ℕ → ℕ → Disk → Type 0
Holds store payload first n disk =
    (k : ℕ) → first ≤ k → k < first + n → payload_byte store.segments disk k ≡ some (payload k)

-- Bytes that are the payload's from a position on, before `limit`.
abbrev pub Serves : (ℕ → ℕ) → ℕ → ℕ → List ℕ → Type 0
Serves payload limit offset bytes =
    (offset + length bytes ≤ limit)
    × ((i : ℕ) → i < length bytes → get_elem? bytes i ≡ some (payload (offset + i)))

abbrev pub ServesChunks : (ℕ → ℕ) → ℕ → ℕ → List Chunk → Type 0
ServesChunks payload limit offset [] = Unit
ServesChunks payload limit offset (chunk ∷ rest) =
    Serves payload limit offset (bytes_of chunk.body)
    × ServesChunks payload limit (offset + length (bytes_of chunk.body)) rest

abbrev pub ServesSlices : (ℕ → ℕ) → ℕ → ℕ → List (List ℕ) → ℕ → Type 0
ServesSlices payload limit offset [] end = offset ≡ end
ServesSlices payload limit offset (slice ∷ slices) end =
    Serves payload limit offset slice
    × ServesSlices payload limit (offset + length slice) slices end

-- A worker whose progress is on disk.
pub record OnDisk (store : FileMap) (payload : ℕ → ℕ) (first limit : ℕ) (t : Transfer)
    : Type 0 where
  pub known : t.worker.length_known ≡ true
  pub start : t.worker.start ≡ first
  pub end : t.worker.end + 1 ≡ limit
  pub fits : first + t.worker.downloaded_size ≤ limit
  pub holds : Holds store payload first t.worker.downloaded_size t.disk

get_elem?-take : (n i : ℕ) (xs : List ℕ) → i < n → get_elem? (take n xs) i ≡ get_elem? xs i
get_elem?-take zero i xs h = absurd (omega arith)
get_elem?-take (suc n) i [] h = refl
get_elem?-take (suc n) zero (x ∷ xs) h = refl
get_elem?-take (suc n) (suc i) (x ∷ xs) h = get_elem?-take n i xs (omega arith)

get_elem?-drop : (n i : ℕ) (xs : List ℕ) → get_elem? (drop n xs) i ≡ get_elem? xs (n + i)
get_elem?-drop zero i xs = let e : 0 + i ≡ i = omega arith in rw e
get_elem?-drop (suc n) i [] = refl
get_elem?-drop (suc n) i (x ∷ xs) =
    let e : suc n + i ≡ suc (n + i) = omega arith in rw e (get_elem?-drop n i xs)

module _ (payload : ℕ → ℕ) (limit : ℕ) where
  Serves-take :
      (offset n : ℕ) (bytes : List ℕ)
      → Serves payload limit offset bytes
      → Serves payload limit offset (take n bytes)
  Serves-take offset n bytes h = (
    omega (arith, length-take n bytes),
    λ i lt.
        get_elem?-take n i bytes (omega (arith, length-take n bytes))
        ∙ h.1 i (omega (arith, length-take n bytes)),
  )

  Serves-drop :
      (offset n : ℕ) (bytes : List ℕ)
      → Serves payload limit offset bytes
      → Serves payload limit (offset + length (take n bytes)) (drop n bytes)
  Serves-drop offset n bytes h = (
    omega (arith, length-take n bytes, length-drop n bytes),
    λ i lt.
        let e : (offset + length (take n bytes)) + i ≡ offset + (n + i) =
          omega (arith, length-take n bytes, length-drop n bytes) in
        rw e (get_elem?-drop n i bytes ∙ h.1 (n + i) (omega (arith, length-drop n bytes))),
  )

  pub chunks_loop-ServesSlices :
      (rounds size offset : ℕ) (bytes : List ℕ)
      → 0 < size
      → length bytes ≤ rounds
      → Serves payload limit offset bytes
      → ServesSlices payload limit offset (chunks_loop rounds size bytes) (offset + length bytes)
  unfolding chunks_loop
  chunks_loop-ServesSlices zero size offset [] pos le h = omega arith
  chunks_loop-ServesSlices zero size offset (b ∷ bytes) pos le h = absurd (omega arith)
  chunks_loop-ServesSlices (suc rounds) size offset [] pos le h = omega arith
  chunks_loop-ServesSlices (suc rounds) size offset (b ∷ bytes) pos le h = (
    Serves-take offset size (b ∷ bytes) h,
    let lens : length (drop size (b ∷ bytes)) ≡ suc (length bytes) - size =
          length-drop size (b ∷ bytes) in
        let taken : length (take size (b ∷ bytes)) ≡ min size (suc (length bytes)) =
          length-take size (b ∷ bytes) in
        let all : (offset + length (take size (b ∷ bytes))) + length (drop size (b ∷ bytes))
            ≡ offset + suc (length bytes) =
          omega arith in
        rw (sym all) (
          chunks_loop-ServesSlices rounds size (offset + length (take size (b ∷ bytes)))
            (drop size (b ∷ bytes)) pos (omega arith) (Serves-drop offset size (b ∷ bytes) h)),
  )

-- Two transfers with the same progress and files.
pub record Keeps (a b : Transfer) : Type 0 where
  pub length_known : b.worker.length_known ≡ a.worker.length_known
  pub start : b.worker.start ≡ a.worker.start
  pub end : b.worker.end ≡ a.worker.end
  pub downloaded_size : b.worker.downloaded_size ≡ a.worker.downloaded_size
  pub disk : b.disk ≡ a.disk

pub Same-Keeps :
    (t : Transfer) (w : WorkerState) → Same t.worker w → Keeps t (record t { worker = w })
Same-Keeps t w h = record {
  length_known = h.length_known;
  start = h.start;
  end = h.end;
  downloaded_size = h.downloaded_size;
  disk = refl;
}

pub OnDisk-Keeps :
    (store : FileMap) (payload : ℕ → ℕ) (first limit : ℕ) (a b : Transfer)
    → Keeps a b
    → OnDisk store payload first limit a
    → OnDisk store payload first limit b
OnDisk-Keeps store payload first limit a b e h = record {
  known = e.length_known ∙ h.known;
  start = e.start ∙ h.start;
  end = ap (λ n. n + 1) e.end ∙ h.end;
  fits = rw e.downloaded_size h.fits;
  holds = rw (e.downloaded_size, e.disk) h.holds;
}

maybe_emit-Keeps : (now : ℕ) (t : Transfer) → Keeps t (maybe_emit now t)
unfolding maybe_emit
maybe_emit-Keeps now t = ground arith

module _ (s : Streaming) (payload : ℕ → ℕ) (first limit : ℕ) where
  abbrev pub Kept : Transfer → Type 0
  Kept = OnDisk s.store payload first limit

  -- What a round for a slice or for a chunk leaves: the position of the next byte.
  abbrev pub Next : Transfer × ℕ → Type 0
  Next (t, offset) = Kept t × (offset ≡ first + t.worker.downloaded_size)

  counted-Kept :
      (now size : ℕ) (t : Transfer) (result : Result (Unit {0}))
      → result ≡ ok tt
      → first + (t.worker.downloaded_size + size) ≤ limit
      → limit < u64_mod
      → (t.worker.length_known ≡ true) × (t.worker.start ≡ first) × (t.worker.end + 1 ≡ limit)
      → Holds s.store payload first (t.worker.downloaded_size + size) t.disk
      → let r = counted s now size t result in
        (r.1 ≡ ok tt) × Kept r.0 × (r.0.worker.downloaded_size ≡ t.worker.downloaded_size + size)
  counted-Kept now size t (err e) o fits small st h = cc
  counted-Kept now size t (ok _) o fits small st h =
      let sum : add_u64 t.worker.downloaded_size size ≡ t.worker.downloaded_size + size =
        ground arith in
      let w : WorkerState = record t.worker {
        downloaded_size = add_u64 t.worker.downloaded_size size;
      } in
      let base : Transfer = record t {
        worker = w;
        stats = update_worker s.speeds now t.worker.id size t.stats;
      } in
      let e = maybe_emit-Keeps now base in
      let kept : Kept base = record {
        known = st.0;
        start = st.1;
        end = st.2;
        fits = rw sum fits;
        holds = rw sum h;
      } in
      (refl, OnDisk-Keeps s.store payload first limit base _ e kept, e.downloaded_size ∙ sum)

  pub store_slice-Kept :
      (offset : ℕ) (slice : List ℕ) (now : ℕ) (t : Transfer)
      → Tiled s.store
      → s.access ≡ (λ _. ok tt)
      → limit ≤ s.store.total_size
      → Next (t, offset)
      → Serves payload limit offset slice
      → let r = store_slice s offset slice now t in
        (r.1 ≡ ok tt) × Next (r.0, offset + length slice)
  unfolding store_slice
  store_slice-Kept offset slice now t tiled access small next serves =
      let h =
        write_at-payload_byte s.store offset slice t.disk tiled.bounded tiled.small
          tiled.consecutive tiled.distinct (omega (arith, serves.0)) in
      let written = write_at (λ _. ok tt) s.store offset slice t.disk in
      let c =
        counted-Kept now (length slice) (record t { disk = written.0 }) written.1 h.0
          (omega (arith, serves.0, next.1)) (omega (arith, tiled.small))
          (next.0.known, next.0.start, next.0.end) (λ k from below. h.1 k ∙ byte k from below) in
      rw access (c.0, (c.1, omega (arith, c.2, next.1)))
    where
      byte :
          (k : ℕ)
          → first ≤ k
          → k < first + (t.worker.downloaded_size + length slice)
          → (if leb offset k && ltb k (offset + length slice)
              then get_elem? slice (k - offset)
              else payload_byte s.store.segments t.disk k)
            ≡ some (payload k)
      byte k from below = elim (Bool-cases (leb offset k)) [
        | inl e ↦
            let inside : ltb k (offset + length slice) ≡ true = ground (arith, next.1) in
            let back : offset + (k - offset) ≡ k = ground arith in
            rw (e, inside) (serves.1 (k - offset) (ground arith) ∙ ap (λ i. some (payload i)) back)
        | inr e ↦ rw e (next.0.holds k from (ground (arith, next.1)))
      ]
