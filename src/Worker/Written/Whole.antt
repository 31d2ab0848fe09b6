-- ===== src/Worker/Written/Whole.antt =====
-- `Worker::start` of src/worker/runtime.rs over range requests: the bytes that a worker counts are
-- on disk, all of them once it is completed.
use paradown.Prelude.{
  ℕ, ◌+◌, ◌-◌, ◌≤◌, ◌<◌, Bool, true, false, ◌&&◌, ◌≡◌, ◌≢◌, refl, List, Option, some, none, arith,
  All, u64_mod, u32_mod, if◌then◌else◌, leb, inl, inr,
}
use paradown.Failure.{Result, ok, err}
use paradown.Status.{
  Status, completed, preparing, canceled, deleted, paused, pending, running, failed,
}
use paradown.Payload.{FileMap}
use paradown.Worker.{WorkerState, should_stop_gracefully, expected_length}
use paradown.Worker.Round.{
  Context, Attempt, Run, worker_of, with_worker, finish_success, mark_failed, prepare_from,
}
use paradown.Worker.Run.{
  after_prepare, download_loop, run_from, run_download_loop, ended, start, new_reporter,
}
use paradown.Worker.Ends.{start-IsWhole}
use paradown.Worker.Written.{Tiled, Holds, OnDisk, Keeps}
use paradown.Worker.Written.Rounds.{HonestSent, Kept-Keeps}
use paradown.Worker.Written.Runs.{Held, finish_success-Held, download_loop-Held}

-- A lane is as long as its worker expects.
lane_length :
    (w : WorkerState) (first limit : ℕ)
    → w.length_known ≡ true
    → w.start ≡ first
    → w.end + 1 ≡ limit
    → limit < u64_mod
    → limit - first ≤ expected_length w
unfolding expected_length
lane_length w first limit known start end small = ground arith

module _ (context : Context) (store : FileMap) (payload : ℕ → ℕ) (first last : ℕ)
    (stored : context.store ≡ ok store) (access : context.access ≡ (λ _. ok tt))
    (tiled : Tiled store) (fits : last + 1 ≤ store.total_size)
    (ranges : context.supports_range_requests ≡ true) where
  abbrev In : Run → Type 0
  In = Held context store payload first last stored access tiled fits ranges

  In-Keeps : (a b : Run) → Keeps a.transfer b.transfer → In a → In b
  In-Keeps a b = Kept-Keeps context store payload first last stored access tiled fits a b

  run_from-In :
      (attempts : List Attempt) (now : ℕ) (r : Run)
      → In r
      → All (λ a. HonestSent payload a.sent) attempts
      → In (run_from context attempts now r).0
  unfolding run_from
  run_from-In attempts now r h honest = at_start (
      (worker_of r).length_known
      && leb (expected_length (worker_of r)) (worker_of r).downloaded_size)
    where
      begun : Run
      begun = record r {
        transfer = record r.transfer {
          reporter = new_reporter now (worker_of r).downloaded_size r.transfer.reporter;
        };
      }

      at_start :
          (b : Bool)
          → In
              (if b
                then (finish_success r, some (ok tt))
                else download_loop context attempts 0 begun).0
      at_start true =
          finish_success-Held context store payload first last stored access tiled fits ranges r h
      at_start false =
          download_loop-Held context store payload first last stored access tiled fits ranges
            attempts 0 begun
            (In-Keeps r begun
              (record {
                length_known = refl;
                start = refl;
                end = refl;
                downloaded_size = refl;
                disk = refl;
              })
              h)
            honest

  -- The preparation changes the status and the pause flag.
  prepare_from-kept :
      (status : Status) (w : WorkerState)
      → let v = (prepare_from status w).0 in
        (v.start ≡ w.start)
        × (v.downloaded_size ≡ w.downloaded_size)
        × (v.length_known ≡ w.length_known)
        × (v.end ≡ w.end)
  unfolding prepare_from
  prepare_from-kept completed w = (refl, refl, refl, refl)
  prepare_from-kept pending w = (refl, refl, refl, refl)
  prepare_from-kept running w = (refl, refl, refl, refl)
  prepare_from-kept paused w = (refl, refl, refl, refl)
  prepare_from-kept canceled w = (refl, refl, refl, refl)
  prepare_from-kept deleted w = (refl, refl, refl, refl)
  prepare_from-kept preparing w = (refl, refl, refl, refl)
  prepare_from-kept (failed e) w = (refl, refl, refl, refl)

  run_download_loop-In :
      (attempts : List Attempt) (now : ℕ) (r : Run)
      → In r
      → All (λ a. HonestSent payload a.sent) attempts
      → In (run_download_loop context attempts now r).0
  unfolding run_download_loop
  run_download_loop-In attempts now r h honest =
      prepared (prepare_from (worker_of r).status (worker_of r)).1
    where
      begun : Run
      begun = with_worker (λ _. (prepare_from (worker_of r).status (worker_of r)).0) r

      begun_in : In begun
      begun_in =
          let k = prepare_from-kept (worker_of r).status (worker_of r) in
          In-Keeps r begun
            (record {
              length_known = k.2;
              start = k.0;
              end = k.3;
              downloaded_size = k.1;
              disk = refl;
            })
            h

      prepared :
          (result : Result Bool)
          → In (after_prepare result begun (run_from context attempts now begun)).0
      prepared (err e) = begun_in
      prepared (ok false) = begun_in
      prepared (ok true) = run_from-In attempts now begun begun_in honest

  ended-In : (result : Run × Option (Result (Unit {0}))) → In result.0 → In (ended result).0
  unfolding mark_failed
  ended-In (r, none) h = h
  ended-In (r, some (ok _)) h = record {
    known = h.known;
    start = h.start;
    end = h.end;
    fits = h.fits;
    holds = h.holds;
  }
  ended-In (r, some (err e)) h = record {
    known = h.known;
    start = h.start;
    end = h.end;
    fits = h.fits;
    holds = h.holds;
  }

  -- Under the same conditions on the payload, the origin and the responses, and however a run of
  -- a worker ends or is left: if the bytes that the worker counts are on disk when it is started,
  -- the bytes that it counts then are on disk too, within its lane.
  pub start-OnDisk :
      (attempts : List Attempt) (now : ℕ) (r : Run)
      → OnDisk store payload first (last + 1) r.transfer
      → All (λ a. HonestSent payload a.sent) attempts
      → OnDisk store payload first (last + 1) (start context attempts now r).0.transfer
  unfolding start
  start-OnDisk attempts now r h honest = from_flag (worker_of r).is_running
    where
      marked : Run
      marked = with_worker (λ w. record w { is_running = true }) r

      from_flag :
          (b : Bool)
          → In
              (if b
                then (r, some (ok tt))
                else ended (run_download_loop context attempts now marked)).0
      from_flag true = h
      from_flag false = ended-In (run_download_loop context attempts now marked) (
          run_download_loop-In attempts now marked
            (In-Keeps r marked
              (record {
                length_known = refl;
                start = refl;
                end = refl;
                downloaded_size = refl;
                disk = refl;
              })
              h)
            honest)

  -- A worker that ends without an error has fetched its lane. Let the files of the payload tile
  -- it and be accessible, let the origin serve ranges, let the lane of known length lie in the
  -- payload, and let every partial response hold bytes of the payload from where its
  -- Content-Range says, perhaps fewer than that, whatever is called, fails or breaks off
  -- otherwise. If a worker whose progress is on disk, and which is neither running nor completed,
  -- is started, ends without an error, and is not to stop, then the files hold the payload at
  -- every byte of its lane.
  pub start-payload :
      (attempts : List Attempt) (now : ℕ) (r : Run)
      → context.retry.max_retries < u32_mod
      → (worker_of r).is_running ≡ false
      → (worker_of r).status ≢ completed
      → OnDisk store payload first (last + 1) r.transfer
      → All (λ a. HonestSent payload a.sent) attempts
      → let result = start context attempts now r in
        result.1 ≡ some (ok tt)
        → should_stop_gracefully (worker_of result.0) ≡ false
        → Holds store payload first ((last + 1) - first) result.0.transfer.disk
  start-payload attempts now r small idle fresh h honest o going k from below =
      let held = start-OnDisk attempts now r h honest in
      elim (start-IsWhole context attempts now r small idle fresh o) [
        | inl stopped ↦ cc
        | inr whole ↦
            let enough = whole.1 held.known in
            let lane =
              lane_length (worker_of (start context attempts now r).0) first (last + 1) held.known
                held.start held.end (omega (arith, tiled.small)) in
            held.holds k from (omega arith)
      ]
