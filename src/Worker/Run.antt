-- ===== src/Worker/Run.antt =====
-- src/worker/runtime.rs: the download loop of a worker. One attempt at a time is answered; `none`
-- as the result is a loop that has not ended with the attempts that are looked at.
use paradown.Prelude.{
  ℕ, Bool, true, false, ◌&&◌, Option, some, none, List, [], ◌∷◌, leb, if◌then◌else◌,
}
use paradown.Failure.{Result, ok, err}
use paradown.Worker.{expected_length, resume_flags}
use paradown.Worker.Driver.{ProgressReporter}
use paradown.Worker.Round.{
  Context, Attempt, Run, Round, again, break, return, still_paused, worker_of, with_worker, round,
  finish_success, prepare_from, mark_failed,
}

-- How the loop goes on behind a round.
unfoldable pub after :
    Round → Run → (ℕ → Run × Option (Result (Unit {0}))) → Run × Option (Result (Unit {0}))
unfolding finish_success
after (again n) r later = later n
after break r later = (finish_success r, some (ok tt))
after (return result) r later = (r, some result)
after still_paused r later = (r, none)

-- `loop { .. }` and the success behind it.
unfoldable pub download_loop : Context → List Attempt → ℕ → Run → Run × Option (Result (Unit {0}))
unfolding round after
download_loop context [] retry_count r = (r, none)
download_loop context (attempt ∷ attempts) retry_count r =
    let (r', end) = round context attempt retry_count r in
    after end r' (λ n. download_loop context attempts n r')

-- `ProgressReporter::new` at a time; the interval and the threshold stay.
abbrev pub new_reporter : ℕ → ℕ → ProgressReporter → ProgressReporter
new_reporter now downloaded p = record p { last_emit = now; last_reported = downloaded }

unfoldable pub run_from : Context → List Attempt → ℕ → Run → Run × Option (Result (Unit {0}))
unfolding download_loop finish_success expected_length
run_from context attempts now r =
    let w = worker_of r in
    if w.length_known && leb (expected_length w) w.downloaded_size
    then (finish_success r, some (ok tt))
    else download_loop context attempts 0 (record r {
      transfer = record r.transfer {
        reporter = new_reporter now w.downloaded_size r.transfer.reporter;
      };
    })

abbrev pub after_prepare :
    Result Bool → Run → Run × Option (Result (Unit {0})) → Run × Option (Result (Unit {0}))
after_prepare (err e) begun rest = (begun, some (err e))
after_prepare (ok false) begun rest = (begun, some (ok tt))
after_prepare (ok true) begun rest = rest

unfoldable pub run_download_loop :
    Context → List Attempt → ℕ → Run → Run × Option (Result (Unit {0}))
unfolding run_from prepare_from
run_download_loop context attempts now r =
    let (w, prepared) = prepare_from (worker_of r).status (worker_of r) in
    let begun = with_worker (λ _. w) r in
    after_prepare prepared begun (run_from context attempts now begun)

-- The end of `start`: an error marks the worker, and it is not running any more.
abbrev pub ended : Run × Option (Result (Unit {0})) → Run × Option (Result (Unit {0}))
ended (r, none) = (r, none)
ended (r, some (ok _)) = (with_worker (λ w. record w { is_running = false }) r, some (ok tt))
ended (r, some (err e)) =
    (with_worker (λ w. record w { is_running = false }) (mark_failed e r), some (err e))

unfoldable pub start : Context → List Attempt → ℕ → Run → Run × Option (Result (Unit {0}))
unfolding run_download_loop mark_failed
start context attempts now r =
    if (worker_of r).is_running
    then (r, some (ok tt))
    else ended (
        run_download_loop context attempts now
          (with_worker (λ w. record w { is_running = true }) r))

-- `Worker::resume`: a worker that is not running is started.
unfoldable pub resume : Context → List Attempt → ℕ → Run → Run × Option (Result (Unit {0}))
unfolding start resume_flags
resume context attempts now r =
    let (w, should_start) = resume_flags (worker_of r) in
    let resumed = with_worker (λ _. w) r in
    if should_start then start context attempts now resumed else (resumed, some (ok tt))
