-- ===== src/Worker/Ends.antt =====
-- How the run of a worker of src/worker/runtime.rs ends.
use paradown.Prelude.{
  ℕ, ◌-◌, ◌<◌, ◌≤◌, Bool, true, false, ◌&&◌, ◌≡◌, ◌≢◌, refl, leb, if◌then◌else◌, ◌⊎◌, inl, inr,
  Option, some, none, List, [], ◌∷◌, arith, length, u32_mod,
}
use paradown.Failure.{Result, ok, err}
use paradown.Status.{
  Status, preparing, completed, canceled, deleted, paused, pending, running, failed,
}
use paradown.Worker.{WorkerState, should_stop_gracefully, expected_length}
use paradown.Worker.Round.{
  Context, Attempt, Run, Round, again, break, return, still_paused, worker_of, with_worker, round,
  finish_success, prepare_from,
}
use paradown.Worker.Run.{
  after, after_prepare, download_loop, run_from, run_download_loop, ended, start, new_reporter,
}
use paradown.Worker.Outcome.{RoundEnd, round-Good}

-- What the end of the loop says of the worker. A loop that has not ended has used up the attempts
-- it is given, which are no more than the retries that were left, or its worker is paused.
abbrev Enough : ℕ → List Attempt → ℕ → Type 0
Enough max_retries attempts n = max_retries - n < length attempts

abbrev IsPaused : WorkerState → Type 0
IsPaused w = (w.paused ≡ true) × (should_stop_gracefully w ≡ false)

abbrev IsWhole : WorkerState → Type 0
IsWhole w = (w.status ≡ completed) × (w.length_known ≡ true → expected_length w ≤ w.downloaded_size)

abbrev Finished : Type 0 → WorkerState → Option (Result (Unit {0})) → Type 0
Finished enough w none = enough → IsPaused w
Finished enough w (some (ok _)) = (should_stop_gracefully w ≡ true) ⊎ IsWhole w
Finished enough w (some (err e)) = Unit

finish_success-IsWhole :
    (r : Run)
    → ((worker_of r).length_known ≡ false)
      ⊎ (expected_length (worker_of r) ≤ (worker_of r).downloaded_size)
    → IsWhole (worker_of (finish_success r))
unfolding finish_success expected_length
finish_success-IsWhole r (inl k) = (refl, λ h. ground arith)
finish_success-IsWhole r (inr k) = (refl, λ h. k)

after_round :
    (context : Context) (attempt : Attempt) (attempts : List Attempt) (n : ℕ) (end : Round)
    (r' : Run) (later : ℕ → Run × Option (Result (Unit {0})))
    → RoundEnd context.retry.max_retries n (worker_of r') end
    → ((m : ℕ)
        → Finished
            (Enough context.retry.max_retries attempts m)
            (worker_of (later m).0)
            (later m).1)
    → let result = after end r' later in
      Finished
        (Enough context.retry.max_retries (attempt ∷ attempts) n)
        (worker_of result.0)
        result.1
unfolding after
after_round context attempt attempts n (again m) r' later e h = weaken (later m) (h m)
  where
    weaken :
        (result : Run × Option (Result (Unit {0})))
        → Finished (Enough context.retry.max_retries attempts m) (worker_of result.0) result.1
        → Finished
            (Enough context.retry.max_retries (attempt ∷ attempts) n)
            (worker_of result.0)
            result.1
    weaken (w, none) k = λ enough. k (omega arith)
    weaken (w, some (ok _)) k = k
    weaken (w, some (err x)) k = k
after_round context attempt attempts n break r' later e h =
    inr (finish_success-IsWhole r' (ground arith))
after_round context attempt attempts n (return (ok _)) r' later e h = inl e
after_round context attempt attempts n (return (err x)) r' later e h = tt
after_round context attempt attempts n still_paused r' later e h = λ enough. e

download_loop-Finished :
    (context : Context) (attempts : List Attempt) (n : ℕ) (r : Run)
    → context.retry.max_retries < u32_mod
    → let result = download_loop context attempts n r in
      Finished (Enough context.retry.max_retries attempts n) (worker_of result.0) result.1
unfolding download_loop after
download_loop-Finished context [] n r small = λ enough. absurd (omega arith)
download_loop-Finished context (attempt ∷ attempts) n r small =
    after_round context attempt attempts n (round context attempt n r).1
      (round context attempt n r).0
      (λ m. download_loop context attempts m (round context attempt n r).0)
      (round-Good context attempt n r small).1
      (λ m. download_loop-Finished context attempts m (round context attempt n r).0 small)

-- A run from the preparation on: besides, a worker that was completed before.
run_from-Finished :
    (context : Context) (attempts : List Attempt) (now : ℕ) (r : Run)
    → context.retry.max_retries < u32_mod
    → let result = run_from context attempts now r in
      Finished (Enough context.retry.max_retries attempts 0) (worker_of result.0) result.1
unfolding run_from
run_from-Finished context attempts now r small =
    at_start
      ((worker_of r).length_known
        && leb (expected_length (worker_of r)) (worker_of r).downloaded_size)
      refl
  where
    begun : Run
    begun = record r {
      transfer = record r.transfer {
        reporter = new_reporter now (worker_of r).downloaded_size r.transfer.reporter;
      };
    }

    at_start :
        (b : Bool)
        → ((worker_of r).length_known
            && leb (expected_length (worker_of r)) (worker_of r).downloaded_size)
          ≡ b
        → let result =
            if b
            then (finish_success r, some (ok tt))
            else download_loop context attempts 0 begun in
          Finished (Enough context.retry.max_retries attempts 0) (worker_of result.0) result.1
    at_start true e = inr (finish_success-IsWhole r (inr (ground arith)))
    at_start false e = download_loop-Finished context attempts 0 begun small

-- The status that a run may end at once with.
prepare_from-eq-false :
    (status : Status) (w : WorkerState) → (prepare_from status w).1 ≡ ok false → status ≡ completed
unfolding prepare_from
prepare_from-eq-false completed w h = refl
prepare_from-eq-false pending w h = ground arith
prepare_from-eq-false running w h = ground arith
prepare_from-eq-false paused w h = ground arith
prepare_from-eq-false canceled w h = ground arith
prepare_from-eq-false deleted w h = ground arith
prepare_from-eq-false preparing w h = ground arith
prepare_from-eq-false (failed e) w h = ground arith

run_download_loop-Finished :
    (context : Context) (attempts : List Attempt) (now : ℕ) (r : Run)
    → context.retry.max_retries < u32_mod
    → (worker_of r).status ≢ completed
    → let result = run_download_loop context attempts now r in
      Finished (Enough context.retry.max_retries attempts 0) (worker_of result.0) result.1
unfolding run_download_loop
run_download_loop-Finished context attempts now r small fresh =
    prepared (prepare_from (worker_of r).status (worker_of r)).1 begun
      (λ h. fresh (prepare_from-eq-false (worker_of r).status (worker_of r) h))
      (run_from-Finished context attempts now begun small)
  where
    begun : Run
    begun = with_worker (λ _. (prepare_from (worker_of r).status (worker_of r)).0) r

    prepared :
        (result : Result Bool) (begun : Run)
        → (result ≢ ok false)
        → (let rest = run_from context attempts now begun in
            Finished (Enough context.retry.max_retries attempts 0) (worker_of rest.0) rest.1)
        → let rest = after_prepare result begun (run_from context attempts now begun) in
          Finished (Enough context.retry.max_retries attempts 0) (worker_of rest.0) rest.1
    prepared (err e) begun other h = tt
    prepared (ok false) begun other h = absurd (other refl)
    prepared (ok true) begun other h = h

-- What `start` makes of the end of a run.
ended-Finished :
    (enough : Type 0) (result : Run × Option (Result (Unit {0})))
    → enough
    → Finished enough (worker_of result.0) result.1
    → let r = ended result in
      ((o : Result (Unit {0})) × (r.1 ≡ some o) × ((worker_of r.0).is_running ≡ false))
      ⊎ IsPaused (worker_of r.0)
ended-Finished enough (r, none) e h = inr (h e)
ended-Finished enough (r, some (ok _)) e h = inl (ok tt, refl, refl)
ended-Finished enough (r, some (err x)) e h = inl (err x, refl, refl)

ended-IsWhole :
    (enough : Type 0) (result : Run × Option (Result (Unit {0})))
    → Finished enough (worker_of result.0) result.1
    → (ended result).1 ≡ some (ok tt)
    → (should_stop_gracefully (worker_of (ended result).0) ≡ true)
      ⊎ IsWhole (worker_of (ended result).0)
unfolding should_stop_gracefully expected_length
ended-IsWhole enough (r, none) h e = ground arith
ended-IsWhole enough (r, some (ok _)) h e = h
ended-IsWhole enough (r, some (err x)) h e = ground arith

begun-Finished :
    (context : Context) (attempts : List Attempt) (now : ℕ) (r : Run)
    → context.retry.max_retries < u32_mod
    → (worker_of r).status ≢ completed
    → let result =
        run_download_loop context attempts now
          (with_worker (λ w. record w { is_running = true }) r) in
      Finished (Enough context.retry.max_retries attempts 0) (worker_of result.0) result.1
begun-Finished context attempts now r small fresh =
    run_download_loop-Finished context attempts now
      (with_worker (λ w. record w { is_running = true }) r) small fresh

-- A run of a worker comes to an end: with more attempts than there are retries to use up (fewer
-- than 2^32), whatever is answered and called, the run of a worker that is neither running nor
-- completed has a result and leaves it not running, unless the worker is paused and is not to
-- stop.
pub start-ends :
    (context : Context) (attempts : List Attempt) (now : ℕ) (r : Run)
    → context.retry.max_retries < u32_mod
    → (worker_of r).is_running ≡ false
    → (worker_of r).status ≢ completed
    → context.retry.max_retries < length attempts
    → let result = start context attempts now r in
      ((o : Result (Unit {0})) × (result.1 ≡ some o) × ((worker_of result.0).is_running ≡ false))
      ⊎ ((worker_of result.0).paused ≡ true) × (should_stop_gracefully (worker_of result.0) ≡ false)
unfolding start
start-ends context attempts now r small idle fresh enough = rw idle (
    ended-Finished (Enough context.retry.max_retries attempts 0) _ (omega arith)
      (begun-Finished context attempts now r small fresh))

-- If the run of a worker that was neither running nor completed ends without an error, then the
-- worker is canceled or deleted, or it is completed, and has downloaded all that it expects, if
-- the length is known. The retries are fewer than 2^32.
pub start-IsWhole :
    (context : Context) (attempts : List Attempt) (now : ℕ) (r : Run)
    → context.retry.max_retries < u32_mod
    → (worker_of r).is_running ≡ false
    → (worker_of r).status ≢ completed
    → (start context attempts now r).1 ≡ some (ok tt)
    → let w = worker_of (start context attempts now r).0 in
      (should_stop_gracefully w ≡ true)
      ⊎ (w.status ≡ completed) × (w.length_known ≡ true → expected_length w ≤ w.downloaded_size)
unfolding start
start-IsWhole context attempts now r small idle fresh = rw idle (
    ended-IsWhole (Enough context.retry.max_retries attempts 0) _
      (begun-Finished context attempts now r small fresh))
