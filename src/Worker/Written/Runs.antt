-- ===== src/Worker/Written/Runs.antt =====
-- A whole run of a worker of src/worker/runtime.rs over range requests.
use paradown.Prelude.{
  ℕ, ◌+◌, ◌≤◌, Bool, true, false, ◌&&◌, ◌≡◌, refl, List, [], ◌∷◌, Option, none, arith, All,
  saturating_add_u64, ltb,
}
use paradown.Failure.{Result, ok, err, network_error}
use paradown.Payload.{FileMap}
use paradown.Worker.{Flow, proceed, stop, waiting, checkpoint}
use paradown.Worker.Driver.{driver_for_kind, build_request}
use paradown.Worker.Round.{
  Context, Attempt, Run, Round, again, break, return, still_paused, worker_of, with_worker, round,
  Sent, answered, unsent, request_round, response_round, retry_round, resume_attempted, requested,
  round_from, finish_success,
}
use paradown.Worker.Run.{after, download_loop}
use paradown.Worker.Checks.{checkpoint_lem}
use paradown.Worker.Written.{Tiled, Same-Keeps}
use paradown.Worker.Written.Rounds.{
  HonestSent, Kept, Kept-Keeps, retry_round-Kept, response_round-Kept, resume_attempted-Keeps,
}

module _ (context : Context) (store : FileMap) (payload : ℕ → ℕ) (first last : ℕ)
    (stored : context.store ≡ ok store) (access : context.access ≡ (λ _. ok tt))
    (tiled : Tiled store) (fits : last + 1 ≤ store.total_size)
    (ranges : context.supports_range_requests ≡ true) where
  abbrev pub Held : Run → Type 0
  Held = Kept context store payload first last stored access tiled fits

  -- What becomes of the request: `counted` is the run once it is counted.
  requested-Held :
      (attempt : Attempt) (n : ℕ) (counted : Run) (by_range resumes : Bool) (offset : ℕ)
      (range : Result (Option (ℕ × ℕ))) (sent : Sent) (id : ℕ)
      → by_range ≡ true
      → Held counted
      → offset ≡ first + (worker_of counted).downloaded_size
      → HonestSent payload sent
      → Held
          (requested range sent
            (λ e. retry_round context n e none counted)
            (λ reply. response_round context attempt offset by_range resumes reply n counted)
            id).0
  requested-Held attempt n counted false resumes offset range sent id e h at honest = cc
  requested-Held attempt n counted true resumes offset (err x) sent id e h at honest =
      retry_round-Kept context store payload first last stored access tiled fits n x none counted h
  requested-Held attempt n counted true resumes offset (ok range) (unsent text) id e h at honest =
      retry_round-Kept context store payload first last stored access tiled fits n
        (network_error id text) none counted h
  requested-Held attempt n counted true resumes offset (ok range) (answered reply) id e h at
        honest =
      response_round-Kept context store payload first last stored access tiled fits attempt offset
        resumes reply n counted h at honest

  request_round-Held :
      (attempt : Attempt) (n : ℕ) (r : Run)
      → Held r
      → HonestSent payload attempt.sent
      → Held (request_round context attempt n r).0
  unfolding request_round
  request_round-Held attempt n r h honest =
      let w = worker_of r in
      let by_range = w.length_known && context.supports_range_requests in
      let offset = saturating_add_u64 w.start w.downloaded_size in
      let resumes = by_range && ltb w.start offset in
      let counted = resume_attempted resumes r in
      let kept =
        resume_attempted-Keeps context store payload first last stored access tiled fits resumes
          r in
      requested-Held attempt n counted by_range resumes offset
        (build_request (driver_for_kind w.source.kind) attempt.applied offset by_range w)
        attempt.sent w.id (ground (arith, h.known, ranges))
        (Kept-Keeps context store payload first last stored access tiled fits r counted kept h)
        (omega (arith, h.start, h.fits, tiled.small, kept.downloaded_size)) honest

  round-Held :
      (attempt : Attempt) (n : ℕ) (r : Run)
      → Held r
      → HonestSent payload attempt.sent
      → Held (round context attempt n r).0
  unfolding round
  round-Held attempt n r h honest =
      let w = worker_of r in
      let c = (checkpoint_lem attempt.point w).0 in
      let checked : Run = with_worker (λ _. (checkpoint attempt.point w).0) r in
      let checked_h : Held checked =
        Kept-Keeps context store payload first last stored access tiled fits r checked
          (Same-Keeps r.transfer (checkpoint attempt.point w).0 c) h in
      from_check (checkpoint attempt.point w).1 checked (request_round context attempt n checked)
        checked_h (request_round-Held attempt n checked checked_h honest)
    where
      from_check :
          (flow : Flow) (checked : Run) (rest : Run × Round)
          → Held checked
          → Held rest.0
          → Held (round_from flow checked rest).0
      from_check stop checked rest h k = h
      from_check waiting checked rest h k = h
      from_check proceed checked rest h k = k

  pub finish_success-Held : (r : Run) → Held r → Held (finish_success r)
  unfolding finish_success
  finish_success-Held r =
      Kept-Keeps context store payload first last stored access tiled fits r (finish_success r)
        (record {
          length_known = refl;
          start = refl;
          end = refl;
          downloaded_size = refl;
          disk = refl;
        })

  pub download_loop-Held :
      (attempts : List Attempt) (n : ℕ) (r : Run)
      → Held r
      → All (λ a. HonestSent payload a.sent) attempts
      → Held (download_loop context attempts n r).0
  unfolding download_loop after
  download_loop-Held [] n r h honest = h
  download_loop-Held (attempt ∷ attempts) n r h honest =
      let next = round context attempt n r in
      let held = round-Held attempt n r h honest.0 in
      ended_round next.1 next.0 (λ m. download_loop context attempts m next.0) held
        (λ m. download_loop-Held attempts m next.0 held honest.1)
    where
      ended_round :
          (end : Round) (r' : Run) (later : ℕ → Run × Option (Result (Unit {0})))
          → Held r'
          → ((m : ℕ) → Held (later m).0)
          → Held (after end r' later).0
      ended_round (again m) r' later h k = k m
      ended_round break r' later h k = finish_success-Held r' h
      ended_round (return result) r' later h k = h
      ended_round still_paused r' later h k = h
