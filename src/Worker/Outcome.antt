-- ===== src/Worker/Outcome.antt =====
-- How one round of the loop of src/worker/runtime.rs ends.
use paradown.Prelude.{
  ℕ, ◌+◌, ◌<◌, Bool, true, false, ◌≡◌, refl, ◌∙◌, sym, ltb, ◌&&◌, saturating_add_u64, if◌then◌else◌,
  ◌⊎◌, inl, inr, Option, some, none, arith, Bool-cases, u32_mod,
}
use paradown.Failure.{Error, http_error, network_error, Result, ok, err}
use paradown.Worker.{
  WorkerState, Flow, proceed, stop, waiting, checkpoint, should_stop_gracefully, expected_length,
  apply_calls,
}
use paradown.Worker.Retry.{next_retry_delay}
use paradown.Worker.Driver.{
  Transfer, Reply, flush, resolve_content_length, validate_response, driver_for_kind,
}
use paradown.Worker.Round.{
  Context, Attempt, Run, Round, again, break, return, still_paused, worker_of, with_worker, round,
  request_round, response_round, stream_round, after_stream, finish_round, retry_round,
  retry_or_fail_with_delay, note_failure, is_resume_invalidated, retried, retry_end, length_checked,
  validate_downloaded_length, response_total, resume_hit, resume_attempted, requested, validated,
  classified, round_from, Sent, answered, unsent, classify_terminal_http_error,
  should_retry_http_status,
}
use paradown.Worker.Checks.{
  SameLane, Same-lane, SameLane-refl, SameLane-trans, Ended, checkpoint_lem, apply_calls-Same,
}
use paradown.Worker.Streams.{ClosedResult, stream_response-Streams}

-- A round goes on with one more retry while there are retries left; it breaks with the whole lane,
-- if its length is known; it returns without an error only for a worker that is to stop, and waits
-- on only for one that is paused and not to stop.
abbrev pub RoundEnd : ℕ → ℕ → WorkerState → Round → Type 0
RoundEnd max_retries n w (again m) = (n < max_retries) × (m ≡ n + 1)
RoundEnd max_retries n w break = (w.length_known ≡ false) ⊎ (w.downloaded_size ≡ expected_length w)
RoundEnd max_retries n w (return (ok _)) = should_stop_gracefully w ≡ true
RoundEnd max_retries n w (return (err e)) = Unit
RoundEnd max_retries n w still_paused = (w.paused ≡ true) × (should_stop_gracefully w ≡ false)

abbrev pub Good : Context → ℕ → WorkerState → Run × Round → Type 0
Good context n w r =
    SameLane w (worker_of r.0) × RoundEnd context.retry.max_retries n (worker_of r.0) r.1

note_failure-SameLane :
    (context : Context) (r : Run)
    → SameLane (worker_of r) (worker_of (note_failure context.sources r))
unfolding note_failure
note_failure-SameLane context r = ground arith

next_retry :
    (context : Context) (n delay : ℕ)
    → next_retry_delay context.retry n ≡ some delay
    → n < context.retry.max_retries
unfolding next_retry_delay
next_retry context n delay h = ground arith

retried-Good :
    (context : Context) (n : ℕ) (e : Error) (explicit : Option ℕ) (w : WorkerState) (noted : Run)
    (delay : Option ℕ)
    → context.retry.max_retries < u32_mod
    → next_retry_delay context.retry n ≡ delay
    → SameLane w (worker_of noted)
    → let r = retried delay explicit n e noted in Good context n w (r.0, retry_end r.1)
retried-Good context n e explicit w noted none small h l = (l, tt)
retried-Good context n e explicit w noted (some delay) small h l =
    let left = next_retry context n delay h in (l, (left, omega arith))

retry_round-Good :
    (context : Context) (n : ℕ) (e : Error) (explicit : Option ℕ) (r : Run)
    → context.retry.max_retries < u32_mod
    → Good context n (worker_of r) (retry_round context n e explicit r)
unfolding retry_round
retry_round-Good context n e explicit r small =
    let noted = note_failure-SameLane context r in
    elim (Bool-cases (is_resume_invalidated e)) [
      | inl k ↦ rw (retry_or_fail_with_delay, k) (noted, tt)
      | inr k ↦
          rw (retry_or_fail_with_delay, k)
            (retried-Good context n e explicit (worker_of r) _ _ small refl noted)
    ]

expected_length-eq : (a b : WorkerState) → SameLane a b → expected_length b ≡ expected_length a
unfolding expected_length
expected_length-eq a b l = ground arith

length_checked-Good :
    (context : Context) (n : ℕ) (w : WorkerState) (result : Result (Unit {0})) (flushed sized : Run)
    → SameLane w (worker_of flushed)
    → SameLane w (worker_of sized)
    → (result ≡ ok tt
        → ((worker_of sized).length_known ≡ false)
          ⊎ ((worker_of sized).downloaded_size ≡ expected_length (worker_of sized)))
    → Good context n w (length_checked result flushed sized)
length_checked-Good context n w (err e) flushed sized l k h = (l, tt)
length_checked-Good context n w (ok _) flushed sized l k h = (k, h refl)

-- What a validated length says.
validate_downloaded_length_lem :
    (w : WorkerState) (actual expected : ℕ)
    → validate_downloaded_length w actual expected ≡ ok tt
    → (w.length_known ≡ false) ⊎ (actual ≡ expected)
unfolding validate_downloaded_length
validate_downloaded_length_lem w actual expected h = elim (Bool-cases w.length_known) [
  | inl k ↦ inr (ground arith)
  | inr k ↦ inl k
]

-- A worker behind `finish_round`: its lane and its progress stay.
finish_round-Good :
    (context : Context) (n expected now : ℕ) (w : WorkerState) (r : Run)
    → expected ≡ expected_length (worker_of r)
    → SameLane w (worker_of r)
    → Good context n w (finish_round expected now r)
unfolding finish_round flush expected_length
finish_round-Good context n expected now w r e l =
    let d = (worker_of r).downloaded_size in
    let f : WorkerState = worker_of (record r { transfer = flush now r.transfer }) in
    length_checked-Good context n w (validate_downloaded_length f d expected) _ _ (ground arith)
      (ground arith)
      (λ h. elim (validate_downloaded_length_lem f d expected h) [
        | inl k ↦ inl (ground arith)
        | inr k ↦ inr (ground arith)
      ])

after_stream-Good :
    (context : Context) (attempt : Attempt) (n expected : ℕ) (w : WorkerState) (r : Run)
    (streamed : Transfer × Option (Result (Unit {0})))
    → context.retry.max_retries < u32_mod
    → expected ≡ expected_length w
    → SameLane w streamed.0.worker
    → ClosedResult streamed.0.worker streamed.1
    → Good context n w (after_stream context attempt expected n streamed r)
after_stream-Good context attempt n expected w r (t, none) small e l c = (l, c)
after_stream-Good context attempt n expected w r (t, some (err x)) small e l c =
    let h = retry_round-Good context n x none (record r { transfer = t }) small in
    (SameLane-trans w t.worker _ l h.0, h.1)
after_stream-Good context attempt n expected w r (t, some (ok _)) small e l c =
    let called : Run = with_worker (apply_calls attempt.calls) (record r { transfer = t }) in
    let l' : SameLane w (worker_of called) =
      SameLane-trans w t.worker (worker_of called) l
        (Same-lane t.worker (worker_of called) (apply_calls-Same attempt.calls t.worker)) in
    elim (Bool-cases (should_stop_gracefully (worker_of called))) [
      | inl k ↦ rw k (l', k)
      | inr k ↦ rw k (
          finish_round-Good context n expected attempt.now w called
            (e ∙ sym (expected_length-eq w (worker_of called) l')) l')
    ]

stream_round-Good :
    (context : Context) (attempt : Attempt) (range_start : ℕ) (use_range_requests : Bool)
    (reply : Reply) (n : ℕ) (r : Run)
    → context.retry.max_retries < u32_mod
    → Good context n
        (worker_of r)
        (stream_round context attempt range_start use_range_requests reply n r)
unfolding stream_round
stream_round-Good context attempt range_start use_range_requests reply n r small =
    let w = worker_of r in
    let length =
      resolve_content_length (driver_for_kind w.source.kind) w reply use_range_requests
        range_start in
    let total = response_total w use_range_requests length in
    let sized : Run = with_worker (λ w. record w { total_size = total }) r in
    let h =
      stream_response-Streams context.access context.speeds context.store use_range_requests
        range_start reply sized.transfer in
    let l : SameLane w (worker_of sized) = record {
      id = refl;
      length_known = refl;
      start = refl;
      end = refl;
    } in
    after_stream-Good context attempt n (expected_length w) w sized _ small refl
      (SameLane-trans w (worker_of sized) _ l h.0) h.1

-- A round, from its check to its end.
response_round-Good :
    (context : Context) (attempt : Attempt) (range_start : ℕ)
    (use_range_requests is_resume_attempt : Bool) (reply : Reply) (n : ℕ) (r : Run)
    → context.retry.max_retries < u32_mod
    → Good context n
        (worker_of r)
        (response_round context attempt range_start use_range_requests is_resume_attempt reply n r)
unfolding response_round
response_round-Good context attempt range_start use_range_requests is_resume_attempt reply n r
      small =
    let w = worker_of r in
    let status_error = http_error w.id reply.status "retryable HTTP status" in
    let refused_error = http_error w.id reply.status "protocol error" in
    let later = retry_round context n status_error reply.retry_after r in
    let refused = retry_round context n refused_error none r in
    let taken =
      stream_round context attempt range_start use_range_requests reply n
        (resume_hit is_resume_attempt r) in
    let result =
      validate_response (driver_for_kind w.source.kind) w reply use_range_requests range_start in
    by_class (classify_terminal_http_error w.id reply.status)
      (if should_retry_http_status reply.status then later else validated result refused taken)
      (by_status later (validated result refused taken) (should_retry_http_status reply.status)
        (retry_round-Good context n status_error reply.retry_after r small)
        (by_validation refused taken result (retry_round-Good context n refused_error none r small)
          (accepted is_resume_attempt)))
  where
    accepted :
        (b : Bool)
        → Good context n
            (worker_of r)
            (stream_round context attempt range_start use_range_requests reply n (resume_hit b r))
    accepted false =
        stream_round-Good context attempt range_start use_range_requests reply n r small
    accepted true =
        stream_round-Good context attempt range_start use_range_requests reply n (resume_hit true r)
          small

    by_validation :
        (a b : Run × Round) (result : Result (Unit {0}))
        → Good context n (worker_of r) a
        → Good context n (worker_of r) b
        → Good context n (worker_of r) (validated result a b)
    by_validation a b (err e) h k = h
    by_validation a b (ok _) h k = k

    by_status :
        (a b : Run × Round) (test : Bool)
        → Good context n (worker_of r) a
        → Good context n (worker_of r) b
        → Good context n (worker_of r) (if test then a else b)
    by_status a b true h k = h
    by_status a b false h k = k

    by_class :
        (class : Option Error) (otherwise : Run × Round)
        → Good context n (worker_of r) otherwise
        → Good context n (worker_of r) (classified class r otherwise)
    by_class none otherwise h = h
    by_class (some e) otherwise h = (SameLane-refl (worker_of r), tt)

request_round-Good :
    (context : Context) (attempt : Attempt) (n : ℕ) (r : Run)
    → context.retry.max_retries < u32_mod
    → Good context n (worker_of r) (request_round context attempt n r)
unfolding request_round
request_round-Good context attempt n r small =
    by_request _ attempt.sent (
      ltb (worker_of r).start
        (saturating_add_u64 (worker_of r).start (worker_of r).downloaded_size))
  where
    use_ranges : Bool
    use_ranges = (worker_of r).length_known && context.supports_range_requests

    range_start : ℕ
    range_start = saturating_add_u64 (worker_of r).start (worker_of r).downloaded_size

    retried_request :
        (b : Bool) (e : Error)
        → Good context n (worker_of r) (retry_round context n e none (resume_attempted b r))
    retried_request false e = retry_round-Good context n e none r small
    retried_request true e = retry_round-Good context n e none (resume_attempted true r) small

    answered_request :
        (b : Bool) (reply : Reply)
        → Good context n
            (worker_of r)
            (response_round context attempt range_start use_ranges b reply n (resume_attempted b r))
    answered_request false reply =
        response_round-Good context attempt range_start use_ranges false reply n r small
    answered_request true reply =
        response_round-Good context attempt range_start use_ranges true reply n
          (resume_attempted true r) small

    by_request :
        (range : Result (Option (ℕ × ℕ))) (sent : Sent) (later : Bool)
        → Good context n (worker_of r) (
            requested range sent
              (λ e. retry_round context n e none (resume_attempted (use_ranges && later) r))
              (λ reply.
                response_round context attempt range_start use_ranges
                  (use_ranges && later)
                  reply
                  n
                  (resume_attempted (use_ranges && later) r))
              (worker_of r).id)
    by_request (err e) sent later = retried_request (use_ranges && later) e
    by_request (ok range) (unsent text) later =
        retried_request (use_ranges && later) (network_error (worker_of r).id text)
    by_request (ok range) (answered reply) later = answered_request (use_ranges && later) reply

pub round-Good :
    (context : Context) (attempt : Attempt) (n : ℕ) (r : Run)
    → context.retry.max_retries < u32_mod
    → Good context n (worker_of r) (round context attempt n r)
unfolding round
round-Good context attempt n r small =
    let c = checkpoint_lem attempt.point (worker_of r) in
    let checked : Run = with_worker (λ _. (checkpoint attempt.point (worker_of r)).0) r in
    from_check (checkpoint attempt.point (worker_of r)).1 checked _
      (Same-lane (worker_of r) (worker_of checked) c.0) c.1
      (request_round-Good context attempt n checked small)
  where
    from_check :
        (flow : Flow) (checked : Run) (rest : Run × Round)
        → SameLane (worker_of r) (worker_of checked)
        → Ended (worker_of checked) flow
        → Good context n (worker_of checked) rest
        → Good context n (worker_of r) (round_from flow checked rest)
    from_check stop checked rest l e h = (l, e)
    from_check waiting checked rest l e h = (l, e)
    from_check proceed checked rest l e h =
        (SameLane-trans (worker_of r) (worker_of checked) (worker_of rest.0) l h.0, h.1)
