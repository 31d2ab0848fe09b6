-- ===== src/Worker/Round.antt =====
-- src/worker/runtime.rs: one round of the download loop of a worker, by how its requests are
-- answered.
use paradown.Prelude.{
  ℕ, String, Bool, true, false, not, ◌&&◌, ◌||◌, Option, some, none, List, max, ltb, ◌==◌, str_eq,
  if◌then◌else◌, unwrap_or, add_u32, saturating_add_u64,
}
use paradown.Failure.{Error, other, http_error, network_error, resume_invalidated, Result, ok, err}
use paradown.Status.{Status, running, completed, failed}
use paradown.Events.{Event}
use paradown.Domain.Source.{SourceDescriptor, SourceSet}
use paradown.Job.Sources.{
  SourceRuntime, record_source_success, record_source_failure, select_retry_source,
}
use paradown.Payload.{FileMap, Access}
use paradown.Stats.{
  Speeds, record_success, record_failure, record_retry, record_resume_attempt, record_resume_hit,
}
use paradown.Worker.{
  WorkerState, set_status, emit, switch_source, should_stop_gracefully, Control, apply_calls, Flow,
  proceed, stop, waiting, Point, checkpoint, expected_length,
}
use paradown.Worker.Retry.{RetryConfig, next_retry_delay}
use paradown.Worker.Driver.{
  driver_for_kind, Reply, build_request, resolve_content_length, validate_response, Transfer, flush,
  stream_response,
}

-- What a run reads: the configuration, the task's sources and whether its origin serves ranges, and
-- the payload store.
pub record Context : Type 0 where
  pub retry : RetryConfig
  pub sources : SourceSet
  pub supports_range_requests : Bool
  pub store : Result FileMap
  pub access : Access
  pub speeds : Speeds

-- What `request.send()` gives.
pub data Sent : Type 0 where
  answered : Reply → Sent
  unsent : String → Sent

-- One round of the loop, as it is answered: the calls before its check, the outcome of applying the
-- request options, the response, the calls until the check behind the stream, and the time then.
pub record Attempt : Type 0 where
  pub point : Point
  pub applied : Result (Unit {0})
  pub sent : Sent
  pub calls : List Control
  pub now : ℕ

-- A run: the transfer, the task's record of its sources, and the size of a stream whose length was
-- not known, once `finalize_stream_total_size` is called.
pub record Run : Type 0 where
  pub transfer : Transfer
  pub runtime : SourceRuntime
  pub stream_total : Option ℕ

abbrev pub worker_of : Run → WorkerState
worker_of r = r.transfer.worker

abbrev pub with_worker : (WorkerState → WorkerState) → Run → Run
with_worker f r = record r { transfer = record r.transfer { worker = f r.transfer.worker } }

unfoldable pub should_retry_http_status : ℕ → Bool
should_retry_http_status status =
    status == 408
    || status == 429
    || status == 500
    || status == 502
    || status == 503
    || status == 504

unfoldable pub classify_terminal_http_error : ℕ → ℕ → Option Error
classify_terminal_http_error id status =
    if status == 401 || status == 403 || status == 404
    then some (http_error id status "non-retryable HTTP status")
    else none

unfoldable pub mark_failed : Error → Run → Run
mark_failed e = with_worker λ w. emit (Event.error w.id e) (set_status (failed e) w)

unfoldable pub finish_success : Run → Run
unfolding record_source_success record_success
finish_success r =
    let t = r.transfer in
    with_worker (λ w. emit (Event.complete w.id) (set_status completed w))
      (record r {
        runtime = record_source_success t.worker.source.id r.runtime;
        transfer = record t { stats = record_success t.stats };
      })

-- The status that a run begins with. `false` ends it at once.
unfoldable pub prepare_from : Status → WorkerState → WorkerState × Result Bool
prepare_from Status.paused w =
    (emit (Event.start w.id) (record w { paused = false; status = running }), ok true)
prepare_from Status.canceled w = (w, err (other "Task cannot start"))
prepare_from Status.deleted w = (w, err (other "Task cannot start"))
prepare_from Status.completed w = (w, ok false)
prepare_from status w = (emit (Event.start w.id) (set_status running w), ok true)

-- `&& fallback.id != current_source_id`, and the switch.
abbrev switched : Option SourceDescriptor → WorkerState → WorkerState
switched none w = w
switched (some fallback) w = if str_eq fallback.id w.source.id then w else switch_source fallback w

-- What a failed attempt changes before it is decided whether there is another.
unfoldable pub note_failure : SourceSet → Run → Run
unfolding record_failure record_source_failure select_retry_source switch_source
note_failure sources r =
    let t = r.transfer in
    let id = t.worker.source.id in
    let runtime = record_source_failure id r.runtime in
    record r {
      runtime = runtime;
      transfer = record t {
        stats = record_failure t.stats;
        worker = switched (select_retry_source sources runtime id) t.worker;
      };
    }

abbrev pub is_resume_invalidated : Error → Bool
is_resume_invalidated (resume_invalidated id text) = true
is_resume_invalidated _ = false

abbrev pub count_retry : Run → Run
count_retry r = record r { transfer = record r.transfer { stats = record_retry r.transfer.stats } }

-- Whether there is another attempt, from the delay that is left: the new retry count and the delay
-- that is slept, or the error that ends the loop.
abbrev pub retried : Option ℕ → Option ℕ → ℕ → Error → Run → Run × Result (ℕ × ℕ)
retried none explicit_delay retry_count e noted = (noted, err e)
retried (some delay) explicit_delay retry_count e noted =
    (count_retry noted, ok (add_u32 retry_count 1, max delay (unwrap_or explicit_delay delay)))

unfoldable pub retry_or_fail_with_delay :
    Context → ℕ → Error → Option ℕ → Run → Run × Result (ℕ × ℕ)
unfolding note_failure next_retry_delay record_retry
retry_or_fail_with_delay context retry_count e explicit_delay r =
    let noted = note_failure context.sources r in
    if is_resume_invalidated e
    then (noted, err e)
    else retried (next_retry_delay context.retry retry_count) explicit_delay retry_count e noted

-- How a round of the loop ends: `continue` with a retry count, `break`, `return`, or a worker that
-- is still paused.
pub data Round : Type 0 where
  again : ℕ → Round
  break : Round
  return : Result (Unit {0}) → Round
  still_paused : Round

abbrev pub retry_end : Result (ℕ × ℕ) → Round
retry_end (err e) = return (err e)
retry_end (ok (retry_count, delay)) = again retry_count

-- `self.retry_or_fail..(..).await?; continue;`
unfoldable pub retry_round : Context → ℕ → Error → Option ℕ → Run → Run × Round
unfolding retry_or_fail_with_delay
retry_round context retry_count e explicit_delay r =
    let (r', result) = retry_or_fail_with_delay context retry_count e explicit_delay r in
    (r', retry_end result)

unfoldable pub validate_downloaded_length : WorkerState → ℕ → ℕ → Result (Unit {0})
validate_downloaded_length w actual_length expected =
    if not w.length_known
    then ok tt
    else if actual_length == expected
    then ok tt
    else err (other "downloaded length mismatch")

abbrev pub length_checked : Result (Unit {0}) → Run → Run → Run × Round
length_checked (err e) flushed sized = (flushed, return (err e))
length_checked (ok _) flushed sized = (sized, break)

-- Behind the stream: the report, the test of the length, and the size of a stream.
unfoldable pub finish_round : ℕ → ℕ → Run → Run × Round
unfolding flush validate_downloaded_length
finish_round expected now r =
    let flushed = record r { transfer = flush now r.transfer } in
    let w = worker_of flushed in
    let sized =
      if w.length_known
      then flushed
      else record (with_worker (λ w. record w { total_size = w.downloaded_size }) flushed) {
        stream_total = some w.downloaded_size;
      } in
    length_checked (validate_downloaded_length w w.downloaded_size expected) flushed sized

-- From the end of the stream on.
abbrev pub after_stream :
    Context → Attempt → ℕ → ℕ → Transfer × Option (Result (Unit {0})) → Run → Run × Round
after_stream context attempt expected retry_count (t, none) r =
    (record r { transfer = t }, still_paused)
after_stream context attempt expected retry_count (t, some (err e)) r =
    retry_round context retry_count e none (record r { transfer = t })
after_stream context attempt expected retry_count (t, some (ok _)) r =
    let called = with_worker (apply_calls attempt.calls) (record r { transfer = t }) in
    if should_stop_gracefully (worker_of called)
    then (called, return (ok tt))
    else finish_round expected attempt.now called

abbrev pub response_total : WorkerState → Bool → ℕ → ℕ
response_total w use_range_requests response_length =
    if use_range_requests
    then saturating_add_u64 w.downloaded_size response_length
    else if w.length_known
    then response_length
    else 0

abbrev pub resume_hit : Bool → Run → Run
resume_hit false r = r
resume_hit true r = record r {
  transfer = record r.transfer { stats = record_resume_hit r.transfer.stats };
}

-- An accepted response: the total size, and the stream.
unfoldable pub stream_round : Context → Attempt → ℕ → Bool → Reply → ℕ → Run → Run × Round
unfolding stream_response resolve_content_length retry_round finish_round apply_calls
    should_stop_gracefully expected_length
stream_round context attempt range_start use_range_requests reply retry_count r =
    let w = worker_of r in
    let driver = driver_for_kind w.source.kind in
    let response_length = resolve_content_length driver w reply use_range_requests range_start in
    let sized =
      with_worker
        (λ w. record w { total_size = response_total w use_range_requests response_length }) r in
    after_stream context attempt (expected_length w) retry_count
      (stream_response context.access context.speeds context.store use_range_requests range_start
        reply sized.transfer)
      sized

-- What is done with a response that is neither an error nor tried again, from its validation.
abbrev pub validated : Result (Unit {0}) → Run × Round → Run × Round → Run × Round
validated (err e) refused accepted = refused
validated (ok _) refused accepted = accepted

abbrev pub classified : Option Error → Run → Run × Round → Run × Round
classified (some e) r otherwise = (r, return (err e))
classified none r otherwise = otherwise

-- A response: errors that end the loop, those that are tried again, and what the driver refuses.
unfoldable pub response_round : Context → Attempt → ℕ → Bool → Bool → Reply → ℕ → Run → Run × Round
unfolding stream_round retry_round classify_terminal_http_error should_retry_http_status
    validate_response driver_for_kind record_resume_hit
response_round context attempt range_start use_range_requests is_resume_attempt reply retry_count
      r =
    let w = worker_of r in
    let driver = driver_for_kind w.source.kind in
    let retry = λ (text : String) (delay : Option ℕ).
      retry_round context retry_count (http_error w.id reply.status text) delay r in
    let accepted =
      stream_round context attempt range_start use_range_requests reply retry_count
        (resume_hit is_resume_attempt r) in
    classified (classify_terminal_http_error w.id reply.status) r (
      if should_retry_http_status reply.status
      then retry "retryable HTTP status" reply.retry_after
      else validated (validate_response driver w reply use_range_requests range_start)
          (retry "protocol error" none) accepted)

abbrev pub resume_attempted : Bool → Run → Run
resume_attempted false r = r
resume_attempted true r = record r {
  transfer = record r.transfer { stats = record_resume_attempt r.transfer.stats };
}

-- What `build_request` and `send` give.
abbrev pub requested :
    Result (Option (ℕ × ℕ)) → Sent → (Error → Run × Round) → (Reply → Run × Round) → ℕ → Run × Round
requested (err e) sent retry response id = retry e
requested (ok range) (unsent text) retry response id = retry (network_error id text)
requested (ok range) (answered reply) retry response id = response reply

-- The request and its response.
unfoldable pub request_round : Context → Attempt → ℕ → Run → Run × Round
unfolding response_round retry_round build_request driver_for_kind record_resume_attempt
request_round context attempt retry_count r =
    let w = worker_of r in
    let use_range_requests = w.length_known && context.supports_range_requests in
    let range_start = saturating_add_u64 w.start w.downloaded_size in
    let is_resume_attempt = use_range_requests && ltb w.start range_start in
    let counted = resume_attempted is_resume_attempt r in
    requested
      (build_request (driver_for_kind w.source.kind) attempt.applied range_start use_range_requests
        w)
      attempt.sent (λ e. retry_round context retry_count e none counted)
      (λ reply.
        response_round context attempt range_start use_range_requests is_resume_attempt reply
          retry_count counted)
      w.id

-- How a round goes on from its check.
abbrev pub round_from : Flow → Run → Run × Round → Run × Round
round_from stop checked rest = (checked, return (ok tt))
round_from waiting checked rest = (checked, still_paused)
round_from proceed checked rest = rest

unfoldable pub round : Context → Attempt → ℕ → Run → Run × Round
unfolding request_round checkpoint
round context attempt retry_count r =
    let (w, flow) = checkpoint attempt.point (worker_of r) in
    let checked = with_worker (λ _. w) r in
    round_from flow checked (request_round context attempt retry_count checked)
