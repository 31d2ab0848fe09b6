-- ===== src/Worker/Written/Steps.antt =====
-- The parts of a round of src/worker/runtime.rs that leave the progress and the files as they are.
use paradown.Prelude.{
  ℕ, true, ◌&&◌, ◌≡◌, refl, ◌∙◌, Option, some, none, arith, if◌then◌else◌, Bool-cases, inl, inr,
  ◌==◌, ltb,
}
use paradown.Failure.{Error, Result, ok, err, ◌>>=◌, >>=-eq-ok}
use paradown.Probe.{ContentRange, required_range}
use paradown.Worker.{WorkerState, should_stop_gracefully, apply_calls}
use paradown.Worker.Driver.{
  Transfer, Reply, Driver, http_driver, ftp_driver, validate_response, check_range, flush,
}
use paradown.Worker.Round.{
  Context, Attempt, Run, worker_of, with_worker, after_stream, finish_round, retry_round,
  retry_or_fail_with_delay, note_failure, is_resume_invalidated, retried, length_checked,
  validate_downloaded_length,
}
use paradown.Worker.Checks.{apply_calls-Same}
use paradown.Worker.Retry.{next_retry_delay}
use paradown.Worker.Written.{Same-Keeps, Keeps}

pub Keeps-refl : (t : Transfer) → Keeps t t
Keeps-refl t = record {
  length_known = refl;
  start = refl;
  end = refl;
  downloaded_size = refl;
  disk = refl;
}

pub Keeps-trans : (a b c : Transfer) → Keeps a b → Keeps b c → Keeps a c
Keeps-trans a b c h k = record {
  length_known = k.length_known ∙ h.length_known;
  start = k.start ∙ h.start;
  end = k.end ∙ h.end;
  downloaded_size = k.downloaded_size ∙ h.downloaded_size;
  disk = k.disk ∙ h.disk;
}

pub retried-Keeps :
    (delay explicit : Option ℕ) (n : ℕ) (e : Error) (noted : Run)
    → Keeps noted.transfer (retried delay explicit n e noted).0.transfer
retried-Keeps none explicit n e noted = Keeps-refl noted.transfer
retried-Keeps (some delay) explicit n e noted = record {
  length_known = refl;
  start = refl;
  end = refl;
  downloaded_size = refl;
  disk = refl;
}

pub note_failure-Keeps :
    (context : Context) (r : Run) → Keeps r.transfer (note_failure context.sources r).transfer
unfolding note_failure
note_failure-Keeps context r = ground arith

pub retry_round-Keeps :
    (context : Context) (n : ℕ) (e : Error) (explicit : Option ℕ) (r : Run)
    → Keeps r.transfer (retry_round context n e explicit r).0.transfer
unfolding retry_round retry_or_fail_with_delay
retry_round-Keeps context n e explicit r =
    let noted = note_failure context.sources r in
    elim (Bool-cases (is_resume_invalidated e)) [
      | inl k ↦ rw k (note_failure-Keeps context r)
      | inr k ↦ rw k (
          Keeps-trans r.transfer noted.transfer _ (note_failure-Keeps context r)
            (retried-Keeps (next_retry_delay context.retry n) explicit n e noted))
    ]

pub length_checked-Keeps :
    (result : Result (Unit {0})) (t : Transfer) (flushed sized : Run)
    → Keeps t flushed.transfer
    → Keeps t sized.transfer
    → Keeps t (length_checked result flushed sized).0.transfer
length_checked-Keeps (err e) t flushed sized h k = h
length_checked-Keeps (ok _) t flushed sized h k = k

pub finish_round-Keeps :
    (expected now : ℕ) (r : Run) → Keeps r.transfer (finish_round expected now r).0.transfer
unfolding finish_round flush
finish_round-Keeps expected now r =
    let flushed : Run = record r { transfer = flush now r.transfer } in
    let w = worker_of flushed in
    let measured : Run =
      record (with_worker (λ w. record w { total_size = w.downloaded_size }) flushed) {
        stream_total = some w.downloaded_size;
      } in
    let sized : Run = if w.length_known then flushed else measured in
    let kept : Keeps r.transfer flushed.transfer = record {
      length_known = refl;
      start = refl;
      end = refl;
      downloaded_size = refl;
      disk = refl;
    } in
    let sized_kept : Keeps r.transfer sized.transfer = ground arith in
    length_checked-Keeps (validate_downloaded_length w w.downloaded_size expected) r.transfer
      flushed sized kept sized_kept

pub after_stream-Keeps :
    (context : Context) (attempt : Attempt) (expected n : ℕ) (t : Transfer)
    (result : Option (Result (Unit {0}))) (r : Run)
    → Keeps t (after_stream context attempt expected n (t, result) r).0.transfer
after_stream-Keeps context attempt expected n t none r = Keeps-refl t
after_stream-Keeps context attempt expected n t (some (err e)) r =
    retry_round-Keeps context n e none (record r { transfer = t })
after_stream-Keeps context attempt expected n t (some (ok _)) r =
    let called : Run = with_worker (apply_calls attempt.calls) (record r { transfer = t }) in
    let h : Keeps t called.transfer =
      Same-Keeps t (apply_calls attempt.calls t.worker) (apply_calls-Same attempt.calls t.worker) in
    elim (Bool-cases (should_stop_gracefully (worker_of called))) [
      | inl k ↦ rw k h
      | inr k ↦
          rw k (Keeps-trans t called.transfer _ h (finish_round-Keeps expected attempt.now called))
    ]

-- A partial response that is accepted names the range that was asked for.
pub validate_response-range :
    (driver : Driver) (w : WorkerState) (reply : Reply) (expected_start : ℕ)
    → validate_response driver w reply true expected_start ≡ ok tt
    → (range : ContentRange) × (required_range reply.content_range ≡ ok range)
      × (reply.status ≡ 206)
      × (range.start ≡ expected_start)
      × (range.end ≡ w.end)
unfolding validate_response
validate_response-range ftp_driver w reply expected_start h = ground arith
validate_response-range http_driver w reply expected_start h =
    elim (Bool-cases (ltb w.start expected_start && (reply.status == 200))) [
      | inl k ↦ absurd (ground arith)
      | inr k ↦ elim (Bool-cases (reply.status == 206)) [
        | inr l ↦ absurd (ground arith)
        | inl l ↦
            let checked : (required_range reply.content_range >>= check_range w expected_start)
                ≡ ok tt =
              ground arith in
            let r =
              >>=-eq-ok (required_range reply.content_range) (check_range w expected_start) tt
                checked in
            let bounds : (r.0.start ≡ expected_start) × (r.0.end ≡ w.end) = ground (arith, r.2) in
            (r.0, r.1, ground arith, bounds.0, bounds.1)
      ]
    ]
