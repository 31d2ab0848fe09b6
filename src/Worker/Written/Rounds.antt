-- ===== src/Worker/Written/Rounds.antt =====
-- The rounds of src/worker/runtime.rs over range requests: the files hold what the worker counts.
use paradown.Prelude.{
  ℕ, ◌+◌, ◌≤◌, Bool, true, false, ◌≡◌, refl, ◌∙◌, sym, ap, Option, some, none, arith, if◌then◌else◌,
}
use paradown.Failure.{Error, Result, ok, err, http_error}
use paradown.Payload.{FileMap}
use paradown.Probe.{ContentRange, required_range}
use paradown.Worker.{expected_length}
use paradown.Worker.Driver.{
  Streaming, Reply, stream_response, validate_response, driver_for_kind, resolve_content_length,
}
use paradown.Worker.Round.{
  Context, Attempt, Run, Round, worker_of, with_worker, Sent, answered, unsent, response_round,
  stream_round, retry_round, response_total, resume_hit, resume_attempted, validated, classified,
  classify_terminal_http_error, should_retry_http_status,
}
use paradown.Worker.Written.{Tiled, ServesChunks, OnDisk, OnDisk-Keeps, Keeps}
use paradown.Worker.Written.Loops.{stream_response-Kept}
use paradown.Worker.Written.Steps.{
  Keeps-refl, retry_round-Keeps, after_stream-Keeps, validate_response-range,
}

-- A partial response holds bytes of the payload from where its Content-Range says, and no more than
-- that range.
abbrev pub IsHonest : (ℕ → ℕ) → Reply → Type 0
IsHonest payload reply =
    (range : ContentRange)
    → reply.status ≡ 206
    → required_range reply.content_range ≡ ok range
    → ServesChunks payload (range.end + 1) range.start reply.chunks

abbrev pub HonestSent : (ℕ → ℕ) → Sent → Type 0
HonestSent payload (answered reply) = IsHonest payload reply
HonestSent payload (unsent text) = Unit

module _ (context : Context) (store : FileMap) (payload : ℕ → ℕ) (first last : ℕ)
    (stored : context.store ≡ ok store) (access : context.access ≡ (λ _. ok tt))
    (tiled : Tiled store) (fits : last + 1 ≤ store.total_size) where
  abbrev pub Kept : Run → Type 0
  Kept r = OnDisk store payload first (last + 1) r.transfer

  pub Kept-Keeps : (a b : Run) → Keeps a.transfer b.transfer → Kept a → Kept b
  Kept-Keeps a b = OnDisk-Keeps store payload first (last + 1) a.transfer b.transfer

  stream_round-Kept :
      (attempt : Attempt) (offset : ℕ) (reply : Reply) (n : ℕ) (r : Run)
      → Kept r
      → offset ≡ first + (worker_of r).downloaded_size
      → ServesChunks payload (last + 1) offset reply.chunks
      → Kept (stream_round context attempt offset true reply n r).0
  unfolding stream_round
  stream_round-Kept attempt offset reply n r h at serves =
      let w = worker_of r in
      let length = resolve_content_length (driver_for_kind w.source.kind) w reply true offset in
      let sized : Run =
        with_worker (λ w. record w { total_size = response_total w true length }) r in
      let streaming : Streaming = record {
        store = store;
        access = context.access;
        speeds = context.speeds;
      } in
      let sized_h : Kept sized =
        Kept-Keeps r sized
          (record {
            length_known = refl;
            start = refl;
            end = refl;
            downloaded_size = refl;
            disk = refl;
          })
          h in
      let k =
        stream_response-Kept streaming payload first (last + 1) tiled access fits reply offset
          sized.transfer (sized_h, at) serves in
      let streamed =
        stream_response context.access context.speeds (ok store) true offset reply sized.transfer in
      rw stored (
        OnDisk-Keeps store payload first (last + 1) streamed.0 _
          (after_stream-Keeps context attempt (expected_length w) n streamed.0 streamed.1 sized) k)

  resume_hit-Keeps : (b : Bool) (r : Run) → Keeps r.transfer (resume_hit b r).transfer
  resume_hit-Keeps false r = Keeps-refl r.transfer
  resume_hit-Keeps true r = record {
    length_known = refl;
    start = refl;
    end = refl;
    downloaded_size = refl;
    disk = refl;
  }

  pub resume_attempted-Keeps :
      (b : Bool) (r : Run) → Keeps r.transfer (resume_attempted b r).transfer
  resume_attempted-Keeps false r = Keeps-refl r.transfer
  resume_attempted-Keeps true r = record {
    length_known = refl;
    start = refl;
    end = refl;
    downloaded_size = refl;
    disk = refl;
  }

  pub retry_round-Kept :
      (n : ℕ) (e : Error) (explicit : Option ℕ) (r : Run)
      → Kept r
      → Kept (retry_round context n e explicit r).0
  retry_round-Kept n e explicit r =
      Kept-Keeps r (retry_round context n e explicit r).0 (retry_round-Keeps context n e explicit r)

  pub response_round-Kept :
      (attempt : Attempt) (offset : ℕ) (resumes : Bool) (reply : Reply) (n : ℕ) (r : Run)
      → Kept r
      → offset ≡ first + (worker_of r).downloaded_size
      → IsHonest payload reply
      → Kept (response_round context attempt offset true resumes reply n r).0
  unfolding response_round
  response_round-Kept attempt offset resumes reply n r h at honest =
      let w = worker_of r in
      let status_error = http_error w.id reply.status "retryable HTTP status" in
      let refused_error = http_error w.id reply.status "protocol error" in
      let later = retry_round context n status_error reply.retry_after r in
      let refused = retry_round context n refused_error none r in
      let taken = stream_round context attempt offset true reply n (resume_hit resumes r) in
      let driver = driver_for_kind w.source.kind in
      let result = validate_response driver w reply true offset in
      by_class (classify_terminal_http_error w.id reply.status)
        (if should_retry_http_status reply.status then later else validated result refused taken)
        (by_status later (validated result refused taken) (should_retry_http_status reply.status)
          (retry_round-Kept n status_error reply.retry_after r h)
          (by_validation refused taken result (retry_round-Kept n refused_error none r h) (λ e.
            let range = validate_response-range driver w reply offset e in
            let hit = resume_hit-Keeps resumes r in
            stream_round-Kept attempt offset reply n (resume_hit resumes r)
              (Kept-Keeps r (resume_hit resumes r) hit h)
              (at ∙ ap (λ d. first + d) (sym hit.downloaded_size))
              (serves range.0 range.3 (range.4 ∙ ends) (honest range.0 range.2 range.1)))))
    where
      ends : (worker_of r).end ≡ last
      ends = omega (arith, h.end)

      serves :
          (range : ContentRange)
          → range.start ≡ offset
          → range.end ≡ last
          → ServesChunks payload (range.end + 1) range.start reply.chunks
          → ServesChunks payload (last + 1) offset reply.chunks
      serves range s e c = rw (sym s, sym e) c

      by_validation :
          (a b : Run × Round) (result : Result (Unit {0}))
          → Kept a.0
          → (result ≡ ok tt → Kept b.0)
          → Kept (validated result a b).0
      by_validation a b (err e) h k = h
      by_validation a b (ok _) h k = k refl

      by_status :
          (a b : Run × Round) (test : Bool) → Kept a.0 → Kept b.0 → Kept (if test then a else b).0
      by_status a b true h k = h
      by_status a b false h k = k

      by_class :
          (class : Option Error) (otherwise : Run × Round)
          → Kept otherwise.0
          → Kept (classified class r otherwise).0
      by_class none otherwise k = k
      by_class (some e) otherwise k = h
