-- ===== src/Recovery/Workers.antt =====
-- The workers that src/recovery.rs keeps: all of them, in order and over the whole payload, or
-- none.
use paradown.Prelude.{
  ℕ, ◌+◌, ◌-◌, ◌≤◌, ◌<◌, String, Bool, true, false, not, ◌&&◌, ◌||◌, ◌≡◌, refl, sym, subst, ◌⊎◌,
  inl, inr, Option, some, none, List, [], ◌∷◌, arith, ltb, ◌==◌, str_eq, unwrap_or, or_else,
  is_empty, All, Bool-cases, Option-cases, Tiles, u64_mod, min,
}
use paradown.Domain.Source.{SourceSet}
use paradown.Requests.{SegmentRequest}
use paradown.Recovery.{
  sanitize_worker, sanitize_loop, push_kept, sanitize_worker_requests, checked_end,
  normalize_worker_status, expected_length, contains, known_source_ids, only_element,
}

abbrev pub WorkerTiles : ℕ → List SegmentRequest → ℕ → Type 0
WorkerTiles = Tiles (λ (w : SegmentRequest). w.start) (λ (w : SegmentRequest). w.end + 1)

-- The source of a kept worker is one of the known ones, if any are known.
abbrev pub HasKnownSource : List String → SegmentRequest → Type 0
HasKnownSource known w =
    (id : String) × (w.source_id ≡ some id) × ((known ≡ []) ⊎ (contains id known ≡ true))

-- The stored names of statuses that a worker has after a restart.
abbrev pub is_idle_name : Option String → Bool
is_idle_name none = false
is_idle_name (some s) = not (str_eq s "Running" || str_eq s "Preparing" || str_eq s "Deleted")

-- What a kept worker is.
pub record IsRestorable (task_id : ℕ) (known : List String) (w : SegmentRequest) : Type 0 where
  pub task : w.task_id ≡ task_id
  pub progress : unwrap_or w.downloaded 0 ≤ w.end + 1 - w.start
  pub source : HasKnownSource known w
  pub idle : is_idle_name w.status ≡ true

normalize_worker_status-idle : (s : Option String) → is_idle_name (normalize_worker_status s) ≡ true
unfolding normalize_worker_status
normalize_worker_status-idle none = refl
normalize_worker_status-idle (some s) = ground arith

-- What the tests of one round say of a worker that passes.
abbrev Passes : ℕ → ℕ → List String → ℕ → SegmentRequest → SegmentRequest → Type 0
Passes task_id total known expected w kept =
    (w.task_id ≡ task_id)
    × (w.start ≡ expected)
    × (w.start ≤ w.end)
    × (w.end < total)
    × (unwrap_or w.downloaded 0 ≤ expected_length w)
    × ((id : String) × (kept
          ≡ record w { source_id = some id; status = normalize_worker_status w.status })
        × ((known ≡ []) ⊎ (contains id known ≡ true)))

known_or :
    (id : String) (known : List String)
    → not (is_empty known) && not (contains id known) ≡ false
    → (known ≡ []) ⊎ (contains id known ≡ true)
known_or id [] h = inl refl
known_or id (k ∷ ks) h = inr (ground arith)

sanitize_worker-Passes :
    (task_id total : ℕ) (known : List String) (seen : List ℕ) (expected : ℕ)
    (w kept : SegmentRequest)
    → 0 < total
    → sanitize_worker task_id (some total) known seen expected w ≡ some kept
    → Passes task_id total known expected w kept
unfolding sanitize_worker
sanitize_worker-Passes task_id total known seen expected w kept h0 h =
    elim (Option-cases (or_else w.source_id (only_element known))) [
      | inl e ↦ ground arith
      | inr (id, e) ↦ (
        ground arith,
        ground arith,
        ground arith,
        ground arith,
        ground arith,
        (id, ground arith, known_or id known (ground arith)),
      )
    ]

IsRestorable-kept :
    (task_id total : ℕ) (known : List String) (expected : ℕ) (w kept : SegmentRequest)
    → total < u64_mod
    → Passes task_id total known expected w kept
    → IsRestorable task_id known kept
unfolding expected_length
IsRestorable-kept task_id total known expected w kept ht (t, s, le, below, fits, known_source) =
    let (id, e, k) = known_source in
    rw e (record {
      task = t;
      progress = omega arith;
      source = (id, refl, k);
      idle = normalize_worker_status-idle w.status;
    })

abbrev Loop : ℕ → List String → ℕ → Option (List SegmentRequest × ℕ) → Type 0
Loop task_id known expected none = Unit
Loop task_id known expected (some (kept, last_end)) =
    WorkerTiles expected kept last_end × All (IsRestorable task_id known) kept

Loop-cons :
    (task_id total : ℕ) (known : List String) (expected : ℕ) (w kept : SegmentRequest)
    (rest : Option (List SegmentRequest × ℕ))
    → total < u64_mod
    → Passes task_id total known expected w kept
    → Loop task_id known (w.end + 1) rest
    → Loop task_id known expected (push_kept (some kept) rest)
Loop-cons task_id total known expected w kept none ht p r = tt
Loop-cons task_id total known expected w kept (some (ks, e)) ht p r =
    let same : kept.end ≡ w.end = ground arith in
    (
      (ground arith, ground arith, rw same r.0),
      (IsRestorable-kept task_id total known expected w kept ht p, r.1),
    )

sanitize_loop-Loop :
    (task_id total : ℕ) (known : List String) (seen : List ℕ) (expected : ℕ)
    (workers : List SegmentRequest)
    → 0 < total
    → total < u64_mod
    → Loop task_id known expected (sanitize_loop task_id (some total) known seen expected workers)
unfolding sanitize_loop
sanitize_loop-Loop task_id total known seen expected [] h0 ht = (refl, tt)
sanitize_loop-Loop task_id total known seen expected (w ∷ ws) h0 ht =
    elim (Option-cases (sanitize_worker task_id (some total) known seen expected w)) [
      | inl e ↦
          subst
            (λ o. Loop task_id known expected (push_kept o (rest (min (w.end + 1) (u64_mod - 1)))))
            (sym e) tt
      | inr (kept, e) ↦
          let p = sanitize_worker-Passes task_id total known seen expected w kept h0 e in
          let below = p.3 in
          let fits : min (w.end + 1) (u64_mod - 1) ≡ w.end + 1 = omega arith in
          subst
            (λ o. Loop task_id known expected (push_kept o (rest (min (w.end + 1) (u64_mod - 1)))))
            (sym e)
            (Loop-cons task_id total known expected w kept _ ht p (
              rw fits
                (sanitize_loop-Loop task_id total known (w.index ∷ seen) (w.end + 1) ws h0 ht)))
    ]
  where
    rest : ℕ → Option (List SegmentRequest × ℕ)
    rest next = sanitize_loop task_id (some total) known (w.index ∷ seen) next ws

checked_end-Loop :
    (task_id total : ℕ) (known : List String) (r : Option (List SegmentRequest × ℕ))
    → 0 < total
    → Loop task_id known 0 r
    → let kept = checked_end (some total) r in
      (kept ≡ []) ⊎ (WorkerTiles 0 kept total × All (IsRestorable task_id known) kept)
checked_end-Loop task_id total known none h0 l = inl refl
checked_end-Loop task_id total known (some (kept, last_end)) h0 l =
    elim (Bool-cases (last_end == total)) [
      | inl e ↦
          let same : last_end ≡ total = ground arith in
          let go_on : (ltb 0 total && not (last_end == total)) ≡ false = ground arith in
          rw go_on (inr (rw same at l.0, l.1))
      | inr e ↦
          let stop : (ltb 0 total && not (last_end == total)) ≡ true = ground arith in
          rw stop (inl refl)
    ]

-- For a payload of known, positive size that fits into 64 bits: either no worker is kept, or the
-- ranges of the kept workers tile the payload. Each kept worker then is one of the task, has not
-- downloaded more than its range, names a source of the task (if the task knows any), and is not
-- running, preparing or deleted.
pub sanitize_worker_requests_lem :
    (task_id total : ℕ) (sources : Option SourceSet) (workers : List SegmentRequest)
    → 0 < total
    → total < u64_mod
    → let kept = sanitize_worker_requests task_id (some total) sources workers in
      (kept ≡ [])
      ⊎ (WorkerTiles 0 kept total × All (IsRestorable task_id (known_source_ids sources)) kept)
unfolding sanitize_worker_requests
sanitize_worker_requests_lem task_id total sources workers h0 ht =
    checked_end-Loop task_id total (known_source_ids sources) _ h0
      (sanitize_loop-Loop task_id total (known_source_ids sources) [] 0 _ h0 ht)
