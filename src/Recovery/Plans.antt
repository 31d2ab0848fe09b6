-- ===== src/Recovery/Plans.antt =====
-- The plan that src/recovery.rs makes for a stored task.
use paradown.Prelude.{
  ℕ, ◌+◌, ◌-◌, ◌≤◌, ◌<◌, String, Bool, true, false, ◌&&◌, ◌≡◌, refl, ap, ◌∙◌, ◌⊎◌, inl, inr, Option,
  some, none, List, [], ◌∷◌, arith, if◌then◌else◌, unwrap_or, is_empty, All, Tiles-le, u64_mod,
}
use paradown.Domain.Source.{SourceSet}
use paradown.Status.{Status}
use paradown.Requests.{TaskRequest, SegmentRequest}
use paradown.Storage.{StoredBundle}
use paradown.Storage.Mapping.{
  Decoders, normalized_text_field, db_task_to_request, db_workers_to_requests,
  db_blocks_to_block_states,
}
use paradown.Recovery.{
  RestorePlan, RestoreFileState, FileSystem, restore_plan, build_restore_plan,
  inspect_restore_file_state, checked_status, checked_pieces, with_progress, is_completed,
  is_paused, normalize_restored_status, is_usable_for_completed, sum_downloaded,
  sanitize_worker_requests, known_source_ids, has_restorable_piece_state, final_status,
}
use paradown.Recovery.Workers.{WorkerTiles, IsRestorable, sanitize_worker_requests_lem}

abbrev pub is_active : Status → Bool
is_active Status.running = true
is_active Status.preparing = true
is_active _ = false

abbrev pub restored_status : RestorePlan → Status
restored_status plan = unwrap_or plan.task_request.status Status.pending

normalize-active : (s : Status) → is_active (normalize_restored_status s) ≡ false
unfolding normalize_restored_status
normalize-active Status.running = refl
normalize-active Status.preparing = refl
normalize-active Status.pending = refl
normalize-active Status.paused = refl
normalize-active Status.completed = refl
normalize-active Status.canceled = refl
normalize-active (Status.failed e) = refl
normalize-active Status.deleted = refl

with_progress-status :
    (file : RestoreFileState) (ws : List SegmentRequest) (request : TaskRequest)
    → (with_progress file ws request).status ≡ request.status
unfolding with_progress
with_progress-status file ws request = ground arith

checked_status_lem :
    (file : RestoreFileState) (request : TaskRequest)
    → (is_active (checked_status file request) ≡ false)
      × (is_completed (checked_status file request) ≡ true
          → is_usable_for_completed file request.total_size ≡ true)
unfolding checked_status
checked_status_lem file request =
    let status = normalize_restored_status (unwrap_or request.status Status.pending) in
    (ground (arith, normalize-active (unwrap_or request.status Status.pending)), λ h. ground arith)

-- The status that the workers leave, and the workers.
final_status_lem :
    (s : Status) (file_exists restorable : Bool) (sanitized : List SegmentRequest)
    → is_active s ≡ false
    → let ws = if is_paused s && file_exists then sanitized else [] in
      (is_active (final_status s ws restorable) ≡ false)
      × (is_completed (final_status s ws restorable) ≡ true → is_completed s ≡ true)
      × (((if is_empty ws then none else some ws) ≡ none)
          ⊎ ((is_paused (final_status s ws restorable) ≡ true) × (file_exists ≡ true)))
final_status_lem s file_exists restorable sanitized h =
    (ground arith, λ k. ground arith, ground arith)

either_way :
    (a b c : Bool) → (a ≡ true → b ≡ true) → (b ≡ true → c ≡ true) → (a ≡ false) ⊎ (c ≡ true)
either_way true b c f g = inr (g (f refl))
either_way false b c f g = inl refl

-- A restored task is not running or preparing; it is completed only if its file has the known,
-- positive size of the payload; and workers are restored only for a paused task whose file
-- exists.
pub restore_plan-status :
    (file : RestoreFileState) (task_id : ℕ) (request : TaskRequest) (workers : List SegmentRequest)
    → let plan = restore_plan file task_id request workers in
      (is_active (restored_status plan) ≡ false)
      × ((is_completed (restored_status plan) ≡ false)
          ⊎ (is_usable_for_completed file request.total_size ≡ true))
      × ((plan.workers ≡ none) ⊎ ((is_paused (restored_status plan) ≡ true) × (file.exists ≡ true)))
unfolding restore_plan
restore_plan-status file task_id request workers =
    let c = checked_status_lem file request in
    let request' = checked_pieces file request in
    let f =
      final_status_lem (checked_status file request) file.exists
        (has_restorable_piece_state request')
        (sanitize_worker_requests task_id request'.total_size request'.sources workers) c.0 in
    rw (with_progress-status file _ _) (f.0, either_way _ _ _ f.1 c.1, f.2)

with_progress_missing :
    (file : RestoreFileState) (request : TaskRequest)
    → file.exists ≡ false
    → let r = with_progress file [] request in
      (r.downloaded_size ≡ some 0)
      × (r.piece_states ≡ some [])
      × (r.block_states ≡ request.block_states)
unfolding with_progress
with_progress_missing file request h = (ground arith, ground arith, ground arith)

checked_pieces-rest :
    (file : RestoreFileState) (request : TaskRequest)
    → ((checked_pieces file request).block_states ≡ request.block_states)
      × ((checked_pieces file request).total_size ≡ request.total_size)
      × ((checked_pieces file request).sources ≡ request.sources)
unfolding checked_pieces
checked_pieces-rest file request = (ground arith, ground arith, ground arith)

no_workers :
    (paused exists : Bool) (ws : List SegmentRequest)
    → exists ≡ false
    → (if paused && exists then ws else []) ≡ []
no_workers paused exists ws h = ground arith

restore_plan_missing_file :
    (file : RestoreFileState) (task_id : ℕ) (request : TaskRequest) (workers : List SegmentRequest)
    → file.exists ≡ false
    → let plan = restore_plan file task_id request workers in
      (plan.workers ≡ none)
      × (plan.task_request.downloaded_size ≡ some 0)
      × (plan.task_request.piece_states ≡ some [])
      × (plan.task_request.block_states ≡ request.block_states)
unfolding restore_plan
restore_plan_missing_file file task_id request workers h =
    let request' = checked_pieces file request in
    let none_left =
      no_workers (is_paused (checked_status file request)) file.exists
        (sanitize_worker_requests task_id request'.total_size request'.sources workers) h in
    let status =
      final_status (checked_status file request) [] (has_restorable_piece_state request') in
    let m = with_progress_missing file (record request' { status = some status }) h in
    rw none_left (refl, m.0, m.1, m.2 ∙ (checked_pieces-rest file request).0)

-- Whatever was stored: if the file is gone, no worker and no piece is restored and nothing counts
-- as downloaded, but the stored block states are all kept.
pub build_restore_plan_missing_file :
    (decoders : Decoders) (files : FileSystem) (bundle : StoredBundle)
    → (inspect_restore_file_state files (normalized_text_field bundle.task.file_path)).exists
      ≡ false
    → let plan = build_restore_plan decoders files bundle in
      (plan.workers ≡ none)
      × (plan.task_request.downloaded_size ≡ some 0)
      × (plan.task_request.piece_states ≡ some [])
      × (plan.task_request.block_states ≡ some (db_blocks_to_block_states bundle.blocks))
unfolding build_restore_plan db_task_to_request
build_restore_plan_missing_file decoders files bundle h =
    restore_plan_missing_file _ bundle.task.id
      (db_task_to_request decoders bundle.task bundle.pieces bundle.blocks bundle.checksums)
      (db_workers_to_requests bundle.workers) h

nonempty : (ws : List SegmentRequest) → ws ≡ [] → is_empty ws ≡ false → ⊥
nonempty [] e k = ground arith
nonempty (w ∷ ws) e k = ground arith

kept_tiles :
    (task_id total : ℕ) (sources : Option SourceSet) (workers ws : List SegmentRequest)
    → 0 < total
    → total < u64_mod
    → ws ≡ sanitize_worker_requests task_id (some total) sources workers
    → is_empty ws ≡ false
    → WorkerTiles 0 ws total × All (IsRestorable task_id (known_source_ids sources)) ws
kept_tiles task_id total sources workers ws h0 ht e k =
    elim (sanitize_worker_requests_lem task_id total sources workers h0 ht) [
      | inl empty ↦ absurd (nonempty ws (e ∙ empty) k)
      | inr t ↦ rw e t
    ]

-- The kept workers have not downloaded more than their ranges hold.
sum_downloaded-le :
    (a b task_id : ℕ) (known : List String) (ws : List SegmentRequest)
    → b < u64_mod
    → WorkerTiles a ws b
    → All (IsRestorable task_id known) ws
    → sum_downloaded ws ≤ b - a
sum_downloaded-le a b task_id known [] hb t h = omega arith
sum_downloaded-le a b task_id known (w ∷ ws) hb t h =
    let le =
      Tiles-le (λ (w : SegmentRequest). w.start) (λ (w : SegmentRequest). w.end + 1) (w.end + 1) b
        ws t.2 in
    let here = h.0.progress in
    omega (arith, sum_downloaded-le (w.end + 1) b task_id known ws hb t.2 h.1)

chosen_workers :
    (paused exists : Bool) (sanitized ws : List SegmentRequest)
    → let chosen = if paused && exists then sanitized else [] in
      (if is_empty chosen then none else some chosen) ≡ some ws
      → (ws ≡ sanitized) × (exists ≡ true) × (is_empty ws ≡ false) × (chosen ≡ ws)
chosen_workers paused exists sanitized ws h =
    (ground arith, ground arith, ground arith, ground arith)

with_progress_workers :
    (file : RestoreFileState) (ws : List SegmentRequest) (request : TaskRequest) (total : ℕ)
    → file.exists ≡ true
    → is_empty ws ≡ false
    → 0 < total
    → request.total_size ≡ some total
    → ((with_progress file ws request).downloaded_size ≡ some (sum_downloaded ws))
      × ((with_progress file ws request).total_size ≡ some total)
unfolding with_progress
with_progress_workers file ws request total h k h0 e = (ground arith, ground arith)

-- With restored workers of a payload of known, positive size that fits into 64 bits: their ranges
-- tile the payload, the downloaded size of the task is the sum of theirs, which is at most the
-- payload size, and the size of the payload is kept.
pub restore_plan-downloaded :
    (file : RestoreFileState) (task_id total : ℕ) (request : TaskRequest)
    (workers ws : List SegmentRequest)
    → 0 < total
    → total < u64_mod
    → request.total_size ≡ some total
    → (restore_plan file task_id request workers).workers ≡ some ws
    → let restored = (restore_plan file task_id request workers).task_request in
      WorkerTiles 0 ws total
      × (restored.downloaded_size ≡ some (sum_downloaded ws))
      × (sum_downloaded ws ≤ total)
      × (restored.total_size ≡ some total)
unfolding restore_plan
restore_plan-downloaded file task_id total request workers ws h0 ht e h =
    let request' = checked_pieces file request in
    let rest = checked_pieces-rest file request in
    let sanitized = sanitize_worker_requests task_id request'.total_size request'.sources workers in
    let c = chosen_workers (is_paused (checked_status file request)) file.exists sanitized ws h in
    let tiles =
      kept_tiles task_id total request'.sources workers ws h0 ht
        (c.0 ∙ ap (λ t. sanitize_worker_requests task_id t request'.sources workers) (rest.1 ∙ e))
        c.2 in
    let status =
      final_status (checked_status file request) ws (has_restorable_piece_state request') in
    let p =
      with_progress_workers file ws (record request' { status = some status }) total c.1 c.2 h0
        (rest.1 ∙ e) in
    (
      tiles.0,
      rw c.3 p.0,
      omega (arith, sum_downloaded-le 0 total task_id _ ws ht tiles.0 tiles.1),
      rw c.3 p.1,
    )
