-- ===== src/Recovery.antt =====
-- src/recovery.rs: what becomes of a stored task when the program starts again. The file system is
-- a parameter: whether there is something at a path, and its length where that can be read.
pub mod Workers
pub mod Kept
pub mod Plans
use paradown.Prelude.{
  ℕ, zero, suc, ◌+◌, ◌-◌, String, Bool, true, false, not, ◌&&◌, ◌||◌, Option, some, none, List, [],
  ◌∷◌, map, max, ltb, leb, ◌==◌, str_eq, if◌then◌else◌, is_some, unwrap_or, or_else, any, is_empty,
  filter, length, sort_by, add_u64, saturating_add_u64, u64_mod,
}
use paradown.Status.{Status}
use paradown.Piece.{PieceState, BlockState}
use paradown.Domain.Source.{SourceSet, SourceDescriptor}
use paradown.Requests.{TaskRequest, SegmentRequest}
use paradown.Storage.{StoredBundle}
use paradown.Text.{trim, is_empty_text}
use paradown.Storage.Mapping.{Decoders, db_task_to_request, db_workers_to_requests}

pub record RestorePlan : Type 0 where
  pub task_request : TaskRequest
  pub workers : Option (List SegmentRequest)

pub record RestoreFileState : Type 0 where
  pub exists : Bool
  pub size : Option ℕ

abbrev pub FileSystem : Type 0
FileSystem = String → RestoreFileState

abbrev pub no_file : RestoreFileState
no_file = record { exists = false; size = none }

unfoldable pub inspect_restore_file_state : FileSystem → Option String → RestoreFileState
unfolding trim
inspect_restore_file_state files none = no_file
inspect_restore_file_state files (some path) =
    if is_empty_text (trim path)
    then no_file
    else if (files path).exists
    then files path
    else no_file

-- The inner `match` on (size, total_size).
abbrev pub sizes_agree : Option ℕ → Option ℕ → Bool
sizes_agree (some size) (some total) = ltb 0 total && size == total
sizes_agree (some size) none = false
sizes_agree none total = false

unfoldable pub is_usable_for_completed : RestoreFileState → Option ℕ → Bool
is_usable_for_completed state total_size = state.exists && sizes_agree state.size total_size

-- Option::is_some_and
abbrev pub is_some_and {ℓ} : {A : Type ℓ} → Option A → (A → Bool) → Bool
is_some_and none test = false
is_some_and (some a) test = test a

unfoldable pub has_restorable_piece_state : TaskRequest → Bool
has_restorable_piece_state request =
    is_some_and request.piece_states (any (λ (piece : PieceState). piece.completed))
    || is_some_and request.block_states (any (λ (block : BlockState). block.completed))

unfoldable pub normalize_restored_status : Status → Status
normalize_restored_status Status.running = Status.paused
normalize_restored_status Status.preparing = Status.paused
normalize_restored_status status = status

unfoldable pub normalize_worker_status : Option String → Option String
normalize_worker_status none = some "Pending"
normalize_worker_status (some status) =
    if str_eq status "Running" || str_eq status "Preparing"
    then some "Paused"
    else if str_eq status "Deleted"
    then some "Pending"
    else some status

-- HashSet<String>: the elements, each once.
abbrev pub contains : String → List String → Bool
contains id = any (λ known. str_eq known id)

abbrev pub collect_set : List String → List String
collect_set [] = []
collect_set (id ∷ ids) = let rest = collect_set ids in if contains id rest then rest else id ∷ rest

unfoldable pub known_source_ids : Option SourceSet → List String
known_source_ids none = []
known_source_ids (some set) =
    collect_set (map (λ (source : SourceDescriptor). source.id) set.sources)

abbrev pub only_element : List String → Option String
only_element (id ∷ []) = some id
only_element _ = none

-- `if let Some(total_size) = total_size && total_size > 0 && test(total_size)`.
abbrev pub has_total_and : Option ℕ → (ℕ → Bool) → Bool
has_total_and none test = false
has_total_and (some total) test = ltb 0 total && test total

unfoldable pub expected_length : SegmentRequest → ℕ
expected_length worker = saturating_add_u64 (worker.end - worker.start) 1

abbrev count_present : List Bool → ℕ
count_present [] = 0
count_present (b ∷ bs) = (if b then 1 else 0) + count_present bs

unfoldable pub lane_metadata_count : SegmentRequest → ℕ
lane_metadata_count worker = count_present (
    is_some worker.piece_start
    ∷ is_some worker.piece_end
    ∷ is_some worker.block_start
    ∷ is_some worker.block_end
    ∷ [])

abbrev pub invalid_ranges : Option ℕ → Option ℕ → Option ℕ → Option ℕ → Bool
invalid_ranges (some ps) (some pe) (some bs) (some be) = ltb pe ps || ltb be bs
invalid_ranges _ _ _ _ = false

-- The round of the loop for one worker: `none` is the early return of no workers.
unfoldable pub sanitize_worker :
    ℕ → Option ℕ → List String → List ℕ → ℕ → SegmentRequest → Option SegmentRequest
unfolding expected_length lane_metadata_count normalize_worker_status
sanitize_worker task_id total_size known_sources seen expected_start worker =
    if not (worker.task_id == task_id)
    then none
    else if any (λ index. index == worker.index) seen
    then none
    else if ltb worker.end worker.start
    then none
    else if ltb (expected_length worker) (unwrap_or worker.downloaded 0)
    then none
    else if has_total_and total_size (λ total. leb total worker.end)
    then none
    else if not (worker.start == expected_start)
    then none
    else elim (or_else worker.source_id (only_element known_sources)) [
      | none ↦ none
      | some source_id ↦
          if not (is_empty known_sources) && not (contains source_id known_sources)
          then none
          else if not (lane_metadata_count worker == 0) && not (lane_metadata_count worker == 4)
          then none
          else if invalid_ranges worker.piece_start worker.piece_end worker.block_start
              worker.block_end
          then none
          else some (record worker {
            source_id = some source_id;
            status = normalize_worker_status worker.status;
          })
    ]

-- sanitized.push(worker), unless a round returned early.
abbrev pub push_kept :
    Option SegmentRequest → Option (List SegmentRequest × ℕ) → Option (List SegmentRequest × ℕ)
push_kept none rest = none
push_kept (some kept) none = none
push_kept (some kept) (some (sanitized, last_end)) = some (kept ∷ sanitized, last_end)

-- `for mut worker in workers`: the workers that are kept, and the final `expected_start`.
unfoldable pub sanitize_loop :
    ℕ → Option ℕ → List String → List ℕ → ℕ → List SegmentRequest → Option (List SegmentRequest × ℕ)
unfolding sanitize_worker
sanitize_loop task_id total_size known_sources seen expected_start [] = some ([], expected_start)
sanitize_loop task_id total_size known_sources seen expected_start (worker ∷ workers) =
    let rest =
      sanitize_loop task_id total_size known_sources (worker.index ∷ seen)
        (saturating_add_u64 worker.end 1) workers in
    push_kept (sanitize_worker task_id total_size known_sources seen expected_start worker) rest

abbrev pub checked_end : Option ℕ → Option (List SegmentRequest × ℕ) → List SegmentRequest
checked_end total_size none = []
checked_end total_size (some (sanitized, last_end)) =
    if has_total_and total_size (λ total. not (last_end == total)) then [] else sanitized

unfoldable pub sanitize_worker_requests :
    ℕ → Option ℕ → Option SourceSet → List SegmentRequest → List SegmentRequest
unfolding sanitize_loop known_source_ids sort_by
sanitize_worker_requests task_id total_size source_set workers = checked_end total_size (
    sanitize_loop task_id total_size (known_source_ids source_set) [] 0
      (sort_by (λ (left right : SegmentRequest). ltb right.index left.index) workers))

-- Iterator::sum of u64, and Iterator::max.
abbrev pub sum_downloaded : List SegmentRequest → ℕ
sum_downloaded [] = 0
sum_downloaded (worker ∷ workers) = add_u64 (unwrap_or worker.downloaded 0) (sum_downloaded workers)

abbrev pub max_end : List SegmentRequest → Option ℕ
max_end [] = none
max_end (worker ∷ workers) =
    some (max (saturating_add_u64 worker.end 1) (unwrap_or (max_end workers) 0))

abbrev pub is_completed : Status → Bool
is_completed Status.completed = true
is_completed _ = false

abbrev pub is_paused : Status → Bool
is_paused Status.paused = true
is_paused _ = false

-- The status before the workers are looked at: a completed task without its file starts anew.
unfoldable pub checked_status : RestoreFileState → TaskRequest → Status
unfolding normalize_restored_status is_usable_for_completed
checked_status file request =
    let restored = normalize_restored_status (unwrap_or request.status Status.pending) in
    if is_completed restored && not (is_usable_for_completed file request.total_size)
    then Status.pending
    else restored

-- The same `if`, for the pieces.
unfoldable pub checked_pieces : RestoreFileState → TaskRequest → TaskRequest
unfolding normalize_restored_status is_usable_for_completed
checked_pieces file request =
    let restored = normalize_restored_status (unwrap_or request.status Status.pending) in
    if is_completed restored && not (is_usable_for_completed file request.total_size)
    then record request { piece_states = some [] }
    else request

-- The size of the payload: the stored one, unless that is missing or 0.
abbrev pub known_size : List SegmentRequest → Option ℕ → Option ℕ
known_size sanitized none = max_end sanitized
known_size sanitized (some total) = if total == 0 then max_end sanitized else some total

-- The last part: sizes, and the pieces of a file that is gone.
unfoldable pub with_progress : RestoreFileState → List SegmentRequest → TaskRequest → TaskRequest
unfolding has_restorable_piece_state
with_progress file sanitized request =
    if not file.exists then record sized { piece_states = some [] } else sized
  where
    sized : TaskRequest
    sized =
        if not (is_empty sanitized)
        then record request {
          downloaded_size = some (sum_downloaded sanitized);
          total_size = known_size sanitized request.total_size;
        }
        else if not file.exists
            || not (is_completed (unwrap_or request.status Status.pending))
              && not (has_restorable_piece_state request)
        then record request { downloaded_size = some 0 }
        else request

-- A paused task of which nothing can be restored starts anew.
abbrev pub final_status : Status → List SegmentRequest → Bool → Status
final_status status sanitized restorable =
    if is_paused status && is_empty sanitized && not restorable then Status.pending else status

-- `build_restore_plan` from the request on.
unfoldable pub restore_plan : RestoreFileState → ℕ → TaskRequest → List SegmentRequest → RestorePlan
unfolding checked_status checked_pieces with_progress has_restorable_piece_state
    sanitize_worker_requests
restore_plan file task_id request worker_requests = record {
  task_request = with_progress file sanitized (record request' {
    status = some (final_status status sanitized (has_restorable_piece_state request'));
  });
  workers = if is_empty sanitized then none else some sanitized;
}
  where
    status : Status
    status = checked_status file request

    request' : TaskRequest
    request' = checked_pieces file request

    sanitized : List SegmentRequest
    sanitized =
        if is_paused status && file.exists
        then sanitize_worker_requests task_id request'.total_size request'.sources worker_requests
        else []

unfoldable pub build_restore_plan : Decoders → FileSystem → StoredBundle → RestorePlan
unfolding restore_plan db_task_to_request db_workers_to_requests inspect_restore_file_state
build_restore_plan decoders files bundle =
    restore_plan (inspect_restore_file_state files request.file_path) bundle.task.id request
      (db_workers_to_requests bundle.workers)
  where
    request : TaskRequest
    request = db_task_to_request decoders bundle.task bundle.pieces bundle.blocks bundle.checksums
