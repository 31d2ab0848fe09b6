-- ===== src/Examples/Recovery.antt =====
-- src/recovery.rs at a paused task of 100 bytes with two workers, as in its unit tests.
use paradown.Prelude.{
  ℕ, ◌≤◌, ◌≡◌, ◌⊎◌, refl, true, false, String, some, none, List, [], ◌∷◌, arith, All, sort_by,
  insert_sorted,
}
use paradown.Status.{Status}
use paradown.Domain.Spec.{https, invalid}
use paradown.Requests.{TaskRequest, SegmentRequest, task_request}
use paradown.Storage.{StoredBundle}
use paradown.Storage.Mapping.{Decoders, db_blocks_to_block_states, normalized_text_field}
use paradown.Text.{trim, trim_start, trim_end}
use paradown.Recovery.{
  RestoreFileState, FileSystem, restore_plan, build_restore_plan, sanitize_worker_requests,
  sanitize_loop, sanitize_worker, known_source_ids, is_completed, is_paused,
  is_usable_for_completed, checked_status, checked_pieces, normalize_restored_status,
  normalize_worker_status, expected_length, lane_metadata_count, inspect_restore_file_state,
  no_file,
}
use paradown.Recovery.Workers.{WorkerTiles, IsRestorable, sanitize_worker_requests_lem}
use paradown.Recovery.Plans.{
  is_active, restored_status, restore_plan-status, restore_plan-downloaded,
  build_restore_plan_missing_file,
}

abbrev worker : ℕ → ℕ → ℕ → ℕ → String → SegmentRequest
worker index start end downloaded status = record {
  id = none;
  task_id = 2;
  index = index;
  source_id = some "origin";
  piece_start = none;
  piece_end = none;
  block_start = none;
  block_end = none;
  start = start;
  end = end;
  downloaded = some downloaded;
  status = some status;
  updated_at = none;
}

abbrev workers : List SegmentRequest
workers = worker 1 50 99 10 "Running" ∷ worker 0 0 49 50 "Completed" ∷ []

abbrev kept : List SegmentRequest
kept = worker 0 0 49 50 "Completed" ∷ worker 1 50 99 10 "Paused" ∷ []

-- They are sorted, and the running one is paused.
kept_workers : sanitize_worker_requests 2 (some 100) none workers ≡ kept
unfolding sanitize_worker_requests sanitize_loop sanitize_worker known_source_ids expected_length
    lane_metadata_count normalize_worker_status sort_by insert_sorted
kept_workers = refl

sanitize_worker_requests_lem_example :
    let ws = sanitize_worker_requests 2 (some 100) none workers in
    (ws ≡ []) ⊎ (WorkerTiles 0 ws 100 × All (IsRestorable 2 (known_source_ids none)) ws)
sanitize_worker_requests_lem_example =
    sanitize_worker_requests_lem 2 100 none workers (omega arith) (omega arith)

abbrev request : TaskRequest
request = record (task_request (https "https://example.com/a.iso")) {
  status = some Status.running;
  total_size = some 100;
}

abbrev file : RestoreFileState
file = record { exists = true; size = some 100 }

restore_plan-status_example :
    let plan = restore_plan file 2 request workers in
    (is_active (restored_status plan) ≡ false)
    × ((is_completed (restored_status plan) ≡ false)
        ⊎ (is_usable_for_completed file request.total_size ≡ true))
    × ((plan.workers ≡ none) ⊎ ((is_paused (restored_status plan) ≡ true) × (file.exists ≡ true)))
restore_plan-status_example = restore_plan-status file 2 request workers

restore_plan-downloaded_example :
    let restored = (restore_plan file 2 request workers).task_request in
    WorkerTiles 0 kept 100
    × (restored.downloaded_size ≡ some 60)
    × (60 ≤ 100)
    × (restored.total_size ≡ some 100)
unfolding restore_plan checked_status checked_pieces normalize_restored_status
    is_usable_for_completed sanitize_worker_requests sanitize_loop sanitize_worker known_source_ids
    expected_length lane_metadata_count normalize_worker_status sort_by insert_sorted task_request
restore_plan-downloaded_example =
    restore_plan-downloaded file 2 100 request workers kept (omega arith) (omega arith) refl refl

abbrev pub decoders : Decoders
decoders = record {
  url_parse = λ _. invalid "";
  spec_from_json = λ _. none;
  source_set_from_json = λ _. none;
  torrent_state_from_json = λ _. none;
  torrent_metadata_from_json = λ _. none;
}

-- A completed task whose only block is completed, and whose file was removed.
abbrev pub bundle : StoredBundle
bundle = record {
  task = record {
    id = 2;
    url = "https://example.com/a.iso";
    spec_json = "";
    source_set_json = "";
    resolved_url = "";
    entity_tag = "";
    last_modified = "";
    file_name = "a.iso";
    file_path = "/a.iso";
    status = "Completed";
    downloaded_size = 100;
    total_size = some 100;
    torrent_backend = none;
    torrent_external_id = none;
    torrent_state_json = none;
    torrent_metadata_json = none;
    torrent_resume_data = none;
    created_at = none;
    updated_at = none;
  };
  workers = [];
  pieces = [];
  blocks =
      record { task_id = 2; piece_index = 0; block_index = 0; completed = true; updated_at = none }
      ∷ [];
  checksums = [];
}

abbrev pub no_files : FileSystem
no_files _ = no_file

build_restore_plan_missing_file_example :
    let plan = build_restore_plan decoders no_files bundle in
    (plan.workers ≡ none)
    × (plan.task_request.downloaded_size ≡ some 0)
    × (plan.task_request.piece_states ≡ some [])
    × (plan.task_request.block_states ≡ some (db_blocks_to_block_states bundle.blocks))
unfolding inspect_restore_file_state normalized_text_field trim trim_start trim_end
build_restore_plan_missing_file_example =
    build_restore_plan_missing_file decoders no_files bundle refl
