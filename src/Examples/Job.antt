-- ===== src/Examples/Job.antt =====
-- src/job at the manifest of ten bytes.
use paradown.Prelude.{
  ℕ, ◌+◌, ◌≤◌, ◌<◌, ◌≡◌, ◌≢◌, ◌⊎◌, ◌||◌, refl, true, false, Bool, some, none, List, [], ◌∷◌, arith,
  All, any, filter, sort_by, insert_sorted,
}
use paradown.Failure.{ok, err, other}
use paradown.Status.{Status}
use paradown.Domain.Http.{HttpResourceIdentity}
use paradown.Domain.Spec.{https}
use paradown.Domain.Source.{
  SourceDescriptor, SourceSet, from_spec, active_transfer_sources, can_transfer_payload, primary,
}
use paradown.Piece.{
  BlockState, block_completed, derive_piece_states_from_blocks, initialize_block_states,
  plan_piece_layouts, plan_piece_blocks, piece_loop, block_loop, blocks_of_piece, blocks_of_pieces,
}
use paradown.Piece.Layout.{block_to}
use paradown.Piece.Progress.{Aligned}
use paradown.Manifest.{
  for_files_with_piece_size, for_single_file_with_piece_size, used_piece_size, used_block_size,
}
use paradown.Planner.{ExecutionLaneAssignment}
use paradown.Job.{Worker, Task, known_block_states, sync_with, block_state_layout_matches}
use paradown.Job.Lanes.{in_lane, seeded_downloaded_from_block_states, new_worker}
use paradown.Job.Progress.{worker_covers, sync_with-block_completed, sync_with_unknown_length}
use paradown.Job.Resume.{
  seeded_downloaded_lem, prepared_without_file, prepared_without_file-block_states,
}
use paradown.Job.Prepare.{
  OriginMetadata, overwrite, resume, LocalFile, StoreAnswers, handle_existing_file,
}
use paradown.Job.Prepare.Outcomes.{Outcome, handle_existing_file-Outcome}
use paradown.Job.Sources.{
  SourceRuntime, no_transfers, record_source_failure, ranked_transfer_sources, select_retry_source,
  compare_ranks,
}
use paradown.Job.Sources.Retry.{failures, select_retry_source_lem}
use paradown.Examples.Planner.{ten_bytes, ten_bytes-IsWellFormed}

abbrev unknown_resource : HttpResourceIdentity
unknown_resource = record { resolved_url = none; entity_tag = none; last_modified = none }

abbrev origin : SourceDescriptor
origin = from_spec (https "https://example.com/a.bin") none

abbrev worker : Bool → ℕ → Worker
worker known downloaded = record {
  id = 0;
  source_id = "origin";
  length_known = known;
  start = 0;
  end = 9;
  downloaded_size = downloaded;
  status = Status.running;
}

abbrev task : List BlockState → List Worker → Task
task states workers = record {
  status = Status.preparing;
  http_resource_identity = unknown_resource;
  sources = ten_bytes.sources;
  manifest = some ten_bytes;
  piece_states = [];
  block_states = states;
  workers = workers;
  total_size = 10;
  downloaded_size = 0;
  range_requests_supported = true;
  protocol_probe_completed = true;
  total_size_known = true;
}

sync_with-block_completed_example :
    let t = task [] (worker true 5 ∷ []) in
    let synced = (sync_with ten_bytes t).0 in
    All
      (λ b.
        block_completed synced.block_states b
        ≡ block_completed (known_block_states ten_bytes t) b
          || any (worker_covers b) (worker true 5 ∷ []))
      ten_bytes.blocks
    × Aligned synced.block_states ten_bytes.blocks
    × (synced.piece_states
        ≡ derive_piece_states_from_blocks ten_bytes.pieces ten_bytes.blocks synced.block_states)
    × (synced.downloaded_size ≤ ten_bytes.total_size)
    × (synced.downloaded_size ≡ (sync_with ten_bytes t).1)
unfolding for_single_file_with_piece_size for_files_with_piece_size
sync_with-block_completed_example =
    sync_with-block_completed ten_bytes (task [] (worker true 5 ∷ [])) ten_bytes-IsWellFormed refl

sync_with_unknown_length_example :
    ((sync_with ten_bytes (task [] (worker false 5 ∷ []))).0.downloaded_size ≡ 0)
    × ((sync_with ten_bytes (task [] (worker false 5 ∷ []))).1 ≡ 0)
sync_with_unknown_length_example =
    sync_with_unknown_length ten_bytes (task [] (worker false 5 ∷ [])) (refl, tt)

-- All five blocks are completed.
abbrev block : ℕ → ℕ → BlockState
block piece index = record { piece_index = piece; block_index = index; completed = true }

abbrev completed_blocks : List BlockState
completed_blocks = block 0 0 ∷ block 0 1 ∷ block 1 0 ∷ block 1 1 ∷ block 2 0 ∷ []

abbrev lane : ExecutionLaneAssignment
lane = record {
  lane_id = 0;
  source_id = "origin";
  length_known = true;
  piece_start = 0;
  piece_end = 2;
  block_start = 0;
  block_end = 0;
  start = 0;
  end = 9;
}

seeded_downloaded_lem_example :
    let d = seeded_downloaded_from_block_states ten_bytes completed_blocks lane in
    (0 + d ≤ 10)
    × All
        (λ b. (0 + d < block_to b) ⊎ (block_completed completed_blocks b ≡ true))
        (filter (in_lane lane) ten_bytes.blocks)
unfolding for_single_file_with_piece_size for_files_with_piece_size plan_piece_layouts
    plan_piece_blocks piece_loop block_loop blocks_of_piece blocks_of_pieces used_piece_size
    used_block_size
seeded_downloaded_lem_example =
    seeded_downloaded_lem ten_bytes completed_blocks lane (omega arith) (omega arith)

abbrev probe : OriginMetadata
probe = record {
  total_size = some 10;
  supports_range_requests = true;
  resource_identity = unknown_resource;
}

abbrev store : StoreAnswers
store = record { workers_purged = ok tt; saved_checksums = ok tt; saved_task = ok tt }

prepared_without_file-block_states_example :
    let prepared =
      prepared_without_file resume store probe unknown_resource ten_bytes
        (task completed_blocks []) in
    (prepared.block_states ≡ completed_blocks)
    × ((new_worker ten_bytes prepared.block_states origin lane).downloaded_size ≡ 10)
unfolding for_single_file_with_piece_size for_files_with_piece_size plan_piece_layouts
    plan_piece_blocks piece_loop block_loop blocks_of_piece blocks_of_pieces used_piece_size
    used_block_size block_completed block_state_layout_matches initialize_block_states
prepared_without_file-block_states_example =
    prepared_without_file-block_states resume store probe unknown_resource ten_bytes
      (task completed_blocks []) origin lane refl refl refl refl (omega arith) (omega arith)
      (omega arith) refl

-- The file is removed, and the progress reset; then the store fails to delete the workers.
abbrev local_file : LocalFile
local_file = record { size = 4; removed = ok tt; synced = ok tt }

abbrev failing_store : StoreAnswers
failing_store = record store { workers_purged = err (other "database is locked") }

handle_existing_file-Outcome_example :
    let t = task completed_blocks (worker true 5 ∷ []) in
    let r =
      handle_existing_file overwrite failing_store
        (some (ok local_file))
        probe
        unknown_resource
        false
        (ok false)
        t in
    Outcome overwrite failing_store local_file probe unknown_resource (ok false) t r.0 r.1
handle_existing_file-Outcome_example =
    handle_existing_file-Outcome overwrite failing_store local_file probe unknown_resource false
      (ok false) (task completed_blocks (worker true 5 ∷ []))

-- Two sources; the first has failed once.
abbrev mirror : SourceDescriptor
mirror = from_spec (https "https://mirror.example.com/a.bin") none

abbrev two_sources : SourceSet
two_sources = record { primary_id = some origin.id; sources = origin ∷ mirror ∷ [] }

abbrev runtime : SourceRuntime
runtime = record_source_failure origin.id (λ _. no_transfers)

select_retry_source_lem_example :
    (0 < (runtime origin.id).consecutive_failures)
    × (mirror.id ≢ origin.id)
    × (can_transfer_payload mirror ≡ true)
    × All
        (λ other. (other.id ≡ origin.id) ⊎ (failures runtime mirror ≤ failures runtime other))
        (active_transfer_sources two_sources)
unfolding select_retry_source ranked_transfer_sources compare_ranks record_source_failure sort_by
    insert_sorted active_transfer_sources can_transfer_payload from_spec primary
select_retry_source_lem_example = select_retry_source_lem two_sources runtime origin.id mirror refl
