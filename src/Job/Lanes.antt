-- ===== src/Job/Lanes.antt =====
-- src/job/workers.rs: the workers of a task, planned from its manifest.
use paradown.Prelude.{
  ℕ, ◌-◌, String, Bool, true, false, not, ◌&&◌, some, none, List, [], ◌∷◌, min, leb, ◌==◌, str_eq,
  if◌then◌else◌, is_empty, filter, saturating_add_u64,
}
use paradown.Failure.{other, Result, ok, err, ◌>>=◌, ok_or}
use paradown.Status.{Status}
use paradown.Domain.Source.{SourceDescriptor, SourceSet, get}
use paradown.Piece.{PieceBlock, BlockState, block_completed}
use paradown.Manifest.{SessionManifest}
use paradown.Planner.{ExecutionLaneAssignment, plan_execution_lanes_with_source_order}
use paradown.Job.{Worker, Task}

-- The blocks that the two `filter` calls keep: those that lie in the lane.
abbrev pub in_lane : ExecutionLaneAssignment → PieceBlock → Bool
in_lane lane block =
    leb lane.start block.offset && leb (saturating_add_u64 block.offset block.length - 1) lane.end

-- The loop over these blocks, with its `break`.
unfoldable pub seed_loop : List BlockState → List PieceBlock → ℕ → ℕ
unfolding block_completed
seed_loop states [] downloaded = downloaded
seed_loop states (block ∷ blocks) downloaded =
    let rest = seed_loop states blocks (saturating_add_u64 downloaded block.length) in
    if block_completed states block then rest else downloaded

abbrev pub lane_length : ExecutionLaneAssignment → ℕ
lane_length lane = saturating_add_u64 (lane.end - lane.start) 1

unfoldable pub seeded_downloaded_from_block_states :
    SessionManifest → List BlockState → ExecutionLaneAssignment → ℕ
unfolding seed_loop
seeded_downloaded_from_block_states manifest states lane =
    min (seed_loop states (filter (in_lane lane) manifest.blocks) 0) (lane_length lane)

unfoldable pub plan_lanes : ℕ → List String → Task → Result (List ExecutionLaneAssignment)
plan_lanes segments_per_task preferred task = elim task.manifest [
  | none ↦ err (other "manifest not initialized")
  | some manifest ↦ ok (
      plan_execution_lanes_with_source_order manifest
        (if task.range_requests_supported then segments_per_task else 1)
        task.range_requests_supported preferred)
]

abbrev pub matches_assignment : Worker → ExecutionLaneAssignment → Bool
matches_assignment worker lane =
    worker.id == lane.lane_id
    && worker.start == lane.start
    && worker.end == lane.end
    && str_eq worker.source_id lane.source_id
    && leb worker.downloaded_size (lane_length lane)

-- The length test and the loop over the pairs.
unfoldable pub all_match : List Worker → List ExecutionLaneAssignment → Bool
all_match [] [] = true
all_match (w ∷ ws) (l ∷ ls) = matches_assignment w l && all_match ws ls
all_match [] (l ∷ ls) = false
all_match (w ∷ ws) [] = false

unfoldable pub can_reuse_existing_workers : ℕ → List String → Task → Bool
unfolding plan_lanes all_match
can_reuse_existing_workers segments preferred task = elim (plan_lanes segments preferred task) [
  | err e ↦ false
  | ok lanes ↦ all_match task.workers lanes
]

-- Worker::new in `create_workers`.
unfoldable pub new_worker :
    SessionManifest → List BlockState → SourceDescriptor → ExecutionLaneAssignment → Worker
unfolding seeded_downloaded_from_block_states
new_worker manifest states source lane = record {
  id = lane.lane_id;
  source_id = source.id;
  length_known = lane.length_known;
  start = lane.start;
  end = lane.end;
  downloaded_size = seeded_downloaded_from_block_states manifest states lane;
  status = Status.pending;
}

-- `for assignment in assignments`. Saving a worker in the store is left out.
unfoldable pub create_loop :
    SessionManifest
    → List BlockState
    → SourceSet
    → List ExecutionLaneAssignment
    → Result (List Worker)
unfolding new_worker
create_loop manifest states sources [] = ok []
create_loop manifest states sources (lane ∷ lanes) =
    ok_or (get sources lane.source_id) (other "source not found while building execution lanes")
    >>= λ source. create_loop manifest states sources lanes >>= λ rest.
        ok (new_worker manifest states source lane ∷ rest)

unfoldable pub create_workers : ℕ → List String → Task → Result (List Worker)
unfolding create_loop plan_lanes
create_workers segments preferred task = elim task.manifest [
  | none ↦ err (other "manifest not initialized")
  | some manifest ↦ plan_lanes segments preferred task >>= λ lanes.
      create_loop manifest task.block_states task.sources lanes
]

unfoldable pub ensure_workers : ℕ → List String → Task → Task × Result (List Worker)
unfolding can_reuse_existing_workers create_workers
ensure_workers segments preferred task =
    let cleared = record task { workers = [] } in
    if not (is_empty task.workers) && can_reuse_existing_workers segments preferred task
    then (task, ok task.workers)
    else elim (create_workers segments preferred cleared) [
      | err e ↦ (cleared, err e)
      | ok workers ↦ (record cleared { workers = workers }, ok workers)
    ]
