-- ===== src/Storage/Workers.antt =====
-- src/storage/mapping.rs: the row of a worker of a running task.
use paradown.Prelude.{ℕ, Option, some}
use paradown.Status.{to_string}
use paradown.Planner.{ExecutionLaneAssignment}
use paradown.Job.{Worker}
use paradown.Storage.{DbDownloadWorker}

-- A worker with its lane, which `lane_snapshot` gives, and the time of its last change.
pub record LiveWorker : Type 0 where
  pub worker : Worker
  pub lane : ExecutionLaneAssignment
  pub updated_at : Option ℕ

-- `task_id` is the id of the task that `worker.task` upgrades to.
unfoldable pub worker_to_db : ℕ → LiveWorker → DbDownloadWorker
unfolding to_string
worker_to_db task_id live = record {
  id = live.worker.id;
  task_id = task_id;
  index = live.worker.id;
  source_id = some live.worker.source_id;
  piece_start = some live.lane.piece_start;
  piece_end = some live.lane.piece_end;
  block_start = some live.lane.block_start;
  block_end = some live.lane.block_end;
  start = live.worker.start;
  end = live.worker.end;
  downloaded = live.worker.downloaded_size;
  status = to_string live.worker.status;
  updated_at = live.updated_at;
}
