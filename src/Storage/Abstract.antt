-- ===== src/Storage/Abstract.antt =====
-- What src/storage/mod.rs promises: a store that keeps, for every task, the rows that were saved last.
use Prim.Native.String.{compare as str_compare}
use paradown.Prelude.{ℕ, Option, some, none, List, [], ◌∷◌, ltb, ◌==◌, if◌then◌else◌, sort_by}
use paradown.Planner.{is_gt}
use paradown.Storage.{
  DbDownloadTask, DbDownloadWorker, DbDownloadPiece, DbDownloadBlock, DbDownloadChecksum,
  StoredBundle,
}
use paradown.Storage.Mapping.{key_after}
use paradown.Storage.Contract.{Call, Repository}
use paradown.Storage.Service.{SavedTask, bundle_of, save_task, delete_task}

-- What an abstract store holds of a task: nothing, or its rows in their order.
pub record Rows : Type 0 where
  pub task : Option DbDownloadTask
  pub workers : List DbDownloadWorker
  pub pieces : List DbDownloadPiece
  pub blocks : List DbDownloadBlock
  pub checksums : List DbDownloadChecksum

abbrev pub no_rows : Rows
no_rows = record { task = none; workers = []; pieces = []; blocks = []; checksums = [] }

-- The rows of a bundle, in the orders that they are loaded in.
unfoldable pub sorted_rows : StoredBundle → Rows
unfolding sort_by
sorted_rows b = record {
  task = some b.task;
  workers = sort_by (λ (left right : DbDownloadWorker). ltb right.index left.index) b.workers;
  pieces =
      sort_by (λ (left right : DbDownloadPiece). ltb right.piece_index left.piece_index) b.pieces;
  blocks =
      sort_by
        (λ (left right : DbDownloadBlock).
          key_after left.piece_index left.block_index right.piece_index right.block_index)
        b.blocks;
  checksums =
      sort_by
        (λ (left right : DbDownloadChecksum). is_gt (str_compare left.algorithm right.algorithm))
        b.checksums;
}

-- The calls by which the manager changes the store: saving a task with its rows, and deleting it.
pub data Command : Type 0 where
  save : SavedTask → Command
  delete : ℕ → Command

-- The abstract store, from task ids to rows.
unfoldable pub apply : Command → (ℕ → Rows) → ℕ → Rows
unfolding sorted_rows bundle_of
apply (save task) rows id = if id == task.row.id then sorted_rows (bundle_of task) else rows id
apply (delete task_id) rows id = if id == task_id then no_rows else rows id

unfoldable pub apply_all : List Command → (ℕ → Rows) → ℕ → Rows
unfolding apply
apply_all [] rows = rows
apply_all (c ∷ cs) rows = apply_all cs (apply c rows)

-- The same calls of the store over a repository. A call that fails does not stop the next one; the
-- result is that of the last.
module _ {ℓ} {S : Type ℓ} (repository : Repository S) where
  unfoldable pub run : Command → Call S
  unfolding save_task delete_task
  run (save task) = save_task repository task
  run (delete task_id) = delete_task repository task_id

  unfoldable pub run_all : List Command → S → S
  unfolding run
  run_all [] s = s
  run_all (c ∷ cs) s = run_all cs (run c s).0
