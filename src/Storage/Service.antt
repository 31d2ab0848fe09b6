-- ===== src/Storage/Service.antt =====
-- src/storage/mod.rs: the store, over any repository.
use paradown.Prelude.{ℕ, List, [], ◌∷◌, map}
use paradown.Failure.{Result, ok, ◌>>=◌}
use paradown.Checksum.{Checksum}
use paradown.Piece.{PieceState, BlockState}
use paradown.Storage.{DbDownloadTask, StoredBundle}
use paradown.Storage.Mapping.{checksum_to_db, piece_states_to_db, block_states_to_db}
use paradown.Storage.Workers.{LiveWorker, worker_to_db}
use paradown.Storage.Contract.{Call, Repository, chain, for_each}

-- What `save_task` reads of a task. `row` is what `task_to_db` gives; its id is the task's.
pub record SavedTask : Type 0 where
  pub row : DbDownloadTask
  pub workers : List LiveWorker
  pub piece_states : List PieceState
  pub block_states : List BlockState
  pub checksums : List Checksum

unfoldable pub bundle_of : SavedTask → StoredBundle
unfolding worker_to_db piece_states_to_db block_states_to_db checksum_to_db
bundle_of task = record {
  task = task.row;
  workers = map (worker_to_db task.row.id) task.workers;
  pieces = piece_states_to_db task.row.id task.piece_states;
  blocks = block_states_to_db task.row.id task.block_states;
  checksums = map (λ checksum. checksum_to_db checksum task.row.id) task.checksums;
}

module _ {ℓ} {S : Type ℓ} (repository : Repository S) where
  unfoldable pub save_task : SavedTask → Call S
  unfolding bundle_of
  save_task task = repository.save_bundle (bundle_of task)

  unfoldable pub save_tasks : List SavedTask → Call S
  unfolding for_each save_task
  save_tasks = for_each save_task

  unfoldable pub delete_task : ℕ → Call S
  delete_task task_id s = chain (repository.operations.delete_task task_id s) λ s.
      chain (repository.operations.delete_pieces task_id s)
        λ s. repository.operations.delete_blocks task_id s

  -- The bundle of a task that was loaded.
  unfoldable pub load_bundle : DbDownloadTask → S → Result StoredBundle
  load_bundle task s = repository.operations.load_workers task.id s >>= λ workers.
      repository.operations.load_pieces task.id s >>= λ pieces.
      repository.operations.load_blocks task.id s >>= λ blocks.
      repository.operations.load_checksums task.id s >>= λ checksums. ok (record {
        task = task;
        workers = workers;
        pieces = pieces;
        blocks = blocks;
        checksums = checksums;
      })

  unfoldable pub load_bundles : List DbDownloadTask → S → Result (List StoredBundle)
  unfolding load_bundle
  load_bundles [] s = ok []
  load_bundles (task ∷ tasks) s =
      load_bundle task s >>= λ bundle. load_bundles tasks s >>= λ bundles. ok (bundle ∷ bundles)

  unfoldable pub load_task_bundles : S → Result (List StoredBundle)
  unfolding load_bundles
  load_task_bundles s = repository.operations.load_tasks s >>= λ tasks. load_bundles tasks s

  -- A worker comes with the id of its task.
  unfoldable pub save_worker : ℕ → LiveWorker → Call S
  unfolding worker_to_db
  save_worker task_id worker = repository.operations.save_worker (worker_to_db task_id worker)

  unfoldable pub save_workers : ℕ → List LiveWorker → Call S
  unfolding for_each save_worker
  save_workers task_id = for_each (save_worker task_id)

  unfoldable pub save_piece_states : ℕ → List PieceState → Call S
  unfolding piece_states_to_db
  save_piece_states task_id states =
      repository.operations.save_pieces task_id (piece_states_to_db task_id states)

  unfoldable pub save_block_states : ℕ → List BlockState → Call S
  unfolding block_states_to_db
  save_block_states task_id states =
      repository.operations.save_blocks task_id (block_states_to_db task_id states)

  unfoldable pub save_checksums : List Checksum → ℕ → Call S
  unfolding for_each checksum_to_db
  save_checksums checksums task_id =
      for_each (λ checksum. repository.operations.save_checksum (checksum_to_db checksum task_id))
        checksums
