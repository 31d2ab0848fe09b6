-- ===== src/Repository/Workers.antt =====
-- What deleting a task does to the rows of src/repository/memory.rs, and the numbers that workers
-- are stored under.
use paradown.Prelude.{
  ℕ, ◌%◌, ◌^◌, not, ◌≡◌, ◌↔◌, List, [], ◌∷◌, arith, ◌==◌, if◌then◌else◌, filter, sort_by,
}
use paradown.Storage.{DbDownloadWorker, DbDownloadPiece, DbDownloadBlock, DbDownloadChecksum}
use paradown.Repository.{
  MemoryRepository, retain, values, load_workers, load_pieces, load_blocks, load_checksums,
  delete_task, worker_storage_id,
}

module _ {ℓ κ} {K : Type ℓ} {V : Type κ} (task_of : V → ℕ) where
  filter-retain :
      (id other : ℕ) (es : List (K × V))
      → filter (λ v. task_of v == other) (values (retain (λ k v. not (task_of v == id)) es))
        ≡ (if id == other then [] else filter (λ v. task_of v == other) (values es))
  unfolding retain values
  filter-retain id other [] = ground arith
  filter-retain id other ((k, v) ∷ es) = ground (arith, filter-retain id other es)

-- After a task was deleted it has no workers, pieces, blocks and checksums, and every other task
-- has those that it had.
pub delete_task-load :
    (id other : ℕ) (r : MemoryRepository)
    → let after = delete_task id r in
      (load_workers other after ≡ (if id == other then [] else load_workers other r))
      × (load_pieces other after ≡ (if id == other then [] else load_pieces other r))
      × (load_blocks other after ≡ (if id == other then [] else load_blocks other r))
      × (load_checksums other after ≡ (if id == other then [] else load_checksums other r))
unfolding delete_task load_workers load_pieces load_blocks load_checksums sort_by
delete_task-load id other r =
    rw
      (
        filter-retain (λ (w : DbDownloadWorker). w.task_id) id other r.workers,
        filter-retain (λ (p : DbDownloadPiece). p.task_id) id other r.pieces,
        filter-retain (λ (b : DbDownloadBlock). b.task_id) id other r.blocks,
        filter-retain (λ (c : DbDownloadChecksum). c.task_id) id other r.checksums,
      )
      (ground arith, ground arith, ground arith, ground arith)

-- Two workers get one number exactly when their tasks and their indices agree modulo 65536: the
-- number tells workers apart only for task ids and indices below that.
pub worker_storage_id_lem :
    (task index task' index' : ℕ)
    → (worker_storage_id task index ≡ worker_storage_id task' index')
      ↔ ((task % 2 ^ 16 ≡ task' % 2 ^ 16) × (index % 2 ^ 16 ≡ index' % 2 ^ 16))
unfolding worker_storage_id
worker_storage_id_lem task index task' index' = (λ e. (omega arith, omega arith), λ e. omega arith)
