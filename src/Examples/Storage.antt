-- ===== src/Examples/Storage.antt =====
-- src/storage/mapping.rs and src/repository/memory.rs at small inputs.
use paradown.Prelude.{ℕ, ◌≡◌, ◌⊎◌, ◌↔◌, refl, true, false, none, List, [], ◌∷◌, is_some}
use paradown.Failure.{ok}
use paradown.Checksum.{Checksum, md5, Digest, verify, verify_expected}
use paradown.Piece.{PieceState, BlockState}
use paradown.Storage.{DbDownloadWorker}
use paradown.Storage.Mapping.{
  piece_states_to_db, db_pieces_to_piece_states, block_states_to_db, db_blocks_to_block_states,
  checksum_to_db, db_to_checksum, algorithm_name, algorithm_named,
}
use paradown.Storage.RoundTrip.{states-RoundTrip, verify-db_to_checksum}
use paradown.Repository.{
  MemoryRepository, new_repository, save_worker, load_workers, load_pieces, load_blocks,
  load_checksums, delete_task, worker_storage_id,
}
use paradown.Repository.Workers.{delete_task-load, worker_storage_id_lem}

abbrev pieces : List PieceState
pieces =
    record { piece_index = 0; completed = true }
    ∷ record { piece_index = 1; completed = false }
    ∷ []

abbrev blocks : List BlockState
blocks =
    record { piece_index = 0; block_index = 1; completed = true }
    ∷ record { piece_index = 1; block_index = 0; completed = false }
    ∷ []

states-RoundTrip_example :
    (db_pieces_to_piece_states (piece_states_to_db 3 pieces) ≡ pieces)
    × (db_blocks_to_block_states (block_states_to_db 3 blocks) ≡ blocks)
states-RoundTrip_example = states-RoundTrip 3 pieces blocks (refl, tt) (refl, tt)

abbrev digest : Digest
digest _ = ok "abc"

-- A checksum without an expected value.
abbrev open_checksum : Checksum
open_checksum = record { algorithm = md5; value = none; verified = none; verified_at = none }

verify-db_to_checksum_example :
    let restored = db_to_checksum (checksum_to_db open_checksum 1) in
    (restored.algorithm ≡ md5)
    × (verify digest restored ≡ verify_expected digest md5 "")
    × ((is_some open_checksum.value ≡ true) ⊎ (verify digest open_checksum ≡ ok true))
verify-db_to_checksum_example = verify-db_to_checksum digest open_checksum 1

-- It passes before it was stored, and fails afterwards.
stored_checksum :
    (verify digest open_checksum ≡ ok true)
    × (verify digest (db_to_checksum (checksum_to_db open_checksum 1)) ≡ ok false)
unfolding verify verify_expected db_to_checksum checksum_to_db algorithm_name algorithm_named
stored_checksum = (refl, refl)

abbrev worker : ℕ → ℕ → DbDownloadWorker
worker task_id index = record {
  id = 0;
  task_id = task_id;
  index = index;
  source_id = none;
  piece_start = none;
  piece_end = none;
  block_start = none;
  block_end = none;
  start = 0;
  end = 9;
  downloaded = 0;
  status = "Paused";
  updated_at = none;
}

abbrev repository : MemoryRepository
repository = save_worker (worker 1 0) (save_worker (worker 2 0) new_repository)

delete_task-load_example :
    (load_workers 2 (delete_task 1 repository) ≡ load_workers 2 repository)
    × (load_pieces 2 (delete_task 1 repository) ≡ load_pieces 2 repository)
    × (load_blocks 2 (delete_task 1 repository) ≡ load_blocks 2 repository)
    × (load_checksums 2 (delete_task 1 repository) ≡ load_checksums 2 repository)
delete_task-load_example = delete_task-load 1 2 repository

worker_storage_id_lem_example :
    (worker_storage_id 1 0 ≡ worker_storage_id 65537 0) ↔ ((◌≡◌ {A = ℕ} 1 1) × (◌≡◌ {A = ℕ} 0 0))
worker_storage_id_lem_example = worker_storage_id_lem 1 0 65537 0
