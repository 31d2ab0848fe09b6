-- ===== src/Repository/Json.antt =====
-- src/repository/json_file.rs: rows kept in lists, which every change writes to a file as one
-- document. The codec of the document and the answers of the file system are parameters.
pub mod Views
pub mod Files
pub mod Persisted
use Prim.Native.String.{compare as str_compare}
use paradown.Prelude.{
  ℕ, String, Bool, true, false, not, ◌&&◌, Option, some, none, List, [], ◌∷◌, ◌++◌, ltb, ◌==◌,
  str_eq, if◌then◌else◌, find, filter, sort_by,
}
use paradown.Text.{trim, is_empty_text}
use paradown.Failure.{Error, Result, ok, err, ◌>>=◌}
use paradown.Planner.{is_gt}
use paradown.Storage.{
  DbDownloadTask, DbDownloadWorker, DbDownloadPiece, DbDownloadBlock, DbDownloadChecksum,
  StoredBundle,
}
use paradown.Storage.Mapping.{key_after}
use paradown.Storage.Contract.{Repository}

pub record JsonRepositoryState : Type 0 where
  pub tasks : List DbDownloadTask
  pub workers : List DbDownloadWorker
  pub pieces : List DbDownloadPiece
  pub blocks : List DbDownloadBlock
  pub checksums : List DbDownloadChecksum

abbrev pub empty_state : JsonRepositoryState
empty_state = record { tasks = []; workers = []; pieces = []; blocks = []; checksums = [] }

-- serde_json
pub record Codec : Type 0 where
  pub encode : JsonRepositoryState → Result String
  pub decode : String → Result JsonRepositoryState

-- What writing the document does: it is written, or the file is left with something else.
pub data Write : Type 0 where
  written : Write
  failed_write : Error → Option String → Write

-- The state, the file at the path (`none` is a file that is not there), and what the next writes
-- will do; those behind the list succeed.
pub record JsonFileRepository : Type 0 where
  pub state : JsonRepositoryState
  pub file : Option String
  pub writes : List Write

-- The contents that are read.
abbrev read_state : Codec → Option String → Result JsonRepositoryState
read_state codec none = ok empty_state
read_state codec (some contents) =
    if is_empty_text (trim contents) then ok empty_state else codec.decode contents

-- JsonFileRepository::new; `created` is what making the parent directory gives.
unfoldable pub new_json_repository :
    Codec → Result (Unit {0}) → Option String → List Write → Result JsonFileRepository
unfolding trim
new_json_repository codec created file writes = created >>= λ _.
    read_state codec file >>= λ state. ok (record { state = state; file = file; writes = writes })

abbrev pub persisted :
    List Write → String → JsonFileRepository → JsonFileRepository × Result (Unit {0})
persisted [] payload r = (record r { file = some payload }, ok tt)
persisted (written ∷ writes) payload r = (record r { file = some payload; writes = writes }, ok tt)
persisted (failed_write e left ∷ writes) payload r =
    (record r { file = left; writes = writes }, err e)

abbrev pub persist_payload :
    Result String → JsonFileRepository → JsonFileRepository × Result (Unit {0})
persist_payload (err e) r = (r, err e)
persist_payload (ok payload) r = persisted r.writes payload r

unfoldable pub persist_state : Codec → JsonFileRepository → JsonFileRepository × Result (Unit {0})
persist_state codec r = persist_payload (codec.encode r.state) r

-- What each call does to the state; `persist_state` follows it.
unfoldable pub load_tasks : JsonRepositoryState → List DbDownloadTask
unfolding sort_by
load_tasks s = sort_by (λ (left right : DbDownloadTask). ltb right.id left.id) s.tasks

unfoldable pub load_task : ℕ → JsonRepositoryState → Option DbDownloadTask
load_task task_id s = find (λ (t : DbDownloadTask). t.id == task_id) s.tasks

-- Vec::retain
abbrev pub without {ℓ} : {A : Type ℓ} → (A → ℕ) → ℕ → List A → List A
without task_of task_id rows = filter (λ row. not (task_of row == task_id)) rows

unfoldable pub save_task : DbDownloadTask → JsonRepositoryState → JsonRepositoryState
save_task task s = record s {
  tasks = without (λ (t : DbDownloadTask). t.id) task.id s.tasks ++ task ∷ [];
}

unfoldable pub delete_task : ℕ → JsonRepositoryState → JsonRepositoryState
delete_task task_id s = record {
  tasks = without (λ (t : DbDownloadTask). t.id) task_id s.tasks;
  workers = without (λ (w : DbDownloadWorker). w.task_id) task_id s.workers;
  pieces = without (λ (p : DbDownloadPiece). p.task_id) task_id s.pieces;
  blocks = without (λ (b : DbDownloadBlock). b.task_id) task_id s.blocks;
  checksums = without (λ (c : DbDownloadChecksum). c.task_id) task_id s.checksums;
}

unfoldable pub save_bundle : StoredBundle → JsonRepositoryState → JsonRepositoryState
save_bundle b s = record {
  tasks = without (λ (t : DbDownloadTask). t.id) b.task.id s.tasks ++ b.task ∷ [];
  workers = without (λ (w : DbDownloadWorker). w.task_id) b.task.id s.workers ++ b.workers;
  pieces = without (λ (p : DbDownloadPiece). p.task_id) b.task.id s.pieces ++ b.pieces;
  blocks = without (λ (b : DbDownloadBlock). b.task_id) b.task.id s.blocks ++ b.blocks;
  checksums = without (λ (c : DbDownloadChecksum). c.task_id) b.task.id s.checksums ++ b.checksums;
}

unfoldable pub load_workers : ℕ → JsonRepositoryState → List DbDownloadWorker
unfolding sort_by
load_workers task_id s =
    sort_by (λ (left right : DbDownloadWorker). ltb right.index left.index)
      (filter (λ (w : DbDownloadWorker). w.task_id == task_id) s.workers)

unfoldable pub load_worker : ℕ → JsonRepositoryState → Option DbDownloadWorker
load_worker worker_id s = find (λ (w : DbDownloadWorker). w.id == worker_id) s.workers

unfoldable pub save_worker : DbDownloadWorker → JsonRepositoryState → JsonRepositoryState
save_worker worker s = record s {
  workers =
      filter
        (λ (stored : DbDownloadWorker).
          not (stored.task_id == worker.task_id && stored.index == worker.index))
        s.workers
      ++ worker ∷ [];
}

unfoldable pub delete_workers : ℕ → JsonRepositoryState → JsonRepositoryState
delete_workers task_id s = record s {
  workers = without (λ (w : DbDownloadWorker). w.task_id) task_id s.workers;
}

unfoldable pub load_pieces : ℕ → JsonRepositoryState → List DbDownloadPiece
unfolding sort_by
load_pieces task_id s =
    sort_by (λ (left right : DbDownloadPiece). ltb right.piece_index left.piece_index)
      (filter (λ (p : DbDownloadPiece). p.task_id == task_id) s.pieces)

unfoldable pub save_pieces : ℕ → List DbDownloadPiece → JsonRepositoryState → JsonRepositoryState
save_pieces task_id pieces s = record s {
  pieces = without (λ (p : DbDownloadPiece). p.task_id) task_id s.pieces ++ pieces;
}

unfoldable pub delete_pieces : ℕ → JsonRepositoryState → JsonRepositoryState
delete_pieces task_id s = record s {
  pieces = without (λ (p : DbDownloadPiece). p.task_id) task_id s.pieces;
}

unfoldable pub load_blocks : ℕ → JsonRepositoryState → List DbDownloadBlock
unfolding sort_by
load_blocks task_id s =
    sort_by
      (λ (left right : DbDownloadBlock).
        key_after left.piece_index left.block_index right.piece_index right.block_index)
      (filter (λ (b : DbDownloadBlock). b.task_id == task_id) s.blocks)

unfoldable pub save_blocks : ℕ → List DbDownloadBlock → JsonRepositoryState → JsonRepositoryState
save_blocks task_id blocks s = record s {
  blocks = without (λ (b : DbDownloadBlock). b.task_id) task_id s.blocks ++ blocks;
}

unfoldable pub delete_blocks : ℕ → JsonRepositoryState → JsonRepositoryState
delete_blocks task_id s = record s {
  blocks = without (λ (b : DbDownloadBlock). b.task_id) task_id s.blocks;
}

unfoldable pub load_checksums : ℕ → JsonRepositoryState → List DbDownloadChecksum
unfolding sort_by
load_checksums task_id s =
    sort_by
      (λ (left right : DbDownloadChecksum). is_gt (str_compare left.algorithm right.algorithm))
      (filter (λ (c : DbDownloadChecksum). c.task_id == task_id) s.checksums)

unfoldable pub load_checksum : ℕ → JsonRepositoryState → Option DbDownloadChecksum
load_checksum checksum_id s = find (λ (c : DbDownloadChecksum). c.id == checksum_id) s.checksums

unfoldable pub save_checksum : DbDownloadChecksum → JsonRepositoryState → JsonRepositoryState
save_checksum checksum s = record s {
  checksums =
      filter
        (λ (stored : DbDownloadChecksum).
          not (stored.task_id == checksum.task_id && str_eq stored.algorithm checksum.algorithm))
        s.checksums
      ++ checksum ∷ [];
}

unfoldable pub delete_checksums : ℕ → JsonRepositoryState → JsonRepositoryState
delete_checksums task_id s = record s {
  checksums = without (λ (c : DbDownloadChecksum). c.task_id) task_id s.checksums;
}

-- A call: the change of the state, and its write.
unfoldable pub change :
    Codec
    → (JsonRepositoryState → JsonRepositoryState)
    → JsonFileRepository
    → JsonFileRepository × Result (Unit {0})
unfolding persist_state
change codec f r = persist_state codec (record r { state = f r.state })

abbrev pub json_repository : Codec → Repository JsonFileRepository
json_repository codec = record {
  operations = record {
    load_tasks = λ r. ok (load_tasks r.state);
    load_task = λ id r. ok (load_task id r.state);
    save_task = λ task. change codec (save_task task);
    delete_task = λ id. change codec (delete_task id);
    load_workers = λ id r. ok (load_workers id r.state);
    load_worker = λ id r. ok (load_worker id r.state);
    save_worker = λ worker. change codec (save_worker worker);
    delete_workers = λ id. change codec (delete_workers id);
    load_pieces = λ id r. ok (load_pieces id r.state);
    save_pieces = λ id pieces. change codec (save_pieces id pieces);
    delete_pieces = λ id. change codec (delete_pieces id);
    load_blocks = λ id r. ok (load_blocks id r.state);
    save_blocks = λ id blocks. change codec (save_blocks id blocks);
    delete_blocks = λ id. change codec (delete_blocks id);
    load_checksums = λ id r. ok (load_checksums id r.state);
    load_checksum = λ id r. ok (load_checksum id r.state);
    save_checksum = λ checksum. change codec (save_checksum checksum);
    delete_checksums = λ id. change codec (delete_checksums id);
  };
  save_bundle = λ bundle. change codec (save_bundle bundle);
}
