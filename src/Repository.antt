-- ===== src/Repository.antt =====
-- src/repository/memory.rs: rows kept in maps. A map is the list of its entries, each key once;
-- `values()` yields them in an order that is not fixed, and the rows are sorted after it.
pub mod Workers
pub mod Json
use Prim.Native.String.{compare as str_compare}
use paradown.Prelude.{
  ℕ, ◌+◌, ◌*◌, ◌%◌, ◌^◌, String, Bool, true, false, not, ◌&&◌, Option, some, none, List, [], ◌∷◌,
  ltb, ◌==◌, str_eq, if◌then◌else◌, find, filter, sort_by, option_map, u32_mod, min, ◌-◌,
}
use paradown.Planner.{is_gt}
use paradown.Storage.{
  DbDownloadTask, DbDownloadWorker, DbDownloadPiece, DbDownloadBlock, DbDownloadChecksum,
}
use paradown.Storage.Mapping.{key_after}
use paradown.Storage.Contract.{Operations, Repository, save_bundle_by}
use paradown.Failure.{ok}

-- HashMap::insert and HashMap::retain on entries of a key and a value.
unfoldable pub insert {ℓ κ} :
    {K : Type ℓ} {V : Type κ} → (K → K → Bool) → K → V → List (K × V) → List (K × V)
insert same key value [] = (key, value) ∷ []
insert same key value ((k, v) ∷ rest) =
    if same k key then (k, value) ∷ rest else (k, v) ∷ insert same key value rest

unfoldable pub retain {ℓ κ} :
    {K : Type ℓ} {V : Type κ} → (K → V → Bool) → List (K × V) → List (K × V)
retain keep [] = []
retain keep ((k, v) ∷ entries) =
    let rest = retain keep entries in if keep k v then (k, v) ∷ rest else rest

unfoldable pub values {ℓ κ} : {K : Type ℓ} {V : Type κ} → List (K × V) → List V
values [] = []
values ((k, v) ∷ rest) = v ∷ values rest

abbrev pub same_pair : ℕ × ℕ → ℕ × ℕ → Bool
same_pair (a, b) (c, d) = a == c && b == d

abbrev pub same_triple : ℕ × ℕ × ℕ → ℕ × ℕ × ℕ → Bool
same_triple (a, b, x) (c, d, y) = a == c && b == d && x == y

abbrev pub same_named : ℕ × String → ℕ × String → Bool
same_named (a, s) (b, t) = a == b && str_eq s t

pub record MemoryRepository : Type 0 where
  pub tasks : List (ℕ × DbDownloadTask)
  pub workers : List ((ℕ × ℕ) × DbDownloadWorker)
  pub pieces : List ((ℕ × ℕ) × DbDownloadPiece)
  pub blocks : List ((ℕ × ℕ × ℕ) × DbDownloadBlock)
  pub checksums : List ((ℕ × String) × DbDownloadChecksum)

abbrev pub new_repository : MemoryRepository
new_repository = record { tasks = []; workers = []; pieces = []; blocks = []; checksums = [] }

unfoldable pub load_tasks : MemoryRepository → List DbDownloadTask
unfolding sort_by values
load_tasks r = sort_by (λ (left right : DbDownloadTask). ltb right.id left.id) (values r.tasks)

unfoldable pub load_task : ℕ → MemoryRepository → Option DbDownloadTask
load_task task_id r =
    option_map (λ (entry : ℕ × DbDownloadTask). entry.1)
      (find (λ (entry : ℕ × DbDownloadTask). entry.0 == task_id) r.tasks)

unfoldable pub save_task : DbDownloadTask → MemoryRepository → MemoryRepository
unfolding insert
save_task task r = record r { tasks = insert (λ a b. a == b) task.id task r.tasks }

-- ((task_id & 0xFFFF) << 16) | (index & 0xFFFF): the two halves do not overlap.
unfoldable pub worker_storage_id : ℕ → ℕ → ℕ
worker_storage_id task_id index = task_id % 2 ^ 16 * 2 ^ 16 + index % 2 ^ 16

unfoldable pub load_workers : ℕ → MemoryRepository → List DbDownloadWorker
unfolding sort_by values
load_workers task_id r =
    sort_by (λ (left right : DbDownloadWorker). ltb right.index left.index)
      (filter (λ (w : DbDownloadWorker). w.task_id == task_id) (values r.workers))

unfoldable pub load_worker : ℕ → MemoryRepository → Option DbDownloadWorker
unfolding values
load_worker worker_id r = find (λ (w : DbDownloadWorker). w.id == worker_id) (values r.workers)

unfoldable pub save_worker : DbDownloadWorker → MemoryRepository → MemoryRepository
unfolding insert worker_storage_id
save_worker worker r =
    let stored = record worker { id = worker_storage_id worker.task_id worker.index } in
    record r { workers = insert same_pair (worker.task_id, worker.index) stored r.workers }

abbrev pub not_of_worker : ℕ → ℕ × ℕ → DbDownloadWorker → Bool
not_of_worker task_id key w = not (w.task_id == task_id)

unfoldable pub delete_workers : ℕ → MemoryRepository → MemoryRepository
unfolding retain
delete_workers task_id r = record r { workers = retain (not_of_worker task_id) r.workers }

unfoldable pub load_pieces : ℕ → MemoryRepository → List DbDownloadPiece
unfolding sort_by values
load_pieces task_id r =
    sort_by (λ (left right : DbDownloadPiece). ltb right.piece_index left.piece_index)
      (filter (λ (p : DbDownloadPiece). p.task_id == task_id) (values r.pieces))

abbrev insert_pieces :
    ℕ → List DbDownloadPiece → List ((ℕ × ℕ) × DbDownloadPiece) → List ((ℕ × ℕ) × DbDownloadPiece)
insert_pieces task_id [] entries = entries
insert_pieces task_id (p ∷ ps) entries =
    insert_pieces task_id ps (insert same_pair (task_id, p.piece_index) p entries)

unfoldable pub save_pieces : ℕ → List DbDownloadPiece → MemoryRepository → MemoryRepository
unfolding retain insert
save_pieces task_id pieces r = record r {
  pieces = insert_pieces task_id pieces (retain (λ (id, index) p. not (id == task_id)) r.pieces);
}

unfoldable pub delete_pieces : ℕ → MemoryRepository → MemoryRepository
unfolding retain
delete_pieces task_id r = record r {
  pieces = retain (λ key (p : DbDownloadPiece). not (p.task_id == task_id)) r.pieces;
}

unfoldable pub load_blocks : ℕ → MemoryRepository → List DbDownloadBlock
unfolding sort_by values
load_blocks task_id r =
    sort_by
      (λ (left right : DbDownloadBlock).
        key_after left.piece_index left.block_index right.piece_index right.block_index)
      (filter (λ (b : DbDownloadBlock). b.task_id == task_id) (values r.blocks))

abbrev insert_blocks :
    ℕ
    → List DbDownloadBlock
    → List ((ℕ × ℕ × ℕ) × DbDownloadBlock)
    → List ((ℕ × ℕ × ℕ) × DbDownloadBlock)
insert_blocks task_id [] entries = entries
insert_blocks task_id (b ∷ bs) entries =
    insert_blocks task_id bs (insert same_triple (task_id, b.piece_index, b.block_index) b entries)

unfoldable pub save_blocks : ℕ → List DbDownloadBlock → MemoryRepository → MemoryRepository
unfolding retain insert
save_blocks task_id blocks r = record r {
  blocks =
      insert_blocks task_id blocks (retain (λ (id, piece, block) b. not (id == task_id)) r.blocks);
}

unfoldable pub delete_blocks : ℕ → MemoryRepository → MemoryRepository
unfolding retain
delete_blocks task_id r = record r {
  blocks = retain (λ key (b : DbDownloadBlock). not (b.task_id == task_id)) r.blocks;
}

abbrev algorithm_code : String → ℕ
algorithm_code algorithm =
    if str_eq algorithm "MD5"
    then 1
    else if str_eq algorithm "SHA1"
    then 2
    else if str_eq algorithm "SHA256"
    then 3
    else if str_eq algorithm "NONE"
    then 4
    else 15

-- u32::saturating_mul and saturating_add.
unfoldable pub checksum_storage_id : ℕ → String → ℕ
checksum_storage_id task_id algorithm =
    min (min (task_id * 16) (u32_mod - 1) + algorithm_code algorithm) (u32_mod - 1)

unfoldable pub load_checksums : ℕ → MemoryRepository → List DbDownloadChecksum
unfolding sort_by values
load_checksums task_id r =
    sort_by
      (λ (left right : DbDownloadChecksum). is_gt (str_compare left.algorithm right.algorithm))
      (filter (λ (c : DbDownloadChecksum). c.task_id == task_id) (values r.checksums))

unfoldable pub load_checksum : ℕ → MemoryRepository → Option DbDownloadChecksum
unfolding values
load_checksum checksum_id r =
    find (λ (c : DbDownloadChecksum). c.id == checksum_id) (values r.checksums)

unfoldable pub save_checksum : DbDownloadChecksum → MemoryRepository → MemoryRepository
unfolding insert checksum_storage_id
save_checksum checksum r =
    let stored = record checksum { id = checksum_storage_id checksum.task_id checksum.algorithm } in
    record r {
      checksums = insert same_named (checksum.task_id, checksum.algorithm) stored r.checksums;
    }

unfoldable pub delete_checksums : ℕ → MemoryRepository → MemoryRepository
unfolding retain
delete_checksums task_id r = record r {
  checksums = retain (λ key (c : DbDownloadChecksum). not (c.task_id == task_id)) r.checksums;
}

-- Also removes the rows that belong to the task.
unfoldable pub delete_task : ℕ → MemoryRepository → MemoryRepository
unfolding retain
delete_task task_id r = record {
  tasks = retain (λ id t. not (id == task_id)) r.tasks;
  workers = retain (not_of_worker task_id) r.workers;
  pieces = retain (λ key (p : DbDownloadPiece). not (p.task_id == task_id)) r.pieces;
  blocks = retain (λ key (b : DbDownloadBlock). not (b.task_id == task_id)) r.blocks;
  checksums = retain (λ key (c : DbDownloadChecksum). not (c.task_id == task_id)) r.checksums;
}

-- The operations of the trait, on the maps; none of them fails.
abbrev pub memory_repository : Repository MemoryRepository
memory_repository = record { operations = operations; save_bundle = save_bundle_by operations }
  where
    operations : Operations MemoryRepository
    operations = record {
      load_tasks = λ r. ok (load_tasks r);
      load_task = λ id r. ok (load_task id r);
      save_task = λ task r. (save_task task r, ok tt);
      delete_task = λ id r. (delete_task id r, ok tt);
      load_workers = λ id r. ok (load_workers id r);
      load_worker = λ id r. ok (load_worker id r);
      save_worker = λ worker r. (save_worker worker r, ok tt);
      delete_workers = λ id r. (delete_workers id r, ok tt);
      load_pieces = λ id r. ok (load_pieces id r);
      save_pieces = λ id pieces r. (save_pieces id pieces r, ok tt);
      delete_pieces = λ id r. (delete_pieces id r, ok tt);
      load_blocks = λ id r. ok (load_blocks id r);
      save_blocks = λ id blocks r. (save_blocks id blocks r, ok tt);
      delete_blocks = λ id r. (delete_blocks id r, ok tt);
      load_checksums = λ id r. ok (load_checksums id r);
      load_checksum = λ id r. ok (load_checksum id r);
      save_checksum = λ checksum r. (save_checksum checksum r, ok tt);
      delete_checksums = λ id r. (delete_checksums id r, ok tt);
    }
