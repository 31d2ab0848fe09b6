-- ===== src/Job/Prepare.antt =====
-- src/job/prepare.rs and src/job/finalize.rs: what a start makes of a local file that is there or
-- not. The answers of the file system and the store's are parameters.
pub mod Outcomes
use paradown.Prelude.{
  ℕ, String, Bool, true, false, not, ◌&&◌, Option, some, none, List, [], ◌==◌, ltb, if◌then◌else◌,
  is_empty, is_some, unwrap_or,
}
use paradown.Failure.{Error, other, Result, ok, err, ◌>>=◌}
use paradown.Status.{Status}
use paradown.Checksum.{Checksum, Digest, verify_file_checksums}
use paradown.Domain.Http.{HttpResourceIdentity, has_resume_validator, validator_changed}
use paradown.Job.{Task, mark_all_pieces_completed, reset_piece_progress, reset_block_progress}

-- OriginMetadata of src/discovery/origin.rs, and FileConflictStrategy of src/config.rs.
pub record OriginMetadata : Type 0 where
  pub total_size : Option ℕ
  pub supports_range_requests : Bool
  pub resource_identity : HttpResourceIdentity

pub data FileConflictStrategy : Type 0 where
  overwrite skip_if_valid resume : FileConflictStrategy

-- What the store answers while a task is prepared: to the deletion of its workers, and to saving
-- its checksums and itself.
pub record StoreAnswers : Type 0 where
  pub workers_purged : Result (Unit {0})
  pub saved_checksums : Result (Unit {0})
  pub saved_task : Result (Unit {0})

-- The last step, `purge_task_workers`, may fail, when the task is reset already.
unfoldable pub reset_resume_state : StoreAnswers → Task → Task × Result (Unit {0})
unfolding reset_piece_progress reset_block_progress
reset_resume_state store task =
    let cleared = record task { downloaded_size = 0 } in
    (
      record (reset_block_progress (reset_piece_progress cleared)) { workers = [] },
      store.workers_purged,
    )

unfoldable pub reset_missing_file_state : StoreAnswers → Task → Task × Result (Unit {0})
unfolding reset_resume_state
reset_missing_file_state store task =
    if not (ltb 0 task.downloaded_size) && is_empty task.workers
    then (task, ok tt)
    else reset_resume_state store task

unfoldable pub can_resume_partial_download : OriginMetadata → HttpResourceIdentity → Task → Bool
can_resume_partial_download probe previous task =
    is_some probe.total_size
    && probe.supports_range_requests
    && has_resume_validator previous
    && not (validator_changed previous probe.resource_identity)
    && not (is_empty task.workers)

-- The part of `verify_existing_file` behind the checksums.
unfoldable pub size_and_validator_match : ℕ → OriginMetadata → HttpResourceIdentity → Bool
size_and_validator_match file_size probe previous = elim probe.total_size [
  | none ↦ false
  | some total ↦
      file_size == total
      && has_resume_validator previous
      && not (validator_changed previous probe.resource_identity)
]

unfoldable pub verify_existing_file :
    Digest
    → ℕ
    → ℕ
    → OriginMetadata
    → HttpResourceIdentity
    → List Checksum
    → List Checksum × Result Bool
unfolding size_and_validator_match
verify_existing_file digest now file_size probe previous checksums =
    if not (is_empty checksums)
    then verify_file_checksums digest now checksums
    else (checksums, ok (size_and_validator_match file_size probe previous))

-- The last steps of `finish_job`, when the status is set already.
abbrev pub saved : StoreAnswers → Result (Unit {0})
saved store = store.saved_checksums >>= λ _. store.saved_task

-- `finish_job`: `synced` is the outcome of `payload_store.sync_data()`, if there is a payload store.
-- Events are left out.
unfoldable pub finish_job :
    StoreAnswers → Result (Unit {0}) → Result (Unit {0}) → Task → Task × Result (Unit {0})
unfolding mark_all_pieces_completed
finish_job store (err e) (ok _) task = (task, err e)
finish_job store (ok _) (ok _) task =
    (record (mark_all_pieces_completed task) { status = Status.completed }, saved store)
finish_job store synced (err e) task = (record task { status = Status.failed e }, saved store)

-- Whether a checksum verdict lets a job succeed, as in `finalize_download`.
unfoldable pub checksum_outcome : Result Bool → Result (Unit {0})
checksum_outcome (ok true) = ok tt
checksum_outcome (ok false) = err (other "Checksum failed")
checksum_outcome (err e) = err e

unfoldable pub finalize_download :
    Digest
    → ℕ
    → StoreAnswers
    → Result (Unit {0})
    → Option String
    → List Checksum
    → Task
    → List Checksum × (Task × Result (Unit {0}))
unfolding finish_job checksum_outcome
finalize_download digest now store synced none checksums task = (
  checksums,
  finish_job store synced (err (other "No file path set for task, cannot verify checksum")) task,
)
finalize_download digest now store synced (some path) checksums task =
    let (checked, verdict) = verify_file_checksums digest now checksums in
    (checked, finish_job store synced (checksum_outcome verdict) task)

-- What the file system answers while a local file is looked at: the length of the file, the
-- outcome of removing it, and of syncing it.
pub record LocalFile : Type 0 where
  pub size : ℕ
  pub removed : Result (Unit {0})
  pub synced : Result (Unit {0})

-- fs::remove_file, by its outcome, and reset_resume_state: the download starts over.
unfoldable pub discard : StoreAnswers → Result (Unit {0}) → Task → Task × Result Bool
unfolding reset_resume_state
discard store (err e) task = (task, err e)
discard store (ok _) task =
    let (reset, result) = reset_resume_state store task in (reset, result >>= λ _. ok false)

-- The use of a file that should be complete.
unfoldable pub use_if_valid : StoreAnswers → LocalFile → Result Bool → Task → Task × Result Bool
unfolding discard finish_job
use_if_valid store file (err e) task = (task, err e)
use_if_valid store file (ok false) task = discard store file.removed task
use_if_valid store file (ok true) task =
    let (finished, result) = finish_job store file.synced (ok tt) task in
    (finished, result >>= λ _. ok true)

unfoldable pub apply_strategy :
    FileConflictStrategy
    → StoreAnswers
    → LocalFile
    → OriginMetadata
    → HttpResourceIdentity
    → Result Bool
    → Task
    → Task × Result Bool
unfolding use_if_valid discard can_resume_partial_download
apply_strategy overwrite store file probe previous verdict task = discard store file.removed task
apply_strategy skip_if_valid store file probe previous verdict task =
    use_if_valid store file verdict task
apply_strategy resume store file probe previous verdict task =
    if ltb file.size (unwrap_or probe.total_size 0)
    then if can_resume_partial_download probe previous task
      then (task, ok false)
      else discard store file.removed task
    else use_if_valid store file verdict task

-- `current_size > total_size`, if the remote size is known.
abbrev pub exceeds : ℕ → Option ℕ → Bool
exceeds size none = false
exceeds size (some total) = ltb total size

-- `none` stands for a file that does not exist, and an error for one whose metadata cannot be read;
-- `verdict` is what `verify_existing_file` returns.
unfoldable pub handle_existing_file :
    FileConflictStrategy
    → StoreAnswers
    → Option (Result LocalFile)
    → OriginMetadata
    → HttpResourceIdentity
    → Bool
    → Result Bool
    → Task
    → Task × Result Bool
unfolding reset_missing_file_state discard apply_strategy
handle_existing_file strategy store none probe previous origin_changed verdict task =
    let (reset, result) = reset_missing_file_state store task in (reset, result >>= λ _. ok false)
handle_existing_file strategy store (some (err e)) probe previous origin_changed verdict task =
    (task, err e)
handle_existing_file strategy store (some (ok file)) probe previous origin_changed verdict task =
    if origin_changed
    then discard store file.removed task
    else if exceeds file.size probe.total_size
    then discard store file.removed task
    else if not (is_some probe.total_size)
    then discard store file.removed task
    else apply_strategy strategy store file probe previous verdict task
