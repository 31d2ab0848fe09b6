-- ===== src/Job/Prepare/Outcomes.antt =====
-- What src/job/prepare.rs leaves of a task before its download goes on.
use paradown.Prelude.{
  ◌<◌, Bool, true, false, not, ◌&&◌, ◌≡◌, refl, ◌⊎◌, inl, inr, some, none, List, [], ◌∷◌, map,
  arith, ltb, any, is_empty, is_some, unwrap_or, Bool-cases, ltb→lt,
}
use paradown.Failure.{Error, Result, ok, err, ◌>>=◌}
use paradown.Status.{Status}
use paradown.Domain.Http.{HttpResourceIdentity, has_resume_validator, validator_changed}
use paradown.Piece.{PieceState, BlockState}
use paradown.Job.{Task, reset_piece_progress, reset_block_progress}
use paradown.Job.Prepare.{
  OriginMetadata, FileConflictStrategy, overwrite, skip_if_valid, resume, LocalFile, StoreAnswers,
  saved, reset_resume_state, reset_missing_file_state, can_resume_partial_download, finish_job,
  discard, use_if_valid, apply_strategy, handle_existing_file, exceeds,
}

-- Nothing of an earlier download is left.
abbrev pub IsFresh : Task → Type 0
IsFresh task =
    (task.downloaded_size ≡ 0)
    × (any (λ (s : PieceState). s.completed) task.piece_states ≡ false)
    × (any (λ (s : BlockState). s.completed) task.block_states ≡ false)
    × (task.workers ≡ [])

empty_list {ℓ} : {A : Type ℓ} (xs : List A) → is_empty xs ≡ true → xs ≡ []
empty_list [] h = refl
empty_list (x ∷ xs) h = cc

no_piece :
    (ss : List PieceState)
    → any
        (λ (s : PieceState). s.completed)
        (map (λ (s : PieceState). record s { completed = false }) ss)
      ≡ false
no_piece [] = refl
no_piece (s ∷ ss) = no_piece ss

no_block :
    (ss : List BlockState)
    → any
        (λ (s : BlockState). s.completed)
        (map (λ (s : BlockState). record s { completed = false }) ss)
      ≡ false
no_block [] = refl
no_block (s ∷ ss) = no_block ss

reset_resume_state-IsFresh :
    (store : StoreAnswers) (task : Task) → IsFresh (reset_resume_state store task).0
unfolding reset_resume_state reset_piece_progress reset_block_progress
reset_resume_state-IsFresh store task =
    (refl, no_piece task.piece_states, no_block task.block_states, refl)

-- How a download can go on with the file as it is.
abbrev pub Resumes :
    FileConflictStrategy → LocalFile → OriginMetadata → HttpResourceIdentity → Task → Type 0
Resumes strategy file probe previous task =
    (strategy ≡ resume)
    × (file.size < unwrap_or probe.total_size 0)
    × (has_resume_validator previous ≡ true)
    × (validator_changed previous probe.resource_identity ≡ false)
    × (probe.supports_range_requests ≡ true)

-- What an error leaves. Before anything was changed it is the file system's or the verdict's, and
-- the task is as it was; after the reset it is the store's, and nothing is left of the progress;
-- after a file was found valid it is the store's too, and the task is completed.
abbrev pub Failure : StoreAnswers → LocalFile → Result Bool → Task → Task → Error → Type 0
Failure store file verdict task after e =
    ((after ≡ task) × ((file.removed ≡ err e) ⊎ ((verdict ≡ err e) ⊎ (file.synced ≡ err e))))
    ⊎ ((IsFresh after × (store.workers_purged ≡ err e))
        ⊎ ((verdict ≡ ok true) × (after.status ≡ Status.completed) × (saved store ≡ err e)))

-- A task that is finished was found valid and is completed and saved; and a download goes on from
-- nothing, or with the file as it is.
abbrev pub Outcome :
    FileConflictStrategy
    → StoreAnswers
    → LocalFile
    → OriginMetadata
    → HttpResourceIdentity
    → Result Bool
    → Task
    → Task
    → Result Bool
    → Type 0
Outcome strategy store file probe previous verdict task after (err e) =
    Failure store file verdict task after e
Outcome strategy store file probe previous verdict task after (ok true) =
    (verdict ≡ ok true) × (after.status ≡ Status.completed) × (saved store ≡ ok tt)
Outcome strategy store file probe previous verdict task after (ok false) =
    (IsFresh after × (file.removed ≡ ok tt) × (store.workers_purged ≡ ok tt))
    ⊎ ((after ≡ task) × Resumes strategy file probe previous task)

module _ (strategy : FileConflictStrategy) (store : StoreAnswers) (file : LocalFile)
    (probe : OriginMetadata) (previous : HttpResourceIdentity) (task : Task) where
  -- The reset, by what the store answers.
  reset-Outcome :
      (verdict : Result Bool) (purged : Result (Unit {0}))
      → file.removed ≡ ok tt
      → store.workers_purged ≡ purged
      → Outcome strategy store file probe previous verdict task
          (reset_resume_state store task).0
          (purged >>= λ _. ok false)
  reset-Outcome verdict (err e) r p = inr (inl (reset_resume_state-IsFresh store task, p))
  reset-Outcome verdict (ok _) r p = inl (reset_resume_state-IsFresh store task, r, p)

  discard-Outcome :
      (verdict : Result Bool)
      → let r = discard store file.removed task in
        Outcome strategy store file probe previous verdict task r.0 r.1
  unfolding discard reset_resume_state
  discard-Outcome verdict = by_removal file.removed refl
    where
      by_removal :
          (removed : Result (Unit {0}))
          → file.removed ≡ removed
          → let r = discard store removed task in
            Outcome strategy store file probe previous verdict task r.0 r.1
      by_removal (err e) h = inl (refl, inl h)
      by_removal (ok _) h = reset-Outcome verdict store.workers_purged h refl

  -- The end of a file that was found valid, by what the store answers.
  saved-Outcome :
      (after : Task) (answer : Result (Unit {0}))
      → after.status ≡ Status.completed
      → saved store ≡ answer
      → Outcome strategy store file probe previous (ok true) task after (answer >>= λ _. ok true)
  saved-Outcome after (err e) s h = inr (inr (refl, s, h))
  saved-Outcome after (ok _) s h = (refl, s, h)

  finish-Outcome :
      (synced : Result (Unit {0}))
      → file.synced ≡ synced
      → let r = finish_job store synced (ok tt) task in
        Outcome strategy store file probe previous (ok true) task r.0 (r.1 >>= λ _. ok true)
  unfolding finish_job
  finish-Outcome (err e) h = inl (refl, inr (inr h))
  finish-Outcome (ok _) h =
      saved-Outcome (finish_job store (ok tt) (ok tt) task).0 (saved store) refl refl

  use_if_valid-Outcome :
      (verdict : Result Bool)
      → let r = use_if_valid store file verdict task in
        Outcome strategy store file probe previous verdict task r.0 r.1
  unfolding use_if_valid
  use_if_valid-Outcome (err e) = inl (refl, inr (inl refl))
  use_if_valid-Outcome (ok false) = discard-Outcome (ok false)
  use_if_valid-Outcome (ok true) = finish-Outcome file.synced refl

  can_resume_lem :
      can_resume_partial_download probe previous task ≡ true
      → (has_resume_validator previous ≡ true)
        × (validator_changed previous probe.resource_identity ≡ false)
        × (probe.supports_range_requests ≡ true)
  unfolding can_resume_partial_download
  can_resume_lem h = (ground arith, ground arith, ground arith)

  resume-Outcome :
      (verdict : Result Bool)
      → let r = apply_strategy resume store file probe previous verdict task in
        (strategy ≡ resume) → Outcome strategy store file probe previous verdict task r.0 r.1
  unfolding apply_strategy
  resume-Outcome verdict e = elim (Bool-cases (ltb file.size (unwrap_or probe.total_size 0))) [
    | inr h ↦ rw h (use_if_valid-Outcome verdict)
    | inl h ↦ elim (Bool-cases (can_resume_partial_download probe previous task)) [
      | inr k ↦ rw (h, k) (discard-Outcome verdict)
      | inl k ↦ let c = can_resume_lem k in rw (h, k) (inr (refl, (e, ltb→lt _ _ h, c.0, c.1, c.2)))
    ]
  ]

apply_strategy-Outcome :
    (strategy : FileConflictStrategy) (store : StoreAnswers) (file : LocalFile)
    (probe : OriginMetadata) (previous : HttpResourceIdentity) (verdict : Result Bool) (task : Task)
    → let r = apply_strategy strategy store file probe previous verdict task in
      Outcome strategy store file probe previous verdict task r.0 r.1
unfolding apply_strategy
apply_strategy-Outcome overwrite store file probe previous verdict task =
    discard-Outcome overwrite store file probe previous task verdict
apply_strategy-Outcome skip_if_valid store file probe previous verdict task =
    use_if_valid-Outcome skip_if_valid store file probe previous task verdict
apply_strategy-Outcome resume store file probe previous verdict task =
    resume-Outcome resume store file probe previous task verdict refl

-- With a local file whose metadata can be read, whatever the strategy and the answers. A task
-- that is finished here had a file that was found valid, and is completed and saved. A download
-- that goes on either starts from nothing, its file removed and its workers deleted from the
-- store, or keeps its progress, which happens only under the strategy Resume, for a file shorter
-- than the payload, with a stored validator that has not changed and an origin that serves
-- ranges. After an error the task is as it was, and the error is that of removing, checking or
-- syncing the file; or nothing is left of its progress, and the store failed to delete its
-- workers; or it is completed with a valid file, and the store failed to save it.
pub handle_existing_file-Outcome :
    (strategy : FileConflictStrategy) (store : StoreAnswers) (file : LocalFile)
    (probe : OriginMetadata) (previous : HttpResourceIdentity) (origin_changed : Bool)
    (verdict : Result Bool) (task : Task)
    → let r =
        handle_existing_file strategy store
          (some (ok file))
          probe
          previous
          origin_changed
          verdict
          task in
      Outcome strategy store file probe previous verdict task r.0 r.1
unfolding handle_existing_file
handle_existing_file-Outcome strategy store file probe previous true verdict task =
    discard-Outcome strategy store file probe previous task verdict
handle_existing_file-Outcome strategy store file probe previous false verdict task =
    elim (Bool-cases (exceeds file.size probe.total_size)) [
      | inl e ↦ rw e (discard-Outcome strategy store file probe previous task verdict)
      | inr e ↦ elim (Bool-cases (is_some probe.total_size)) [
        | inl k ↦ rw (e, k) (apply_strategy-Outcome strategy store file probe previous verdict task)
        | inr k ↦ rw (e, k) (discard-Outcome strategy store file probe previous task verdict)
      ]
    ]

-- Without a local file the task starts from nothing, whatever the strategy, and the store may fail
-- to delete its workers; unless it had no worker and nothing counted as downloaded: then it goes on
-- as it was, with its piece and block states, completed or not.
pub handle_existing_file-missing :
    (strategy : FileConflictStrategy) (store : StoreAnswers) (probe : OriginMetadata)
    (previous : HttpResourceIdentity) (origin_changed : Bool) (verdict : Result Bool) (task : Task)
    → let r = handle_existing_file strategy store none probe previous origin_changed verdict task in
      (IsFresh r.0 × (r.1 ≡ (store.workers_purged >>= λ _. ok false)))
      ⊎ ((r.0 ≡ task) × (r.1 ≡ ok false) × (task.downloaded_size ≡ 0) × (task.workers ≡ []))
unfolding handle_existing_file reset_missing_file_state reset_resume_state
handle_existing_file-missing strategy store probe previous origin_changed verdict task =
    elim (Bool-cases (not (ltb 0 task.downloaded_size) && is_empty task.workers)) [
      | inl e ↦ rw e (inr (refl, refl, ground arith, empty_list task.workers (ground arith)))
      | inr e ↦ rw e (inl (reset_resume_state-IsFresh store task, refl))
    ]
