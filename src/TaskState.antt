-- ===== src/TaskState.antt =====
-- src/job/state.rs and `start` of src/job/mod.rs: the status of a task. What a step awaits (the
-- store, the torrent engine, the preparation of a download, the file system) is answered by
-- parameters; no other step comes in between.
pub mod Restart
use paradown.Prelude.{Bool, true, false, if◌then◌else◌}
use paradown.Failure.{Error, other, Result, ok, err, ◌>>=◌}
use paradown.Status.{
  Status, pending, preparing, running, paused, completed, canceled, failed, deleted, is_terminal,
}

-- PreparationOutcome of src/job/prepare.rs: the download is ready, an engine runs it, or it is
-- finished.
pub data PreparationOutcome : Type 0 where
  ready started_by_engine finished : PreparationOutcome

-- What `prepare_download` returns, and the status that it leaves: `preparing`, unless `finish_job`
-- has set another, also when an error follows.
pub record Prepared : Type 0 where
  pub left : Status
  pub outcome : Result PreparationOutcome

pub record Answers : Type 0 where
  pub reset : Result (Unit {0})
  pub saved_preparing : Result (Unit {0})
  pub prepared : Prepared
  pub saved_running : Result (Unit {0})
  pub workers : Result (Unit {0})
  pub has_torrent_session : Bool
  pub engine : Result (Unit {0})
  pub saved : Result (Unit {0})
  pub file_deleted : Result (Unit {0})
  pub workers_purged : Result (Unit {0})
  pub checksums_purged : Result (Unit {0})
  pub task_purged : Result (Unit {0})

-- `prepare_for_start`; `reset` is the outcome of `reset_task`.
unfoldable pub prepare_for_start : Result (Unit {0}) → Status → Result (Unit {0})
prepare_for_start reset pending = ok tt
prepare_for_start reset preparing = err (other "Task is Preparing, cannot start again")
prepare_for_start reset running = err (other "Task is Running, cannot start again")
prepare_for_start reset paused = ok tt
prepare_for_start reset completed = err (other "Task already completed")
prepare_for_start reset canceled = reset
prepare_for_start reset (failed e) = reset
prepare_for_start reset deleted = err (other "Task deleted")

-- The `match` on the outcome of `prepare_download`, with what follows it.
unfoldable pub after_prepare :
    Answers → Status → Result PreparationOutcome → Status × Result (Unit {0})
after_prepare answers left (err e) = (left, err e)
after_prepare answers left (ok finished) = (left, ok tt)
after_prepare answers left (ok started_by_engine) =
    if is_terminal left then (left, ok tt) else (running, answers.saved_running)
after_prepare answers left (ok ready) = (running, answers.saved_running >>= λ _. answers.workers)

-- `start` behind `prepare_for_start`.
unfoldable pub start_from : Answers → Result (Unit {0}) → Status → Status × Result (Unit {0})
unfolding after_prepare
start_from answers (err e) status = (status, err e)
start_from answers (ok _) status = elim answers.saved_preparing [
  | err e ↦ (preparing, err e)
  | ok _ ↦ after_prepare answers answers.prepared.left answers.prepared.outcome
]

unfoldable pub start : Answers → Status → Status × Result (Unit {0})
unfolding start_from prepare_for_start
start answers status = start_from answers (prepare_for_start answers.reset status) status

-- The engine's session, if there is one, is paused, cancelled or resumed; then the task is saved.
abbrev pub engine_and_save : Answers → Result (Unit {0})
engine_and_save answers =
    (if answers.has_torrent_session then answers.engine else ok tt) >>= λ _. answers.saved

unfoldable pub pause : Answers → Status → Status × Result (Unit {0})
pause answers running = (paused, engine_and_save answers)
pause answers preparing = (paused, engine_and_save answers)
pause answers paused = (paused, ok tt)
pause answers status = (status, err (other "Cannot pause task in this state"))

unfoldable pub resume_paused : Answers → Status × Result (Unit {0})
unfolding start
resume_paused answers =
    if answers.has_torrent_session
    then (running, engine_and_save answers)
    else elim answers.saved [ err e ↦ (pending, err e) | ok _ ↦ start answers pending ]

unfoldable pub resume : Answers → Status → Status × Result (Unit {0})
unfolding start resume_paused
resume answers pending = start answers pending
resume answers running = start answers running
resume answers paused = resume_paused answers
resume answers status = (status, err (other "Cannot resume task in this state"))

unfoldable pub cancel : Answers → Status → Status × Result (Unit {0})
cancel answers pending = (canceled, engine_and_save answers)
cancel answers preparing = (canceled, engine_and_save answers)
cancel answers running = (canceled, engine_and_save answers)
cancel answers paused = (canceled, engine_and_save answers)
cancel answers status = (status, err (other "Cannot cancel task in this state"))

-- What `delete` does to the status and the permit: `true` says that the permit was released.
abbrev pub purged : Answers → Result (Unit {0})
purged answers = answers.file_deleted >>= λ _.
    answers.workers_purged >>= λ _. answers.checksums_purged >>= λ _. answers.task_purged

abbrev delete_purged : Result (Unit {0}) → Status × Bool × Result (Unit {0})
delete_purged (err e) = (failed e, true, err e)
delete_purged (ok _) = (deleted, true, ok tt)

abbrev delete_engine : Answers → Status → Result (Unit {0}) → Status × Bool × Result (Unit {0})
delete_engine answers status (err e) = (status, false, err e)
delete_engine answers status (ok _) = delete_purged (purged answers)

unfoldable pub delete : Answers → Status → Status × Bool × Result (Unit {0})
delete answers status =
    delete_engine answers status (if answers.has_torrent_session then answers.engine else ok tt)
