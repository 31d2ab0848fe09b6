-- ===== src/Examples/Coordinator.antt =====
-- src/coordinator at a manager of two permits.
use paradown.Prelude.{◌+◌, ◌≡◌, refl, true, false, some, [], ◌∷◌, arith}
use paradown.Failure.{other, ok, err}
use paradown.Status.{Status}
use paradown.TaskState.{Answers, ready, start, start_from, prepare_for_start, after_prepare}
use paradown.Coordinator.{
  start_action, resume_action, handle_terminal_task_event, Manager, World, get_task, start_task,
  spawn_loop, run_task_transition, run_with_permit, operation, settle, update_task, remove_first,
}
use paradown.Coordinator.Permits.{held}
use paradown.Coordinator.Permits.Steps.{new_manager, start_task_running}
use paradown.Coordinator.Permits.Handover.{
  handle_terminal_task_event-frees, handle_terminal_task_event-hands_over,
}
use paradown.Coordinator.Spawn.{spawn_loop_enough}

-- Everything succeeds.
abbrev fine : Answers
fine = record {
  reset = ok tt;
  saved_preparing = ok tt;
  prepared = record { left = Status.preparing; outcome = ok ready };
  saved_running = ok tt;
  workers = ok tt;
  has_torrent_session = false;
  engine = ok tt;
  saved = ok tt;
  file_deleted = ok tt;
  workers_purged = ok tt;
  checksums_purged = ok tt;
  task_purged = ok tt;
}

abbrev world : World
world _ = fine

abbrev two_permits : Manager
two_permits = new_manager 2

abbrev with_task : Manager
with_task = record two_permits {
  tasks = record { id = 7; status = Status.pending; permit = false } ∷ [];
}

-- The task runs with one of the two permits.
abbrev running_manager : Manager
running_manager = record {
  tasks = record { id = 7; status = Status.running; permit = true } ∷ [];
  queue = [];
  permits = 1;
}

started_manager : (start_task world 7 with_task).0 ≡ running_manager
unfolding new_manager start_task run_task_transition run_with_permit operation settle update_task
    start start_from prepare_for_start after_prepare
started_manager = refl

start_task_running_example :
    let after = (start_task world 7 running_manager).0 in
    (get_task after.tasks 7 ≡ some (record { id = 7; status = Status.running; permit = false }))
    × (after.permits ≡ 2)
start_task_running_example = start_task_running world 7 running_manager refl (omega arith) refl

-- Task 7 has the only permit; task 8 waits for one.
abbrev full_manager : Manager
full_manager = record {
  tasks =
      record { id = 7; status = Status.completed; permit = true }
      ∷ record { id = 8; status = Status.pending; permit = false }
      ∷ [];
  queue = (8, start_action) ∷ [];
  permits = 0;
}

handle_terminal_task_event-frees_example :
    let after = (handle_terminal_task_event world (ok tt) 7 full_manager).0 in
    (get_task after.tasks 7 ≡ some (record { id = 7; status = Status.completed; permit = false }))
    × (after.permits + held after.tasks ≡ 1)
unfolding remove_first
handle_terminal_task_event-frees_example =
    handle_terminal_task_event-frees world 7 full_manager
      (record { id = 7; status = Status.completed; permit = true }) refl (refl, tt)

handle_terminal_task_event-hands_over_example :
    let after = (handle_terminal_task_event world (ok tt) 7 full_manager).0 in
    (get_task after.tasks 8 ≡ some (record { id = 8; status = Status.running; permit = true }))
    × (get_task after.tasks 7 ≡ some (record { id = 7; status = Status.completed; permit = false }))
    × (after.queue ≡ [])
    × (after.permits ≡ 0)
unfolding remove_first operation start start_from prepare_for_start after_prepare
handle_terminal_task_event-hands_over_example =
    handle_terminal_task_event-hands_over world 7 full_manager
      (record { id = 7; status = Status.completed; permit = true }) 8 start_action []
      (record { id = 8; status = Status.pending; permit = false }) Status.running refl refl refl
      refl refl refl

spawn_loop_enough_example :
    spawn_loop 5 world ((7, resume_action) ∷ []) running_manager
    ≡ spawn_loop 1 world ((7, resume_action) ∷ []) running_manager
spawn_loop_enough_example =
    spawn_loop_enough 5 world ((7, resume_action) ∷ []) running_manager (omega arith)

abbrev offline : Answers
offline = record fine {
  prepared = record { left = Status.preparing; outcome = err (other "no network") };
}
