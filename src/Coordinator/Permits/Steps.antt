-- ===== src/Coordinator/Permits/Steps.antt =====
-- What the calls and events of src/coordinator do to the permits.
use paradown.Prelude.{
  ℕ, ◌+◌, ◌<◌, true, false, ◌≡◌, refl, ◌∙◌, some, List, [], ◌∷◌, arith, ◌==◌, Option-cases, inl,
  inr,
}
use paradown.Failure.{Result, ok, err}
use paradown.Status.{Status}
use paradown.Coordinator.{
  Entry, Manager, World, get_task, start_task, resume_task, pause_task, cancel_task, delete_task,
  handle_terminal_task_event, handle_deleted_task_event, remove_from_queue,
}
use paradown.Coordinator.Permits.{
  Conserved, Keeps, run_task_transition-Conserved, set_status-Conserved, get-update_task,
  delete_settle-Conserved, release_task_permit-Conserved, spawn_next_task-Keeps,
}

pause_task-Conserved :
    (total id : ℕ) (world : World) (m : Manager)
    → Conserved total m
    → Conserved total (pause_task world id m).0
unfolding pause_task
pause_task-Conserved total id world m c = elim (Option-cases (get_task m.tasks id)) [
  | inl e ↦ rw (e, pause_task) c
  | inr (x, e) ↦ rw (e, pause_task) (set_status-Conserved total id _ m c)
]

cancel_task-Conserved :
    (total id : ℕ) (world : World) (m : Manager)
    → Conserved total m
    → Conserved total (cancel_task world id m).0
unfolding cancel_task
cancel_task-Conserved total id world m c = elim (Option-cases (get_task m.tasks id)) [
  | inl e ↦ rw (e, cancel_task) c
  | inr (x, e) ↦ rw (e, cancel_task) (set_status-Conserved total id _ m c)
]

delete_task-Conserved :
    (total id : ℕ) (world : World) (m : Manager)
    → Conserved total m
    → Conserved total (delete_task world id m).0
unfolding delete_task
delete_task-Conserved total id world m c = elim (Option-cases (get_task m.tasks id)) [
  | inl e ↦ rw (e, delete_task) c
  | inr (x, e) ↦ rw (e, delete_task) (delete_settle-Conserved total id _ _ _ m c)
]

pub terminal-Conserved :
    (total id : ℕ) (world : World) (saved : Result (Unit {0})) (m : Manager)
    → Conserved total m
    → Conserved total (handle_terminal_task_event world saved id m).0
unfolding handle_terminal_task_event remove_from_queue
terminal-Conserved total id world (err e) m c = c
terminal-Conserved total id world (ok _) m c =
    spawn_next_task-Keeps world total _
      (release_task_permit-Conserved total id (remove_from_queue id m) c)

deleted-Conserved :
    (total id : ℕ) (world : World) (saved : Result (Unit {0})) (m : Manager)
    → Conserved total m
    → Conserved total (handle_deleted_task_event world saved id m).0
unfolding handle_deleted_task_event remove_from_queue
deleted-Conserved total id world (err e) m c = c
deleted-Conserved total id world (ok _) m c =
    spawn_next_task-Keeps world total (remove_from_queue id m) c

-- A call of the manager or an event of a task. Tasks come into the map by Registry.
data Call : Type 0 where
  start_call resume_call pause_call cancel_call delete_call : ℕ → Call
  terminal_event deleted_event : Result (Unit {0}) → ℕ → Call

unfoldable perform : World → Call → Manager → Manager
perform world (start_call id) m = (start_task world id m).0
perform world (resume_call id) m = (resume_task world id m).0
perform world (pause_call id) m = (pause_task world id m).0
perform world (cancel_call id) m = (cancel_task world id m).0
perform world (delete_call id) m = (delete_task world id m).0
perform world (terminal_event saved id) m = (handle_terminal_task_event world saved id m).0
perform world (deleted_event saved id) m = (handle_deleted_task_event world saved id m).0

perform-Conserved : (world : World) (call : Call) → Keeps (perform world call)
unfolding perform start_task resume_task
perform-Conserved world (start_call id) total m c =
    run_task_transition-Conserved total world _ id _ m (spawn_next_task-Keeps world) c
perform-Conserved world (resume_call id) total m c =
    run_task_transition-Conserved total world _ id _ m (spawn_next_task-Keeps world) c
perform-Conserved world (pause_call id) total m c = pause_task-Conserved total id world m c
perform-Conserved world (cancel_call id) total m c = cancel_task-Conserved total id world m c
perform-Conserved world (delete_call id) total m c = delete_task-Conserved total id world m c
perform-Conserved world (terminal_event saved id) total m c =
    terminal-Conserved total id world saved m c
perform-Conserved world (deleted_event saved id) total m c =
    deleted-Conserved total id world saved m c

unfoldable perform_all : List (World × Call) → Manager → Manager
perform_all [] m = m
perform_all ((world, call) ∷ calls) m = perform_all calls (perform world call m)

-- Calls and events of tasks in the map, in whatever order and however they are answered, keep the
-- sum of the permits that the semaphore has and of those that tasks hold.
perform_all-Conserved : (calls : List (World × Call)) → Keeps (perform_all calls)
unfolding perform_all
perform_all-Conserved [] total m c = c
perform_all-Conserved ((world, call) ∷ calls) total m c =
    perform_all-Conserved calls total (perform world call m)
      (perform-Conserved world call total m c)

-- Manager::new
unfoldable pub new_manager : ℕ → Manager
new_manager concurrent_tasks = record { tasks = []; queue = []; permits = concurrent_tasks }

-- A running task that holds a permit loses it when it is started again while a permit is left and
-- nothing is queued: the task goes on running, and both permits are back with the semaphore.
pub start_task_running :
    (world : World) (id : ℕ) (m : Manager)
    → get_task m.tasks id ≡ some (record { id = id; status = Status.running; permit = true })
    → 0 < m.permits
    → m.queue ≡ []
    → let after = (start_task world id m).0 in
      (get_task after.tasks id ≡ some (record { id = id; status = Status.running; permit = false }))
      × (after.permits ≡ m.permits + 1)
unfolding start_task
start_task_running world id m e h q =
    let gate : (m.permits == 0) ≡ false = ground arith in
    rw (start_task, gate, e, q)
      (
        get-update_task id (λ (t : Entry). record t { status = Status.running; permit = false })
              m.tasks (λ t. refl)
            ∙ rw e,
        rw e,
      )
