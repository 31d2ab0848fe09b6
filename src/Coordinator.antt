-- ===== src/Coordinator.antt =====
-- src/coordinator/mod.rs, queue.rs and events.rs: the manager's tasks, the permits of its semaphore
-- and its queue. A step is one call that nothing interrupts; `World` holds what each task's steps
-- are answered.
pub mod Permits
pub mod Queue
pub mod Registry
pub mod Spawn
pub mod Throttle
use paradown.Prelude.{
  ℕ, zero, suc, ◌+◌, ◌-◌, Bool, true, false, not, ◌&&◌, Option, some, none, List, [], ◌∷◌, ◌++◌,
  ◌==◌, if◌then◌else◌, is_empty, any, find,
}
use paradown.Prelude.{length as len}
use paradown.Failure.{Error, other, task_not_found, Result, ok, err, ◌>>=◌}
use paradown.Status.{Status}
use paradown.TaskState.{Answers, start, resume, pause, cancel, delete}

pub data PendingAction : Type 0 where
  start_action resume_action retry_action : PendingAction

-- A task in the manager's map: its id, its status, and whether it holds a permit.
pub record Entry : Type 0 where
  pub id : ℕ
  pub status : Status
  pub permit : Bool

-- `permits` are those that the semaphore has left.
pub record Manager : Type 0 where
  pub tasks : List Entry
  pub queue : List (ℕ × PendingAction)
  pub permits : ℕ

abbrev pub World : Type 0
World = ℕ → Answers

abbrev pub get_task : List Entry → ℕ → Option Entry
get_task tasks id = find (λ (e : Entry). e.id == id) tasks

-- Changes the first task of an id; the map has no other.
unfoldable pub update_task : ℕ → (Entry → Entry) → List Entry → List Entry
update_task id f [] = []
update_task id f (e ∷ es) = if e.id == id then f e ∷ es else e ∷ update_task id f es

abbrev pub same_action : PendingAction → PendingAction → Bool
same_action start_action start_action = true
same_action resume_action resume_action = true
same_action retry_action retry_action = true
same_action _ _ = false

abbrev pub queued : ℕ → PendingAction → List (ℕ × PendingAction) → Bool
queued id action [] = false
queued id action ((id', action') ∷ rest) =
    if id' == id && same_action action' action then true else queued id action rest

unfoldable pub enqueue_task_action : ℕ → PendingAction → Manager → Manager
enqueue_task_action id action m =
    if queued id action m.queue then m else record m { queue = m.queue ++ (id, action) ∷ [] }

unfoldable pub remove_first : ℕ → List (ℕ × PendingAction) → List (ℕ × PendingAction)
remove_first id [] = []
remove_first id ((id', action) ∷ rest) =
    if id' == id then rest else (id', action) ∷ remove_first id rest

unfoldable pub remove_from_queue : ℕ → Manager → Manager
unfolding remove_first
remove_from_queue id m = record m { queue = remove_first id m.queue }

-- Dropping a permit gives it back to the semaphore.
abbrev pub given_back : Bool → ℕ
given_back true = 1
given_back false = 0

abbrev pub held_by : Option Entry → ℕ
held_by none = 0
held_by (some e) = given_back e.permit

unfoldable pub release_task_permit : ℕ → Manager → Manager
unfolding update_task
release_task_permit id m = record m {
  tasks = update_task id (λ e. record e { permit = false }) m.tasks;
  permits = m.permits + held_by (get_task m.tasks id);
}

-- The operation of a task that `start_task` and `resume_task` run.
unfoldable pub operation : World → PendingAction → ℕ → Status → Status × Result (Unit {0})
unfolding start resume
operation world start_action id status = start (world id) status
operation world resume_action id status = resume (world id) status
operation world retry_action id status = start (world id) status

-- The end of `run_task_transition`: what it does to the task's permit, by the operation's result.
-- `permits` were left when the new permit was taken.
unfoldable pub settle : ℕ → Status → Result (Unit {0}) → Manager → Manager
unfolding update_task
settle id status (ok _) m = record m {
  tasks = update_task id (λ e. record e { status = status; permit = true }) m.tasks;
  permits = m.permits - 1 + held_by (get_task m.tasks id);
}
settle id status (err e) m = record m {
  tasks = update_task id (λ e. record e { status = status; permit = false }) m.tasks;
  permits = m.permits + held_by (get_task m.tasks id);
}

abbrev pub with_id : ℕ → Result (Unit {0}) → Result ℕ
with_id id (ok _) = ok id
with_id id (err e) = err e

abbrev pub if_failed : Result (Unit {0}) → (Manager → Manager) → Manager → Manager
if_failed (ok _) spawn_next m = m
if_failed (err e) spawn_next m = spawn_next m

-- `spawn_next` is the call of `spawn_next_task` after a failure.
unfoldable pub run_with_permit :
    World → PendingAction → ℕ → Option Entry → (Manager → Manager) → Manager → Manager × Result ℕ
unfolding operation settle
run_with_permit world action id none spawn_next m = (m, err (task_not_found id))
run_with_permit world action id (some entry) spawn_next m =
    let (status, result) = operation world action id entry.status in
    let settled = settle id status result m in
    (if_failed result spawn_next settled, with_id id result)

unfoldable pub run_task_transition :
    World → PendingAction → ℕ → (Manager → Manager) → Manager → Manager × Result ℕ
unfolding run_with_permit enqueue_task_action
run_task_transition world action id spawn_next m =
    if m.permits == 0
    then (enqueue_task_action id action m, ok id)
    else run_with_permit world action id (get_task m.tasks id) spawn_next m

-- `spawn_next_task` pops one action and runs it, which may fail and spawn the next: on fuel, one
-- round for each queued action.
unfoldable pub spawn_loop : ℕ → World → List (ℕ × PendingAction) → Manager → Manager
unfolding run_task_transition
spawn_loop zero world queue m = m
spawn_loop (suc fuel) world [] m = m
spawn_loop (suc fuel) world ((id, action) ∷ rest) m =
    (run_task_transition world action id (λ (m' : Manager). spawn_loop fuel world m'.queue m')
      (record m { queue = rest })).0

unfoldable pub spawn_next_task : World → Manager → Manager
unfolding spawn_loop
spawn_next_task world m = spawn_loop (len m.queue) world m.queue m

unfoldable pub start_task : World → ℕ → Manager → Manager × Result ℕ
unfolding run_task_transition spawn_next_task
start_task world id m = run_task_transition world start_action id (spawn_next_task world) m

unfoldable pub resume_task : World → ℕ → Manager → Manager × Result ℕ
unfolding run_task_transition spawn_next_task
resume_task world id m = run_task_transition world resume_action id (spawn_next_task world) m

-- `pause_task` and `cancel_task` change the status only; the events that they send release the
-- permit.
abbrev pub set_status : ℕ → Status → Manager → Manager
set_status id status m = record m {
  tasks = update_task id (λ e. record e { status = status }) m.tasks;
}

unfoldable pub pause_task : World → ℕ → Manager → Manager × Result ℕ
unfolding update_task pause
pause_task world id m = elim (get_task m.tasks id) [
  | none ↦ (m, err (task_not_found id))
  | some e ↦
      let (status, result) = pause (world id) e.status in
      (set_status id status m, with_id id result)
]

unfoldable pub cancel_task : World → ℕ → Manager → Manager × Result ℕ
unfolding update_task cancel
cancel_task world id m = elim (get_task m.tasks id) [
  | none ↦ (m, err (task_not_found id))
  | some e ↦
      let (status, result) = cancel (world id) e.status in
      (set_status id status m, with_id id result)
]

unfoldable pub remove_task : ℕ → List Entry → List Entry
remove_task id [] = []
remove_task id (e ∷ es) = if e.id == id then es else e ∷ remove_task id es

-- `delete_task`, by what the task's own `delete` returned: an engine's error leaves the permit.
unfoldable pub delete_settle : ℕ → Status × Bool × Result (Unit {0}) → Manager → Manager × Result ℕ
unfolding update_task remove_task release_task_permit
delete_settle id (status, false, result) m = (set_status id status m, with_id id result)
delete_settle id (status, true, err e) m = (set_status id status (release_task_permit id m), err e)
delete_settle id (status, true, ok _) m =
    let marked = set_status id status (release_task_permit id m) in
    (record marked { tasks = remove_task id marked.tasks }, ok id)

unfoldable pub delete_task : World → ℕ → Manager → Manager × Result ℕ
unfolding delete_settle delete
delete_task world id m = elim (get_task m.tasks id) [
  | none ↦ (m, err (task_not_found id))
  | some e ↦ delete_settle id (delete (world id) e.status) m
]

-- `handle_terminal_task_event`; the parameter is what saving the task and the session gives.
unfoldable pub handle_terminal_task_event :
    World → Result (Unit {0}) → ℕ → Manager → Manager × Result (Unit {0})
unfolding remove_from_queue release_task_permit spawn_next_task
handle_terminal_task_event world (err e) id m = (m, err e)
handle_terminal_task_event world (ok _) id m =
    (spawn_next_task world (release_task_permit id (remove_from_queue id m)), ok tt)

unfoldable pub handle_deleted_task_event :
    World → Result (Unit {0}) → ℕ → Manager → Manager × Result (Unit {0})
unfolding remove_from_queue spawn_next_task
handle_deleted_task_event world (err e) id m = (m, err e)
handle_deleted_task_event world (ok _) id m =
    (spawn_next_task world (remove_from_queue id m), ok tt)
