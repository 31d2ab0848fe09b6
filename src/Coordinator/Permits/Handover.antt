-- ===== src/Coordinator/Permits/Handover.antt =====
-- Where the permit of an ended task goes by src/coordinator/events.rs and queue.rs.
use paradown.Prelude.{
  ℕ, zero, suc, ◌+◌, true, false, ◌≡◌, refl, ◌∙◌, ap, Option, some, none, List, [], ◌∷◌, arith,
  ◌==◌, Bool-cases, inl, inr, All, option_map,
}
use paradown.Failure.{Result, ok, err}
use paradown.Status.{Status}
use paradown.Coordinator.{
  PendingAction, Entry, Manager, World, get_task, update_task, if_failed, settle, run_with_permit,
  run_task_transition, enqueue_task_action, spawn_loop, spawn_next_task, release_task_permit,
  remove_first, remove_from_queue, operation, held_by, handle_terminal_task_event,
}
use paradown.Coordinator.Permits.{held, get-update_task}
use paradown.Coordinator.Permits.Steps.{terminal-Conserved}

abbrev pub NotQueued : ℕ → List (ℕ × PendingAction) → Type 0
NotQueued id queue = All (λ (q : ℕ × PendingAction). (q.0 == id) ≡ false) queue

get-update_other :
    (id other : ℕ) (f : Entry → Entry) (es : List Entry)
    → ((e : Entry) → (f e).id ≡ e.id)
    → (other == id) ≡ false
    → get_task (update_task other f es) id ≡ get_task es id
unfolding update_task
get-update_other id other f [] h o = refl
get-update_other id other f (x ∷ xs) h o = ground (arith, h x, get-update_other id other f xs h o)

get-settle :
    (id other : ℕ) (s : Status) (r : Result (Unit {0})) (m : Manager)
    → (other == id) ≡ false
    → get_task (settle other s r m).tasks id ≡ get_task m.tasks id
unfolding settle
get-settle id other s (ok _) m o = get-update_other id other _ m.tasks (λ e. refl) o
get-settle id other s (err e) m o = get-update_other id other _ m.tasks (λ e. refl) o

-- A function that leaves a task alone unless the task is queued.
abbrev Spares : ℕ → (Manager → Manager) → Type 0
Spares id f = (m : Manager) → NotQueued id m.queue → get_task (f m).tasks id ≡ get_task m.tasks id

get-if_failed :
    (id other : ℕ) (s : Status) (r : Result (Unit {0})) (next : Manager → Manager) (m : Manager)
    → Spares id next
    → (other == id) ≡ false
    → NotQueued id m.queue
    → get_task (if_failed r next (settle other s r m)).tasks id ≡ get_task m.tasks id
unfolding settle
get-if_failed id other s (ok u) next m k o q = get-settle id other s (ok u) m o
get-if_failed id other s (err e) next m k o q =
    k (settle other s (err e) m) q ∙ get-settle id other s (err e) m o

get-run_with_permit :
    (world : World) (action : PendingAction) (id other : ℕ) (o : Option Entry)
    (next : Manager → Manager) (m : Manager)
    → Spares id next
    → (other == id) ≡ false
    → NotQueued id m.queue
    → get_task (run_with_permit world action other o next m).0.tasks id ≡ get_task m.tasks id
unfolding run_with_permit
get-run_with_permit world action id other none next m k o q = refl
get-run_with_permit world action id other (some x) next m k o q =
    get-if_failed id other _ _ next m k o q

get-enqueue :
    (id other : ℕ) (action : PendingAction) (m : Manager)
    → get_task (enqueue_task_action other action m).tasks id ≡ get_task m.tasks id
unfolding enqueue_task_action
get-enqueue id other action m = ground arith

get-run_task_transition :
    (world : World) (action : PendingAction) (id other : ℕ) (next : Manager → Manager) (m : Manager)
    → Spares id next
    → (other == id) ≡ false
    → NotQueued id m.queue
    → get_task (run_task_transition world action other next m).0.tasks id ≡ get_task m.tasks id
unfolding run_task_transition
get-run_task_transition world action id other next m k o q = elim (Bool-cases (m.permits == 0)) [
  | inl e ↦ rw e (get-enqueue id other action m)
  | inr e ↦ rw e (get-run_with_permit world action id other _ next m k o q)
]

spawn_loop-Spares :
    (fuel : ℕ) (world : World) (id : ℕ) (queue : List (ℕ × PendingAction)) (m : Manager)
    → NotQueued id queue
    → get_task (spawn_loop fuel world queue m).tasks id ≡ get_task m.tasks id
unfolding spawn_loop
spawn_loop-Spares zero world id queue m q = refl
spawn_loop-Spares (suc fuel) world id [] m q = refl
spawn_loop-Spares (suc fuel) world id ((other, action) ∷ rest) m q =
    get-run_task_transition world action id other _ (record m { queue = rest })
      (λ m' q'. spawn_loop-Spares fuel world id m'.queue m' q') q.0 q.1

-- When a task of the manager ends and is saved, and no second action of it is queued, it holds no
-- permit afterwards and is else unchanged, whatever is spawned then and however that turns out;
-- and the permits that the semaphore has and those that tasks hold are as many as before.
pub handle_terminal_task_event-frees :
    (world : World) (id : ℕ) (m : Manager) (e : Entry)
    → get_task m.tasks id ≡ some e
    → NotQueued id (remove_first id m.queue)
    → let after = (handle_terminal_task_event world (ok tt) id m).0 in
      (get_task after.tasks id ≡ some (record e { permit = false }))
      × (after.permits + held after.tasks ≡ m.permits + held m.tasks)
unfolding handle_terminal_task_event spawn_next_task release_task_permit remove_from_queue
handle_terminal_task_event-frees world id m e found q = (
  spawn_loop-Spares _ world id (remove_first id m.queue) _ q
      ∙ get-update_task id (λ (t : Entry). record t { permit = false }) m.tasks (λ t. refl)
      ∙ ap (option_map (λ (t : Entry). record t { permit = false })) found,
  terminal-Conserved (m.permits + held m.tasks) id world (ok tt) m refl,
)

run_task_transition-settle :
    (world : World) (next : Manager → Manager) (m : Manager) (id : ℕ) (action : PendingAction)
    (x : Entry) (s : Status)
    → (m.permits == 0) ≡ false
    → get_task m.tasks id ≡ some x
    → operation world action id x.status ≡ (s, ok tt)
    → (run_task_transition world action id next m).0 ≡ settle id s (ok tt) m
unfolding run_task_transition run_with_permit
run_task_transition-settle world next m id action x s gate found op =
    let run = λ (o : Option Entry). (run_with_permit world action id o next m).0 in
    rw gate (ap run found ∙ rw op refl)

spawn_loop-settle :
    (fuel : ℕ) (world : World) (m : Manager) (id : ℕ) (action : PendingAction)
    (rest : List (ℕ × PendingAction)) (x : Entry) (s : Status)
    → (m.permits == 0) ≡ false
    → get_task m.tasks id ≡ some x
    → operation world action id x.status ≡ (s, ok tt)
    → spawn_loop (suc fuel) world ((id, action) ∷ rest) m
      ≡ settle id s (ok tt) (record m { queue = rest })
unfolding spawn_loop
spawn_loop-settle fuel world m id action rest x s gate found op =
    run_task_transition-settle world _ (record m { queue = rest }) id action x s gate found op

spawn_next_task-settle :
    (world : World) (m : Manager) (id : ℕ) (action : PendingAction)
    (rest : List (ℕ × PendingAction)) (x : Entry) (s : Status)
    → m.queue ≡ (id, action) ∷ rest
    → (m.permits == 0) ≡ false
    → get_task m.tasks id ≡ some x
    → operation world action id x.status ≡ (s, ok tt)
    → spawn_next_task world m ≡ settle id s (ok tt) (record m { queue = rest })
unfolding spawn_next_task
spawn_next_task-settle world m id action rest x s q gate found op =
    rw q (spawn_loop-settle _ world m id action rest x s gate found op)

-- When a task that holds a permit ends and is saved, and an action of another task is first in
-- the queue without its own, and that action succeeds, then the other task has the status that
-- the action gives and holds a permit, the ended task holds none, the action has left the queue,
-- and the semaphore has as many permits as before, and one more if the other task held one
-- already.
pub handle_terminal_task_event-hands_over :
    (world : World) (id : ℕ) (m : Manager) (e : Entry) (other : ℕ) (action : PendingAction)
    (rest : List (ℕ × PendingAction)) (x : Entry) (s : Status)
    → get_task m.tasks id ≡ some e
    → e.permit ≡ true
    → remove_first id m.queue ≡ (other, action) ∷ rest
    → (other == id) ≡ false
    → get_task m.tasks other ≡ some x
    → operation world action other x.status ≡ (s, ok tt)
    → let after = (handle_terminal_task_event world (ok tt) id m).0 in
      (get_task after.tasks other ≡ some (record x { status = s; permit = true }))
      × (get_task after.tasks id ≡ some (record e { permit = false }))
      × (after.queue ≡ rest)
      × (after.permits ≡ m.permits + held_by (some x))
unfolding handle_terminal_task_event release_task_permit remove_from_queue settle
handle_terminal_task_event-hands_over world id m e other action rest x s found p q o foundx op =
    let freed = release_task_permit id (remove_from_queue id m) in
    let o' : (id == other) ≡ false = ground arith in
    let kept =
      get-update_other other id (λ (t : Entry). record t { permit = false }) m.tasks (λ t. refl) o'
      ∙ foundx in
    let lost =
      get-update_task id (λ (t : Entry). record t { permit = false }) m.tasks (λ t. refl)
      ∙ ap (option_map (λ (t : Entry). record t { permit = false })) found in
    let one : freed.permits ≡ m.permits + 1 = rw (found, p) refl in
    let spawned =
      spawn_next_task-settle world freed other action rest x s q (ground arith) kept op in
    let given = λ (t : Entry). record t { status = s; permit = true } in
    rw spawned (
      get-update_task other given freed.tasks (λ t. refl) ∙ ap (option_map given) kept,
      get-update_other id other given freed.tasks (λ t. refl) o ∙ lost,
      refl,
      rw (found, p, kept) (omega arith),
    )
