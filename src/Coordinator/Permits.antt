-- ===== src/Coordinator/Permits.antt =====
-- The permits of src/coordinator: none is lost and none is made up.
pub mod Steps
pub mod Handover
use paradown.Prelude.{
  ℕ, zero, suc, ◌+◌, ◌-◌, ◌≤◌, ◌<◌, Bool, true, false, ◌≡◌, refl, ap, ◌∙◌, Option, some, none, List,
  [], ◌∷◌, arith, ◌==◌, if◌then◌else◌, find, Bool-cases, Option-cases, inl, inr, option_map,
}
use paradown.Failure.{Result, ok, err}
use paradown.Status.{Status}
use paradown.TaskState.{Answers, delete}
use paradown.Coordinator.{
  PendingAction, Entry, Manager, World, get_task, update_task, enqueue_task_action,
  remove_from_queue, given_back, held_by, if_failed, release_task_permit, operation, settle,
  run_with_permit, run_task_transition, spawn_loop, spawn_next_task, start_task, resume_task,
  set_status, pause_task, cancel_task, remove_task, delete_settle, delete_task,
  handle_terminal_task_event, handle_deleted_task_event,
}

-- How many permits the tasks hold.
abbrev pub held : List Entry → ℕ
held [] = 0
held (e ∷ es) = given_back e.permit + held es

abbrev pub Conserved : ℕ → Manager → Type 0
Conserved total m = m.permits + held m.tasks ≡ total

held-update_task :
    (id : ℕ) (f : Entry → Entry) (b : ℕ) (es : List Entry)
    → ((e : Entry) → given_back (f e).permit ≡ b)
    → (e : Entry) → get_task es id ≡ some e
    → held (update_task id f es) + given_back e.permit ≡ held es + b
unfolding update_task
held-update_task id f b [] h e found = cc
held-update_task id f b (x ∷ xs) h e found = elim (Bool-cases (x.id == id)) [
  | inl t ↦
      let same : x ≡ e = ground arith in
      rw t (omega (arith, h x, ap (λ (y : Entry). given_back y.permit) same))
  | inr t ↦ rw t (omega (arith, held-update_task id f b xs h e (rw t at found)))
]

update_task-none :
    (id : ℕ) (f : Entry → Entry) (es : List Entry)
    → get_task es id ≡ none
    → update_task id f es ≡ es
unfolding update_task
update_task-none id f [] h = refl
update_task-none id f (x ∷ xs) h = ground (arith, update_task-none id f xs)

held-set_status :
    (id : ℕ) (s : Status) (es : List Entry)
    → held (update_task id (λ e. record e { status = s }) es) ≡ held es
unfolding update_task
held-set_status id s [] = refl
held-set_status id s (x ∷ xs) = ground (arith, held-set_status id s xs)

pub release_task_permit-Conserved :
    (total id : ℕ) (m : Manager) → Conserved total m → Conserved total (release_task_permit id m)
unfolding release_task_permit
release_task_permit-Conserved total id m c = elim (Option-cases (get_task m.tasks id)) [
  | inl e ↦ rw (e, update_task-none id (λ e. record e { permit = false }) m.tasks e) (omega arith)
  | inr (x, e) ↦ rw e (
      omega
        (arith, held-update_task id (λ e. record e { permit = false }) 0 m.tasks (λ e. refl) x e))
]

settle-Conserved :
    (total id : ℕ) (s : Status) (r : Result (Unit {0})) (m : Manager) (x : Entry)
    → 0 < m.permits
    → get_task m.tasks id ≡ some x
    → Conserved total m
    → Conserved total (settle id s r m)
unfolding settle
settle-Conserved total id s (ok _) m x h e c = rw e (
    omega (
      arith,
      held-update_task id (λ e. record e { status = s; permit = true }) 1 m.tasks (λ e. refl) x e,
    ))
settle-Conserved total id s (err f) m x h e c = rw e (
    omega (
      arith,
      held-update_task id (λ e. record e { status = s; permit = false }) 0 m.tasks (λ e. refl) x e,
    ))

-- A function that keeps every manager's permits.
abbrev pub Keeps : (Manager → Manager) → Type 0
Keeps f = (total : ℕ) (m : Manager) → Conserved total m → Conserved total (f m)

after_settle :
    (total id : ℕ) (s : Status) (r : Result (Unit {0})) (next : Manager → Manager) (m : Manager)
    (x : Entry)
    → Keeps next
    → 0 < m.permits
    → get_task m.tasks id ≡ some x
    → Conserved total m
    → Conserved total (if_failed r next (settle id s r m))
after_settle total id s (ok u) next m x k h e c = settle-Conserved total id s (ok u) m x h e c
after_settle total id s (err f) next m x k h e c =
    k total _ (settle-Conserved total id s (err f) m x h e c)

run_with_permit-Conserved :
    (total : ℕ) (world : World) (action : PendingAction) (id : ℕ) (o : Option Entry)
    (next : Manager → Manager) (m : Manager)
    → Keeps next
    → 0 < m.permits
    → get_task m.tasks id ≡ o
    → Conserved total m
    → Conserved total (run_with_permit world action id o next m).0
unfolding run_with_permit
run_with_permit-Conserved total world action id none next m k h e c = c
run_with_permit-Conserved total world action id (some x) next m k h e c =
    after_settle total id _ _ next m x k h e c

enqueue-Conserved :
    (total id : ℕ) (action : PendingAction) (m : Manager)
    → Conserved total m
    → Conserved total (enqueue_task_action id action m)
unfolding enqueue_task_action
enqueue-Conserved total id action m c = ground arith

pub run_task_transition-Conserved :
    (total : ℕ) (world : World) (action : PendingAction) (id : ℕ) (next : Manager → Manager)
    (m : Manager)
    → Keeps next
    → Conserved total m
    → Conserved total (run_task_transition world action id next m).0
unfolding run_task_transition
run_task_transition-Conserved total world action id next m k c =
    elim (Bool-cases (m.permits == 0)) [
      | inl e ↦ rw e (enqueue-Conserved total id action m c)
      | inr e ↦ rw e (
          run_with_permit-Conserved total world action id (get_task m.tasks id) next m k
            (ground arith) refl c)
    ]

spawn_loop-Conserved :
    (fuel total : ℕ) (world : World) (queue : List (ℕ × PendingAction)) (m : Manager)
    → Conserved total m
    → Conserved total (spawn_loop fuel world queue m)
unfolding spawn_loop
spawn_loop-Conserved zero total world queue m c = c
spawn_loop-Conserved (suc fuel) total world [] m c = c
spawn_loop-Conserved (suc fuel) total world ((id, action) ∷ rest) m c =
    run_task_transition-Conserved total world action id _ (record m { queue = rest })
      (λ t m' c'. spawn_loop-Conserved fuel t world m'.queue m' c') c

pub spawn_next_task-Keeps : (world : World) → Keeps (spawn_next_task world)
unfolding spawn_next_task
spawn_next_task-Keeps world total m c = spawn_loop-Conserved _ total world m.queue m c

pub set_status-Conserved :
    (total id : ℕ) (s : Status) (m : Manager)
    → Conserved total m
    → Conserved total (set_status id s m)
set_status-Conserved total id s m c = omega (arith, held-set_status id s m.tasks)

pub get-update_task :
    (id : ℕ) (f : Entry → Entry) (es : List Entry)
    → ((e : Entry) → (f e).id ≡ e.id)
    → get_task (update_task id f es) id ≡ option_map f (get_task es id)
unfolding update_task
get-update_task id f [] h = refl
get-update_task id f (x ∷ xs) h = ground (arith, h x, get-update_task id f xs h)

held-remove_task :
    (id : ℕ) (es : List Entry) → held (remove_task id es) + held_by (get_task es id) ≡ held es
unfolding remove_task
held-remove_task id [] = refl
held-remove_task id (x ∷ xs) = ground (arith, held-remove_task id xs)

no_permit :
    (s : Status) (o : Option Entry)
    → held_by (
        option_map
          (λ (e : Entry). record e { status = s })
          (option_map (λ (e : Entry). record e { permit = false }) o))
      ≡ 0
no_permit s none = refl
no_permit s (some e) = refl

-- The task whose permit was released holds none, also under its next status.
released :
    (id : ℕ) (s : Status) (m : Manager)
    → held_by (get_task (set_status id s (release_task_permit id m)).tasks id) ≡ 0
unfolding release_task_permit
released id s m =
    rw
      (
        get-update_task id (λ e. record e { status = s })
            (update_task id (λ e. record e { permit = false }) m.tasks) (λ e. refl),
        get-update_task id (λ e. record e { permit = false }) m.tasks (λ e. refl),
      )
      (no_permit s (get_task m.tasks id))

pub delete_settle-Conserved :
    (total id : ℕ) (s : Status) (b : Bool) (r : Result (Unit {0})) (m : Manager)
    → Conserved total m
    → Conserved total (delete_settle id (s, b, r) m).0
unfolding delete_settle
delete_settle-Conserved total id s false r m c = set_status-Conserved total id s m c
delete_settle-Conserved total id s true (err e) m c =
    set_status-Conserved total id s (release_task_permit id m)
      (release_task_permit-Conserved total id m c)
delete_settle-Conserved total id s true (ok u) m c =
    let freed = set_status id s (release_task_permit id m) in
    let c' =
      set_status-Conserved total id s (release_task_permit id m)
        (release_task_permit-Conserved total id m c) in
    omega (arith, held-remove_task id freed.tasks, released id s m, c')
