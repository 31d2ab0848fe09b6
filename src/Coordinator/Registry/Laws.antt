-- ===== src/Coordinator/Registry/Laws.antt =====
-- The tasks that src/coordinator/registry.rs lets into the manager: under fresh ids, one for each
-- specification.
use paradown.Prelude.{
  ℕ, zero, suc, ◌+◌, ◌<◌, ◌≤◌, Bool, true, false, ◌≡◌, refl, inl, inr, Option, some, none, List, [],
  ◌∷◌, arith, leb, ◌==◌, eq_iff, if◌then◌else◌, any, length, All, Bool-cases, unwrap_or, ◌∙◌,
  u32_mod, add_u32, as_u32,
}
use paradown.Failure.{Result, ok, err}
use paradown.Status.{Status}
use paradown.Domain.Http.{HttpRequestOptions}
use paradown.Domain.Spec.{identity_key}
use paradown.Requests.{TaskRequest, SegmentRequest}
use paradown.Storage.{StoredBundle}
use paradown.Storage.Mapping.{Decoders, db_task_to_request, db_workers_to_requests}
use paradown.Recovery.{FileSystem, build_restore_plan, inspect_restore_file_state}
use paradown.Recovery.Plans.{is_active, restored_status, restore_plan-status}
use paradown.Coordinator.Registry.{
  Registered, InitAnswers, has_key, contains_key, get_task, insert_task, id_loop, next_task_id,
  new_task, register, registered, add_task_with_workers, restore_tasks, init,
}

-- How many tasks have the id `from` or a greater one.
abbrev count_from : ℕ → List Registered → ℕ
count_from from [] = 0
count_from from (t ∷ ts) = let rest = count_from from ts in if leb from t.id then suc rest else rest

count_from-length : (from : ℕ) (ts : List Registered) → count_from from ts ≤ length ts
count_from-length from [] = omega arith
count_from-length from (t ∷ ts) = ground (arith, count_from-length from ts)

count_from_mono : (from : ℕ) (ts : List Registered) → count_from (from + 1) ts ≤ count_from from ts
count_from_mono from [] = omega arith
count_from_mono from (t ∷ ts) = ground (arith, count_from_mono from ts)

-- A task that has the id `from` counts from `from` on, and no longer behind it.
count_from_taken :
    (from : ℕ) (ts : List Registered)
    → contains_key ts from ≡ true
    → count_from (from + 1) ts < count_from from ts
count_from_taken from [] h = ground arith
count_from_taken from (t ∷ ts) h = elim (Bool-cases (t.id == from)) [
  | inl e ↦ ground (arith, count_from_mono from ts)
  | inr e ↦ ground (arith, count_from_taken from ts (ground arith))
]

id_loop-fresh :
    (rounds : ℕ) (ts : List Registered) (new_id : ℕ)
    → count_from new_id ts ≤ rounds
    → new_id + rounds < u32_mod
    → contains_key ts (id_loop rounds ts new_id) ≡ false
unfolding id_loop
id_loop-fresh zero ts new_id le room = elim (Bool-cases (contains_key ts new_id)) [
  | inl e ↦ absurd (omega (arith, count_from_taken new_id ts e))
  | inr e ↦ e
]
id_loop-fresh (suc rounds) ts new_id le room = elim (Bool-cases (contains_key ts new_id)) [
  | inl e ↦
      let fewer = count_from_taken new_id ts e in
      let fits : add_u32 new_id 1 ≡ new_id + 1 = omega arith in
      rw (e, fits) (id_loop-fresh rounds ts (new_id + 1) (omega arith) (omega arith))
  | inr e ↦ rw e e
]

-- The search for an id ends at one that no task has, if no id is asked for and twice the number
-- of tasks and one fit into 32 bits.
pub next_task_id-fresh :
    (ts : List Registered)
    → length ts + length ts + 1 < u32_mod
    → contains_key ts (next_task_id ts none) ≡ false
unfolding next_task_id
next_task_id-fresh ts room =
    let start : add_u32 (as_u32 (length ts)) 1 ≡ length ts + 1 = omega arith in
    rw start (
      id_loop-fresh (length ts) ts (length ts + 1) (count_from-length (length ts + 1) ts)
        (omega arith))

-- No two tasks have one specification.
abbrev pub DistinctSpecs : List Registered → Type 0
DistinctSpecs [] = Unit
DistinctSpecs (t ∷ ts) = (any (has_key (identity_key t.spec)) ts ≡ false) × DistinctSpecs ts

has_key_sym :
    (s t : Registered)
    → has_key (identity_key s.spec) t ≡ false
    → has_key (identity_key t.spec) s ≡ false
has_key_sym s t h = ground (
  arith,
  eq_iff (identity_key s.spec) (identity_key t.spec),
  eq_iff (identity_key t.spec) (identity_key s.spec),
)

any-insert_task :
    (p : Registered → Bool) (entry : Registered) (ts : List Registered)
    → p entry ≡ false
    → any p ts ≡ false
    → any p (insert_task entry ts) ≡ false
unfolding insert_task
any-insert_task p entry [] h k = ground arith
any-insert_task p entry (t ∷ ts) h k = ground (arith, any-insert_task p entry ts h (ground arith))

insert_task-DistinctSpecs :
    (entry : Registered) (ts : List Registered)
    → any (has_key (identity_key entry.spec)) ts ≡ false
    → DistinctSpecs ts
    → DistinctSpecs (insert_task entry ts)
unfolding insert_task
insert_task-DistinctSpecs entry [] k d = (refl, tt)
insert_task-DistinctSpecs entry (t ∷ ts) k d = elim (Bool-cases (t.id == entry.id)) [
  | inl e ↦ rw e (ground arith, d.1)
  | inr e ↦ rw e (
    any-insert_task _ entry ts (has_key_sym entry t (ground arith)) d.0,
    insert_task-DistinctSpecs entry ts (ground arith) d.1,
  )
]

get_task-insert_task :
    (entry : Registered) (ts : List Registered) (id : ℕ)
    → get_task (insert_task entry ts) id ≡ (if entry.id == id then some entry else get_task ts id)
unfolding insert_task
get_task-insert_task entry [] id = ground arith
get_task-insert_task entry (t ∷ ts) id = ground (arith, get_task-insert_task entry ts id)

-- What adding a task gives: an error and the tasks as they were, or an id, under which the new task
-- is then found, while every other id finds what it found before.
abbrev pub Added :
    HttpRequestOptions
    → TaskRequest
    → Option (List SegmentRequest)
    → List Registered
    → List Registered
    → Result ℕ
    → Type 0
Added defaults request workers tasks after (err e) = after ≡ tasks
Added defaults request workers tasks after (ok id) =
    (any (has_key (identity_key request.spec)) tasks ≡ false)
    × (id ≡ next_task_id tasks request.id)
    × ((j : ℕ)
        → get_task after j
          ≡ (if id == j then some (registered defaults id request workers) else get_task tasks j))

registered_id :
    (defaults : HttpRequestOptions) (id : ℕ) (request : TaskRequest)
    (workers : Option (List SegmentRequest))
    → ((registered defaults id request workers).id ≡ id)
      × ((registered defaults id request workers).spec ≡ request.spec)
      × ((registered defaults id request workers).task.status
          ≡ unwrap_or request.status Status.pending)
unfolding registered new_task
registered_id defaults id request none = (refl, refl, refl)
registered_id defaults id request (some ws) = (refl, refl, refl)

-- Adding a task to a manager whose tasks have distinct specifications keeps them distinct. An
-- error leaves the tasks as they were; otherwise no task had the specification, the id is the one
-- that `next_task_id` gives, the new task is found under it, and every other id finds what it
-- found before.
pub add_task_with_workers-DistinctSpecs :
    (defaults : HttpRequestOptions) (answers : InitAnswers) (request : TaskRequest)
    (workers : Option (List SegmentRequest)) (tasks : List Registered)
    → DistinctSpecs tasks
    → let r = add_task_with_workers defaults answers request workers tasks in
      DistinctSpecs r.0 × Added defaults request workers tasks r.0 r.1
unfolding add_task_with_workers
add_task_with_workers-DistinctSpecs defaults answers request workers tasks d =
    elim (Bool-cases (any (has_key (identity_key request.spec)) tasks)) [
      | inl e ↦ rw e (d, refl)
      | inr e ↦ rw e (saved (init answers) e)
    ]
  where
    id : ℕ
    id = next_task_id tasks request.id

    entry : Registered
    entry = registered defaults id request workers

    same :
        (entry.id ≡ id)
        × (entry.spec ≡ request.spec)
        × (entry.task.status ≡ unwrap_or request.status Status.pending)
    same = registered_id defaults id request workers

    saved :
        (answer : Result (Unit {0}))
        → any (has_key (identity_key request.spec)) tasks ≡ false
        → let r = register id entry tasks answer in
          DistinctSpecs r.0 × Added defaults request workers tasks r.0 r.1
    saved (err e) k = (d, refl)
    saved (ok _) k = (
      insert_task-DistinctSpecs entry tasks (rw same.1 k) d,
      (k, refl, λ j. get_task-insert_task entry tasks j ∙ rw same.0),
    )

-- Every entry satisfies a predicate, also behind a new one that does.
All-insert_task :
    (P : Registered → Type 0) (entry : Registered) (ts : List Registered)
    → P entry
    → All P ts
    → All P (insert_task entry ts)
unfolding insert_task
All-insert_task P entry [] p ps = (p, tt)
All-insert_task P entry (t ∷ ts) p ps = elim (Bool-cases (t.id == entry.id)) [
  | inl e ↦ rw e (p, ps.1)
  | inr e ↦ rw e (ps.0, All-insert_task P entry ts p ps.1)
]

abbrev pub IsIdle : Registered → Type 0
IsIdle t = is_active t.task.status ≡ false

add_task_with_workers-IsIdle :
    (defaults : HttpRequestOptions) (answers : InitAnswers) (request : TaskRequest)
    (workers : Option (List SegmentRequest)) (tasks : List Registered)
    → is_active (unwrap_or request.status Status.pending) ≡ false
    → All IsIdle tasks
    → All IsIdle (add_task_with_workers defaults answers request workers tasks).0
unfolding add_task_with_workers
add_task_with_workers-IsIdle defaults answers request workers tasks idle h =
    elim (Bool-cases (any (has_key (identity_key request.spec)) tasks)) [
      | inl e ↦ rw e h
      | inr e ↦ rw e (saved (init answers))
    ]
  where
    id : ℕ
    id = next_task_id tasks request.id

    entry : Registered
    entry = registered defaults id request workers

    saved : (answer : Result (Unit {0})) → All IsIdle (register id entry tasks answer).0
    saved (err e) = h
    saved (ok _) =
        All-insert_task IsIdle entry tasks (rw (registered_id defaults id request workers).2 idle) h

build_restore_plan-idle :
    (decoders : Decoders) (files : FileSystem) (bundle : StoredBundle)
    → is_active (restored_status (build_restore_plan decoders files bundle)) ≡ false
unfolding build_restore_plan
build_restore_plan-idle decoders files bundle =
    let request =
      db_task_to_request decoders bundle.task bundle.pieces bundle.blocks bundle.checksums in
    (restore_plan-status (inspect_restore_file_state files request.file_path) bundle.task.id request
      (db_workers_to_requests bundle.workers)).0

-- Whatever the store holds and answers: restoring tasks into a manager whose tasks have distinct
-- specifications, and are neither running nor preparing, gives one of which this holds too.
pub restore_tasks-IsIdle :
    (decoders : Decoders) (files : FileSystem) (defaults : HttpRequestOptions)
    (answers : StoredBundle → InitAnswers) (bundles : List StoredBundle) (tasks : List Registered)
    → DistinctSpecs tasks
    → All IsIdle tasks
    → let restored = restore_tasks decoders files defaults answers bundles tasks in
      DistinctSpecs restored × All IsIdle restored
unfolding restore_tasks
restore_tasks-IsIdle decoders files defaults answers [] tasks d h = (d, h)
restore_tasks-IsIdle decoders files defaults answers (bundle ∷ bundles) tasks d h =
    let plan = build_restore_plan decoders files bundle in
    restore_tasks-IsIdle decoders files defaults answers bundles _
      (add_task_with_workers-DistinctSpecs defaults (answers bundle) plan.task_request plan.workers
        tasks d).0
      (add_task_with_workers-IsIdle defaults (answers bundle) plan.task_request plan.workers tasks
        (build_restore_plan-idle decoders files bundle) h)
