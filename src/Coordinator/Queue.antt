-- ===== src/Coordinator/Queue.antt =====
-- The pending queue of src/coordinator/queue.rs.
use paradown.Prelude.{
  ℕ, true, false, ◌&&◌, ◌||◌, ◌≡◌, refl, inl, inr, List, [], ◌∷◌, ◌++◌, arith, ◌==◌, Bool-cases,
}
use paradown.Coordinator.{
  PendingAction, start_action, resume_action, retry_action, Manager, same_action, queued,
  enqueue_task_action, remove_first, remove_from_queue,
}

-- No action of a task is queued twice.
abbrev pub Unique : List (ℕ × PendingAction) → Type 0
Unique [] = Unit
Unique ((id, action) ∷ rest) = (queued id action rest ≡ false) × Unique rest

queued-append :
    (id : ℕ) (action : PendingAction) (q : List (ℕ × PendingAction)) (id' : ℕ)
    (action' : PendingAction)
    → queued id action (q ++ (id', action') ∷ [])
      ≡ queued id action q || (id' == id && same_action action' action)
queued-append id action [] id' action' = ground arith
queued-append id action ((i, a) ∷ q) id' action' =
    ground (arith, queued-append id action q id' action')

same_action_sym : (a b : PendingAction) → same_action a b ≡ same_action b a
same_action_sym start_action start_action = refl
same_action_sym start_action resume_action = refl
same_action_sym start_action retry_action = refl
same_action_sym resume_action start_action = refl
same_action_sym resume_action resume_action = refl
same_action_sym resume_action retry_action = refl
same_action_sym retry_action start_action = refl
same_action_sym retry_action resume_action = refl
same_action_sym retry_action retry_action = refl

same_action_eq :
    (a b c : PendingAction) → same_action a b ≡ true → same_action a c ≡ same_action b c
same_action_eq start_action start_action c h = refl
same_action_eq resume_action resume_action c h = refl
same_action_eq retry_action retry_action c h = refl
same_action_eq start_action resume_action c h = cc
same_action_eq start_action retry_action c h = cc
same_action_eq resume_action start_action c h = cc
same_action_eq resume_action retry_action c h = cc
same_action_eq retry_action start_action c h = cc
same_action_eq retry_action resume_action c h = cc

Unique-append :
    (id : ℕ) (action : PendingAction) (q : List (ℕ × PendingAction))
    → Unique q
    → queued id action q ≡ false
    → Unique (q ++ (id, action) ∷ [])
Unique-append id action [] u h = (refl, tt)
Unique-append id action ((i, a) ∷ q) u h = (
  ground (arith, queued-append i a q id action, same_action_sym a action),
  Unique-append id action q u.1 (ground arith),
)

queued-remove_first :
    (id : ℕ) (action : PendingAction) (i : ℕ) (q : List (ℕ × PendingAction))
    → queued id action q ≡ false
    → queued id action (remove_first i q) ≡ false
unfolding remove_first
queued-remove_first id action i [] h = refl
queued-remove_first id action i ((j, a) ∷ q) h = ground (arith, queued-remove_first id action i q)

Unique-remove_first : (i : ℕ) (q : List (ℕ × PendingAction)) → Unique q → Unique (remove_first i q)
unfolding remove_first
Unique-remove_first i [] u = tt
Unique-remove_first i ((j, a) ∷ q) u = elim (Bool-cases (j == i)) [
  | inl e ↦ rw e u.1
  | inr e ↦ rw e (queued-remove_first j a i q u.0, Unique-remove_first i q u.1)
]

-- Queueing keeps a queue without duplicates free of them, and afterwards the action is queued;
-- removing a task keeps it free of duplicates too.
pub enqueue_task_action-Unique :
    (id : ℕ) (action : PendingAction) (m : Manager)
    → Unique m.queue
    → Unique (enqueue_task_action id action m).queue
      × (queued id action (enqueue_task_action id action m).queue ≡ true)
      × Unique (remove_from_queue id m).queue
unfolding enqueue_task_action remove_from_queue
enqueue_task_action-Unique id action m u = elim (Bool-cases (queued id action m.queue)) [
  | inl e ↦ rw e (u, e, Unique-remove_first id m.queue u)
  | inr e ↦ rw e (
    Unique-append id action m.queue u e,
    ground (arith, queued-append id action m.queue id action, same_refl action),
    Unique-remove_first id m.queue u,
  )
]
  where
    same_refl : (a : PendingAction) → same_action a a ≡ true
    same_refl start_action = refl
    same_refl resume_action = refl
    same_refl retry_action = refl
