-- ===== src/Coordinator/Spawn.antt =====
-- The fuel of `spawn_next_task`: as many rounds as actions are queued are enough.
use paradown.Prelude.{
  ℕ, zero, suc, ◌≤◌, ◌≡◌, refl, ap, ◌∙◌, Option, some, none, List, [], ◌∷◌, arith, length,
  Bool-cases, inl, inr, ◌==◌,
}
use paradown.Failure.{Result, ok, err}
use paradown.Status.{Status}
use paradown.Coordinator.{
  PendingAction, Entry, Manager, World, get_task, settle, if_failed, run_with_permit,
  run_task_transition, spawn_loop,
}

-- Two functions that agree on managers with this queue.
abbrev Agree : List (ℕ × PendingAction) → (Manager → Manager) → (Manager → Manager) → Type 0
Agree queue f g = (m : Manager) → m.queue ≡ queue → f m ≡ g m

if_failed_congr :
    (id : ℕ) (s : Status) (r : Result (Unit {0})) (f g : Manager → Manager) (m : Manager)
    → Agree m.queue f g
    → if_failed r f (settle id s r m) ≡ if_failed r g (settle id s r m)
unfolding settle
if_failed_congr id s (ok _) f g m h = refl
if_failed_congr id s (err e) f g m h = h _ refl

run_with_permit_congr :
    (world : World) (action : PendingAction) (id : ℕ) (o : Option Entry) (f g : Manager → Manager)
    (m : Manager)
    → Agree m.queue f g
    → (run_with_permit world action id o f m).0 ≡ (run_with_permit world action id o g m).0
unfolding run_with_permit
run_with_permit_congr world action id none f g m h = refl
run_with_permit_congr world action id (some x) f g m h = if_failed_congr id _ _ f g m h

run_task_transition_congr :
    (world : World) (action : PendingAction) (id : ℕ) (f g : Manager → Manager) (m : Manager)
    → Agree m.queue f g
    → (run_task_transition world action id f m).0 ≡ (run_task_transition world action id g m).0
unfolding run_task_transition
run_task_transition_congr world action id f g m h = elim (Bool-cases (m.permits == 0)) [
  | inl e ↦ rw e
  | inr e ↦ rw e (run_with_permit_congr world action id (get_task m.tasks id) f g m h)
]

-- With at least as much fuel as there are queued actions, spawning does what it does with exactly
-- as much: the fuel of `spawn_next_task` never runs out.
pub spawn_loop_enough :
    (fuel : ℕ) (world : World) (queue : List (ℕ × PendingAction)) (m : Manager)
    → length queue ≤ fuel
    → spawn_loop fuel world queue m ≡ spawn_loop (length queue) world queue m
unfolding spawn_loop
spawn_loop_enough zero world [] m h = refl
spawn_loop_enough (suc fuel) world [] m h = refl
spawn_loop_enough zero world (x ∷ rest) m h = absurd (omega arith)
spawn_loop_enough (suc fuel) world ((id, action) ∷ rest) m h =
    run_task_transition_congr world action id _ _ (record m { queue = rest })
      (λ m' e.
        spawn_loop_enough fuel world m'.queue m' (omega (arith, ap length e))
        ∙ ap (λ n. spawn_loop n world m'.queue m') (ap length e))
