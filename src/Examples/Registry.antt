-- ===== src/Examples/Registry.antt =====
-- src/coordinator/registry.rs at a manager of two tasks with the ids 3 and 1.
use paradown.Prelude.{◌≡◌, refl, none, List, [], ◌∷◌, arith, false, All}
use paradown.Failure.{ok}
use paradown.Domain.Http.{no_options}
use paradown.Domain.Spec.{https, identity_key}
use paradown.Requests.{TaskRequest, task_request}
use paradown.Coordinator.Registry.{
  Registered, InitAnswers, contains_key, next_task_id, id_loop, registered, add_task_with_workers,
  restore_tasks,
}
use paradown.Coordinator.Registry.Laws.{
  DistinctSpecs, IsIdle, Added, next_task_id-fresh, add_task_with_workers-DistinctSpecs,
  restore_tasks-IsIdle,
}
use paradown.Examples.Recovery.{bundle, decoders, no_files}

abbrev first_request : TaskRequest
first_request = task_request (https "https://example.com/a.iso")

abbrev second_request : TaskRequest
second_request = task_request (https "https://example.com/b.iso")

abbrev third_request : TaskRequest
third_request = task_request (https "https://example.com/c.iso")

abbrev tasks : List Registered
tasks =
    registered no_options 3 first_request none ∷ registered no_options 1 second_request none ∷ []

abbrev saved : InitAnswers
saved = record { saved_task = ok tt; saved_checksums = ok tt }

next_task_id-fresh_example : contains_key tasks 4 ≡ false
unfolding next_task_id id_loop registered
next_task_id-fresh_example = next_task_id-fresh tasks (omega arith)

tasks-DistinctSpecs : DistinctSpecs tasks
unfolding registered task_request identity_key
tasks-DistinctSpecs = (refl, (refl, tt))

add_task_with_workers-DistinctSpecs_example :
    let r = add_task_with_workers no_options saved third_request none tasks in
    DistinctSpecs r.0 × Added no_options third_request none tasks r.0 r.1
add_task_with_workers-DistinctSpecs_example =
    add_task_with_workers-DistinctSpecs no_options saved third_request none tasks
      tasks-DistinctSpecs

restore_tasks-IsIdle_example :
    let restored =
      restore_tasks decoders no_files no_options (λ _. saved) (bundle ∷ bundle ∷ []) [] in
    DistinctSpecs restored × All IsIdle restored
restore_tasks-IsIdle_example =
    restore_tasks-IsIdle decoders no_files no_options (λ _. saved) (bundle ∷ bundle ∷ []) [] tt tt
