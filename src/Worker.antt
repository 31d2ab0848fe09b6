-- ===== src/Worker.antt =====
-- src/worker/mod.rs: a worker, and the calls that its task makes of it. The rest of src/worker and
-- src/transfer is in the child modules.
pub mod Retry
pub mod Driver
pub mod Round
pub mod Run
pub mod Checks
pub mod Streams
pub mod Outcome
pub mod Ends
pub mod Written
use paradown.Prelude.{
  ℕ, ◌-◌, String, Bool, true, false, not, ◌||◌, Option, some, none, List, [], ◌∷◌, ◌++◌,
  if◌then◌else◌, unwrap_or, saturating_add_u64,
}
use paradown.Status.{Status, pending, is_terminal}
use paradown.Events.{Event}
use paradown.Domain.Source.{SourceDescriptor}
use paradown.Planner.{ExecutionLaneAssignment}

-- The fields of a worker that change or that its run reads. `sent` collects the events that
-- `emit_worker_event` sends.
pub record WorkerState : Type 0 where
  pub id : ℕ
  pub source : SourceDescriptor
  pub lane : ExecutionLaneAssignment
  pub length_known : Bool
  pub start : ℕ
  pub end : ℕ
  pub downloaded_size : ℕ
  pub total_size : ℕ
  pub paused : Bool
  pub canceled : Bool
  pub deleted : Bool
  pub status : Status
  pub is_running : Bool
  pub sent : List Event

abbrev is_paused : Status → Bool
is_paused Status.paused = true
is_paused _ = false

abbrev is_canceled : Status → Bool
is_canceled Status.canceled = true
is_canceled _ = false

abbrev is_deleted : Status → Bool
is_deleted Status.deleted = true
is_deleted _ = false

-- Worker::new
unfoldable pub new_worker_state :
    ℕ → SourceDescriptor → ExecutionLaneAssignment → Option ℕ → Option Status → WorkerState
new_worker_state id source lane downloaded_size status = record {
  id = id;
  source = source;
  lane = lane;
  length_known = lane.length_known;
  start = lane.start;
  end = lane.end;
  downloaded_size = unwrap_or downloaded_size 0;
  total_size = saturating_add_u64 (lane.end - lane.start) 1;
  paused = is_paused initial;
  canceled = is_canceled initial;
  deleted = is_deleted initial;
  status = initial;
  is_running = false;
  sent = [];
}
  where
    initial : Status
    initial = unwrap_or status pending

abbrev pub set_status : Status → WorkerState → WorkerState
set_status status w = record w { status = status }

abbrev pub emit : Event → WorkerState → WorkerState
emit event w = record w { sent = w.sent ++ event ∷ [] }

unfoldable pub switch_source : SourceDescriptor → WorkerState → WorkerState
switch_source source w = record w {
  source = source;
  lane = record w.lane { source_id = source.id };
}

unfoldable pub should_stop_gracefully : WorkerState → Bool
should_stop_gracefully w = w.deleted || w.canceled

-- What the match on the status does behind `paused.store(true)`.
abbrev pub pause_from : Status → WorkerState → WorkerState
pause_from Status.paused w = w
pause_from status w =
    if is_terminal status then w else emit (Event.pause w.id) (set_status Status.paused w)

unfoldable pub pause : WorkerState → WorkerState
unfolding is_terminal
pause w = pause_from w.status (record w { paused = true })

-- `resume` but for the start of a worker that is not running; the Boolean says whether it is to be
-- started.
unfoldable pub resume_flags : WorkerState → WorkerState × Bool
unfolding is_terminal
resume_flags w =
    if is_terminal w.status
    then (w, false)
    else (record w { paused = false; status = Status.running }, not w.is_running)

unfoldable pub cancel : WorkerState → WorkerState
cancel w = emit (Event.cancel w.id) (record w { canceled = true; status = Status.canceled })

unfoldable pub delete : WorkerState → WorkerState
delete w = emit (Event.delete w.id) (record w { deleted = true; status = Status.deleted })

-- The calls that the task makes while the worker runs. A running worker is not started again.
pub data Control : Type 0 where
  pause_call resume_call cancel_call delete_call : Control

unfoldable pub call : Control → WorkerState → WorkerState
unfolding pause resume_flags cancel delete
call pause_call w = pause w
call resume_call w = (resume_flags w).0
call cancel_call w = cancel w
call delete_call w = delete w

unfoldable pub apply_calls : List Control → WorkerState → WorkerState
unfolding call
apply_calls [] w = w
apply_calls (c ∷ cs) w = apply_calls cs (call c w)

-- How a check of the flags goes on. `waiting` is a worker that is still paused when the polls that
-- are looked at are over.
pub data Flow : Type 0 where
  proceed stop waiting : Flow

-- `while self.paused`: before each poll the flags are read, after it the calls of 200 ms are made.
unfoldable pub wait_until_resumed : List (List Control) → WorkerState → WorkerState × Flow
unfolding should_stop_gracefully apply_calls
wait_until_resumed [] w =
    (w, if w.paused then (if should_stop_gracefully w then stop else waiting) else proceed)
wait_until_resumed (calls ∷ polls) w =
    let rest = wait_until_resumed polls (apply_calls calls w) in
    if not w.paused then (w, proceed) else if should_stop_gracefully w then (w, stop) else rest

-- What is called before a check, and in each poll while the worker is paused.
pub record Point : Type 0 where
  pub calls : List Control
  pub polls : List (List Control)

-- `should_stop_gracefully` and then `wait_until_resumed`, as the loops call them.
unfoldable pub checkpoint : Point → WorkerState → WorkerState × Flow
unfolding wait_until_resumed
checkpoint point w =
    let called = apply_calls point.calls w in
    if should_stop_gracefully called then (called, stop) else wait_until_resumed point.polls called

-- src/worker/transfer.rs
unfoldable pub expected_length : WorkerState → ℕ
expected_length w = if not w.length_known then 0 else saturating_add_u64 (w.end - w.start) 1
