-- ===== src/Status.antt =====
-- src/status.rs: the states of a task and of a worker, and their stored names.
pub mod Names
use paradown.Prelude.{String, Bool, true, false, Option, some, none, str_eq, if◌then◌else◌}
use paradown.Failure.{Error, other}

pub data Status : Type 0 where
  pending preparing running paused completed canceled : Status
  failed : Error → Status
  deleted : Status

-- Display
unfoldable pub to_string : Status → String
to_string pending = "Pending"
to_string preparing = "Preparing"
to_string running = "Running"
to_string paused = "Paused"
to_string completed = "Completed"
to_string canceled = "Canceled"
to_string (failed e) = "Failed"
to_string deleted = "Deleted"

unfoldable pub is_terminal : Status → Bool
is_terminal completed = true
is_terminal canceled = true
is_terminal (failed e) = true
is_terminal deleted = true
is_terminal _ = false

-- FromStr
unfoldable pub from_str : String → Option Status
from_str s =
    if str_eq s "Pending"
    then some pending
    else if str_eq s "Running"
    then some running
    else if str_eq s "Preparing"
    then some preparing
    else if str_eq s "Paused"
    then some paused
    else if str_eq s "Completed"
    then some completed
    else if str_eq s "Failed"
    then some (failed (other ""))
    else if str_eq s "Canceled"
    then some canceled
    else if str_eq s "Deleted"
    then some deleted
    else none
