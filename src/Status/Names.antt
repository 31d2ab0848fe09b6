-- ===== src/Status/Names.antt =====
-- A stored status name, src/status.rs, read back.
use paradown.Prelude.{String, ◌≡◌, refl, some, eq_iff, arith}
use paradown.Failure.{other}
use paradown.Status.{Status, pending, failed, to_string, is_terminal, from_str}

-- What a status is after it was written and read: the error of a failure is forgotten.
abbrev pub stored : Status → Status
stored (failed e) = failed (other "")
stored s = s

-- Reading a written status gives it back, but for the error of a failure; whether it is terminal
-- is kept.
pub from_str-to_string :
    (s : Status)
    → (from_str (to_string s) ≡ some (stored s)) × (is_terminal (stored s) ≡ is_terminal s)
unfolding from_str to_string is_terminal
from_str-to_string pending = (refl, refl)
from_str-to_string (failed e) = (refl, refl)
from_str-to_string _ = (refl, refl)

-- A text that is read as a status is the name of that status.
pub to_string-from_str : (t : String) (s : Status) → from_str t ≡ some s → to_string s ≡ t
unfolding from_str to_string
to_string-from_str t s h = ground (
  arith,
  eq_iff t "Pending",
  eq_iff t "Running",
  eq_iff t "Preparing",
  eq_iff t "Paused",
  eq_iff t "Completed",
  eq_iff t "Failed",
  eq_iff t "Canceled",
  eq_iff t "Deleted",
)
