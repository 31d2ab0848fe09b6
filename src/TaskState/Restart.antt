-- ===== src/TaskState/Restart.antt =====
-- Which steps of src/job/state.rs a status allows.
use paradown.Failure.{Result, ok, err}
use paradown.Status.{Status}

abbrev pub IsError : Result (Unit {0}) → Type 0
IsError (ok _) = ⊥
IsError (err e) = Unit
