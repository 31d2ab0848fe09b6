-- ===== src/Events.antt =====
-- src/events.rs: what workers and tasks tell. The torrent engine's diagnostics are texts here.
use paradown.Prelude.{ℕ, String}
use paradown.Failure.{Error}

pub data Event : Type 0 where
  pending preparing start pause complete cancel delete : ℕ → Event
  progress : ℕ → ℕ → ℕ → Event
  error : ℕ → Error → Event
  torrent_diagnostic : ℕ → String → Event
