-- ===== src/Stats.antt =====
-- src/stats.rs: the counters of a task. Instants are numbers of nanoseconds; what is computed in
-- floating point (speeds and the elapsed seconds) is a parameter, and so is the time.
pub mod Totals
use paradown.Prelude.{
  ℕ, ◌-◌, Bool, Option, some, none, List, [], ◌∷◌, ◌==◌, if◌then◌else◌, length, add_u64, or_else,
}

pub record WorkerStats : Type 0 where
  pub downloaded_bytes : ℕ
  pub last_update : ℕ
  pub current_speed_bps : ℕ

pub record Stats : Type 0 where
  pub started_at : Option ℕ
  pub total_bytes : ℕ
  pub workers : List (ℕ × WorkerStats)
  pub successful_downloads : ℕ
  pub failed_downloads : ℕ
  pub retry_count : ℕ
  pub resume_attempts : ℕ
  pub resume_hits : ℕ

unfoldable pub new_stats : Stats
new_stats = record {
  started_at = none;
  total_bytes = 0;
  workers = [];
  successful_downloads = 0;
  failed_downloads = 0;
  retry_count = 0;
  resume_attempts = 0;
  resume_hits = 0;
}

-- The first start counts.
unfoldable pub mark_started : ℕ → Stats → Stats
mark_started now s = record s { started_at = or_else s.started_at (some now) }

-- `fetch_add` wraps around.
unfoldable pub record_success : Stats → Stats
record_success s = record s { successful_downloads = add_u64 s.successful_downloads 1 }

unfoldable pub record_failure : Stats → Stats
record_failure s = record s { failed_downloads = add_u64 s.failed_downloads 1 }

unfoldable pub record_retry : Stats → Stats
record_retry s = record s { retry_count = add_u64 s.retry_count 1 }

unfoldable pub record_resume_attempt : Stats → Stats
record_resume_attempt s = record s { resume_attempts = add_u64 s.resume_attempts 1 }

unfoldable pub record_resume_hit : Stats → Stats
record_resume_hit s = record s { resume_hits = add_u64 s.resume_hits 1 }

-- The smoothed speed from the one before, the bytes and the time since the last update; and the
-- average from the bytes and the time since the start.
pub record Speeds : Type 0 where
  pub smoothed : ℕ → ℕ → ℕ → ℕ
  pub average : ℕ → ℕ → ℕ

-- The entry of a worker that is there.
abbrev pub modified : Speeds → ℕ → ℕ → WorkerStats → WorkerStats
modified speeds now bytes w = record {
  downloaded_bytes = add_u64 w.downloaded_bytes bytes;
  last_update = now;
  current_speed_bps = speeds.smoothed w.current_speed_bps bytes (now - w.last_update);
}

-- HashMap::entry(..).and_modify(..).or_insert(..)
unfoldable pub update_entry : Speeds → ℕ → ℕ → ℕ → List (ℕ × WorkerStats) → List (ℕ × WorkerStats)
update_entry speeds now worker_id bytes [] =
    (worker_id, record { downloaded_bytes = bytes; last_update = now; current_speed_bps = 0 }) ∷ []
update_entry speeds now worker_id bytes ((id, w) ∷ rest) =
    let others = update_entry speeds now worker_id bytes rest in
    if id == worker_id then (id, modified speeds now bytes w) ∷ rest else (id, w) ∷ others

unfoldable pub update_worker : Speeds → ℕ → ℕ → ℕ → Stats → Stats
unfolding update_entry mark_started
update_worker speeds now worker_id bytes s =
    let started = mark_started now s in
    record started {
      total_bytes = add_u64 s.total_bytes bytes;
      workers = update_entry speeds now worker_id bytes s.workers;
    }

pub record StatsSnapshot : Type 0 where
  pub total_bytes : ℕ
  pub total_speed_bps : ℕ
  pub average_speed_bps : ℕ
  pub worker_count : ℕ
  pub successful_downloads : ℕ
  pub failed_downloads : ℕ
  pub retry_count : ℕ
  pub resume_attempts : ℕ
  pub resume_hits : ℕ

abbrev pub sum_speeds : List (ℕ × WorkerStats) → ℕ
sum_speeds [] = 0
sum_speeds ((id, w) ∷ rest) = add_u64 w.current_speed_bps (sum_speeds rest)

abbrev average_since : Speeds → ℕ → ℕ → Option ℕ → ℕ
average_since speeds now total none = 0
average_since speeds now total (some started) = speeds.average total (now - started)

-- The field `elapsed`, seconds in floating point, is left out.
unfoldable pub snapshot : Speeds → ℕ → Stats → StatsSnapshot
snapshot speeds now s = record {
  total_bytes = s.total_bytes;
  total_speed_bps = sum_speeds s.workers;
  average_speed_bps = average_since speeds now s.total_bytes s.started_at;
  worker_count = length s.workers;
  successful_downloads = s.successful_downloads;
  failed_downloads = s.failed_downloads;
  retry_count = s.retry_count;
  resume_attempts = s.resume_attempts;
  resume_hits = s.resume_hits;
}
