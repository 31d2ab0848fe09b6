-- ===== src/Coordinator/Throttle.antt =====
-- `should_persist_progress` of src/coordinator/mod.rs. Times are numbers of milliseconds, which
-- never fall; the map's entry of the task is an option.
use paradown.Prelude.{
  ℕ, ◌-◌, ◌≤◌, Bool, true, false, ◌||◌, ◌⊎◌, inl, inr, Option, some, none, List, [], ◌∷◌, arith,
  leb, if◌then◌else◌, Bool-cases,
}

pub record ProgressPersistState : Type 0 where
  pub last_persisted_at : ℕ
  pub last_downloaded : ℕ

unfoldable pub should_persist_progress :
    ℕ → ℕ → ℕ → ℕ → Option ProgressPersistState → Option ProgressPersistState × Bool
should_persist_progress threshold interval now downloaded none =
    (some (record { last_persisted_at = now; last_downloaded = downloaded }), true)
should_persist_progress threshold interval now downloaded (some state) =
    let bytes_due = leb threshold (downloaded - state.last_downloaded) in
    let time_due = leb interval (now - state.last_persisted_at) in
    if bytes_due || time_due
    then (some (record { last_persisted_at = now; last_downloaded = downloaded }), true)
    else (some state, false)

-- Progress reports, each a time and a number of bytes: those that are saved.
unfoldable pub saved_reports : ℕ → ℕ → Option ProgressPersistState → List (ℕ × ℕ) → List (ℕ × ℕ)
unfolding should_persist_progress
saved_reports threshold interval state [] = []
saved_reports threshold interval state ((now, downloaded) ∷ reports) =
    let (state', due) = should_persist_progress threshold interval now downloaded state in
    let rest = saved_reports threshold interval state' reports in
    if due then (now, downloaded) ∷ rest else rest

-- Each saved report is due against the one before.
abbrev pub Spaced : ℕ → ℕ → ℕ → ℕ → List (ℕ × ℕ) → Type 0
Spaced threshold interval at bytes [] = Unit
Spaced threshold interval at bytes ((now, downloaded) ∷ rest) =
    ((threshold ≤ downloaded - bytes) ⊎ (interval ≤ now - at))
    × Spaced threshold interval now downloaded rest

-- Whatever progress is reported after a save: two saves in a row are apart by the threshold in
-- bytes or by the interval in time.
pub saved_reports-Spaced :
    (threshold interval at bytes : ℕ) (reports : List (ℕ × ℕ))
    → Spaced threshold interval at bytes (
        saved_reports threshold interval
          (some (record { last_persisted_at = at; last_downloaded = bytes }))
          reports)
unfolding saved_reports should_persist_progress
saved_reports-Spaced threshold interval at bytes [] = tt
saved_reports-Spaced threshold interval at bytes ((now, downloaded) ∷ reports) =
    elim (Bool-cases (leb threshold (downloaded - bytes) || leb interval (now - at))) [
      | inl e ↦ rw e (ground arith, saved_reports-Spaced threshold interval now downloaded reports)
      | inr e ↦ rw e (saved_reports-Spaced threshold interval at bytes reports)
    ]
