-- ===== src/Stats/Totals.antt =====
-- The bytes that src/stats.rs counts: the total is what the workers count together.
use paradown.Prelude.{ℕ, ◌+◌, ◌%◌, ◌≡◌, List, [], ◌∷◌, arith, ◌==◌, Bool-cases, inl, inr, u64_mod}
use paradown.Stats.{Speeds, Stats, WorkerStats, update_entry, update_worker}

abbrev pub sum_bytes : List (ℕ × WorkerStats) → ℕ
sum_bytes [] = 0
sum_bytes ((id, w) ∷ rest) = w.downloaded_bytes + sum_bytes rest

sum_bytes-update_entry :
    (speeds : Speeds) (now worker_id bytes : ℕ) (entries : List (ℕ × WorkerStats))
    → sum_bytes (update_entry speeds now worker_id bytes entries) % u64_mod
      ≡ (sum_bytes entries + bytes) % u64_mod
unfolding update_entry
sum_bytes-update_entry speeds now worker_id bytes [] = omega arith
sum_bytes-update_entry speeds now worker_id bytes ((id, w) ∷ rest) =
    elim (Bool-cases (id == worker_id)) [
      | inl e ↦ rw e (omega arith)
      | inr e ↦ rw e (omega (arith, sum_bytes-update_entry speeds now worker_id bytes rest))
    ]

-- If the total of the statistics is the sum of the workers' bytes modulo 2^64, it is so after
-- `update_worker`, too.
pub update_worker-sum_bytes :
    (speeds : Speeds) (now worker_id bytes : ℕ) (s : Stats)
    → s.total_bytes ≡ sum_bytes s.workers % u64_mod
    → (update_worker speeds now worker_id bytes s).total_bytes
      ≡ sum_bytes (update_worker speeds now worker_id bytes s).workers % u64_mod
unfolding update_worker
update_worker-sum_bytes speeds now worker_id bytes s h =
    omega (arith, sum_bytes-update_entry speeds now worker_id bytes s.workers)
