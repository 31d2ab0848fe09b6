-- ===== src/Examples/Kept.antt =====
-- The workers of a task of 100 bytes, stored by src/storage/mapping.rs and kept by src/recovery.rs.
use paradown.Prelude.{ℕ, ◌≡◌, refl, inl, some, none, true, List, [], ◌∷◌, map, arith}
use paradown.Status.{Status}
use paradown.Recovery.{sanitize_worker_requests, known_source_ids}
use paradown.Recovery.Kept.{Planned, restored, sanitize_worker_requests-worker_to_db}
use paradown.Storage.Mapping.{db_workers_to_requests}
use paradown.Storage.Workers.{LiveWorker, worker_to_db}

abbrev live : ℕ → ℕ → ℕ → ℕ → Status → LiveWorker
live id start end downloaded status = record {
  worker = record {
    id = id;
    source_id = "origin";
    length_known = true;
    start = start;
    end = end;
    downloaded_size = downloaded;
    status = status;
  };
  lane = record {
    lane_id = id;
    source_id = "origin";
    length_known = true;
    piece_start = id;
    piece_end = id;
    block_start = 0;
    block_end = 1;
    start = start;
    end = end;
  };
  updated_at = none;
}

abbrev lives : List LiveWorker
lives = live 0 0 49 50 Status.completed ∷ live 1 50 99 10 Status.running ∷ []

lives-Planned : Planned (known_source_ids none) 0 0 lives 100
unfolding known_source_ids
lives-Planned = (
  refl,
  omega arith,
  record {
    range = omega arith;
    progress = omega arith;
    source = inl refl;
    pieces = omega arith;
    blocks = omega arith;
  },
  (
    refl,
    omega arith,
    record {
      range = omega arith;
      progress = omega arith;
      source = inl refl;
      pieces = omega arith;
      blocks = omega arith;
    },
    refl,
  ),
)

sanitize_worker_requests-worker_to_db_example :
    sanitize_worker_requests 2 (some 100) none (db_workers_to_requests (map (worker_to_db 2) lives))
    ≡ map (restored 2) lives
sanitize_worker_requests-worker_to_db_example =
    sanitize_worker_requests-worker_to_db 2 100 none lives (omega arith) lives-Planned
