-- ===== src/Examples/Worker.antt =====
-- src/worker and src/transfer at a lane of four bytes in the files of src/payload's unit tests: the
-- first response breaks off after two bytes, the second sends the rest.
use paradown.Prelude.{
  ℕ, zero, suc, ◌+◌, ◌*◌, ◌%◌, ◌^◌, ◌≤◌, ◌<◌, ◌≡◌, ◌≢◌, ◌⊎◌, refl, ap, subst, true, false, List, [],
  ◌∷◌, some, none, arith, get_elem?,
}
use paradown.Failure.{Result, ok, err}
use paradown.Status.{completed}
use paradown.Domain.Source.{SourceDescriptor, http_origin, SourceKind}
use paradown.Planner.{ExecutionLaneAssignment}
use paradown.Probe.{ContentRange, parse_content_range}
use paradown.Text.{trim, strip_prefix, split_once, parse_unsigned, read_digits}
use paradown.Stats.{Stats, Speeds, new_stats, update_worker}
use paradown.Stats.Totals.{update_worker-sum_bytes, sum_bytes}
use paradown.Worker.{Point, new_worker_state, should_stop_gracefully, expected_length}
use paradown.Worker.Retry.{RetryConfig}
use paradown.Worker.Driver.{Reply, Chunk, received, broken}
use paradown.Worker.Round.{Context, Attempt, Run, answered, worker_of}
use paradown.Worker.Run.{start}
use paradown.Worker.Ends.{start-ends, start-IsWhole}
use paradown.Worker.Written.{Tiled, Holds, OnDisk, Serves, ServesChunks}
use paradown.Worker.Written.Rounds.{IsHonest}
use paradown.Worker.Written.Whole.{start-OnDisk, start-payload}
use paradown.Examples.Payload.{map, empty_disk}

abbrev config : RetryConfig
config = record {
  max_retries = 1;
  initial_delay = 1;
  max_delay = 30;
  scaled = λ initial exponent. initial * 100;
  factor_below_one = false;
}

abbrev origin : SourceDescriptor
origin = record {
  id = "origin";
  kind = SourceKind.https;
  locator = "https://example.com/file";
  metadata_only = false;
  request = none;
  resource_identity = none;
  capabilities = http_origin;
}

abbrev speeds : Speeds
speeds = record { smoothed = λ speed bytes time. speed; average = λ bytes time. 0 }

abbrev context : Context
context = record {
  retry = config;
  sources = record { primary_id = some "origin"; sources = origin ∷ [] };
  supports_range_requests = true;
  store = ok map;
  access = λ _. ok tt;
  speeds = speeds;
}

abbrev lane : ExecutionLaneAssignment
lane = record {
  lane_id = 0;
  source_id = "origin";
  length_known = true;
  piece_start = 0;
  piece_end = 1;
  block_start = 0;
  block_end = 1;
  start = 2;
  end = 5;
}

abbrev at_rest : Run
at_rest = record {
  transfer = record {
    worker = new_worker_state 0 origin lane none none;
    disk = empty_disk;
    stats = new_stats;
    reporter = record {
      emit_interval = 200;
      threshold = 1048576;
      last_emit = 0;
      last_reported = 0;
    };
  };
  runtime = λ id. record { consecutive_failures = 0; successful_transfers = 0 };
  stream_total = none;
}

abbrev quiet : Point
quiet = record { calls = []; polls = [] }

abbrev chunk : List ℕ → Chunk
chunk bytes = record { point = quiet; body = received bytes; slices = [] }

abbrev partial : Reply
partial = record {
  status = 206;
  retry_after = none;
  content_length = some 4;
  content_range = some (ok "bytes 2-5/8");
  chunks = chunk (67 ∷ 68 ∷ []) ∷ record { point = quiet; body = broken "reset"; slices = [] } ∷ [];
}

abbrev rest : Reply
rest = record {
  status = 206;
  retry_after = none;
  content_length = some 2;
  content_range = some (ok "bytes 4-5/8");
  chunks = chunk (69 ∷ 70 ∷ []) ∷ [];
}

abbrev attempt : Reply → Attempt
attempt reply = record {
  point = quiet;
  applied = ok tt;
  sent = answered reply;
  calls = [];
  now = 1000;
}

abbrev attempts : List Attempt
attempts = attempt partial ∷ attempt rest ∷ []

abbrev payload : ℕ → ℕ
payload i = 65 + i

-- Two bytes of the payload, at the place that a response names.
two_bytes :
    (offset a b limit : ℕ)
    → a ≡ payload offset
    → b ≡ payload (offset + 1)
    → offset + 2 ≤ limit
    → Serves payload limit offset (a ∷ b ∷ [])
two_bytes offset a b limit p q le = (le, byte)
  where
    byte : (i : ℕ) → i < 2 → get_elem? (a ∷ b ∷ []) i ≡ some (payload (offset + i))
    byte zero h = ap some (omega (arith, p))
    byte (suc zero) h = ap some q
    byte (suc (suc i)) h = absurd (omega arith)

abbrev range_or : Result ContentRange → ContentRange
range_or (ok range) = range
range_or (err e) = record { start = 0; end = 0; total_size = none }

partial-IsHonest : IsHonest payload partial
unfolding parse_content_range trim strip_prefix split_once parse_unsigned read_digits
partial-IsHonest range status e =
    subst (λ r. ServesChunks payload (r.end + 1) r.start partial.chunks) (ap range_or e)
      (
        two_bytes 2 67 68 6 refl refl (omega arith),
        ((omega arith, λ i h. absurd (omega arith)), tt),
      )

rest-IsHonest : IsHonest payload rest
unfolding parse_content_range trim strip_prefix split_once parse_unsigned read_digits
rest-IsHonest range status e =
    subst (λ r. ServesChunks payload (r.end + 1) r.start rest.chunks) (ap range_or e)
      (two_bytes 4 69 70 6 refl refl (omega arith), tt)

pending_completed : (worker_of at_rest).status ≢ completed
unfolding new_worker_state
pending_completed h = cc

map-Tiled : Tiled map
map-Tiled = record {
  bounded = refl;
  small = omega arith;
  consecutive = (refl, (refl, refl));
  distinct = (refl, (refl, tt));
}

nothing_held : OnDisk map payload 2 6 at_rest.transfer
unfolding new_worker_state
nothing_held = record {
  known = refl;
  start = refl;
  end = refl;
  fits = omega arith;
  holds = λ k from below. absurd (omega arith);
}

start-OnDisk_example : OnDisk map payload 2 6 (start context attempts 0 at_rest).0.transfer
start-OnDisk_example =
    start-OnDisk context map payload 2 5 refl refl map-Tiled (omega arith) refl attempts 0 at_rest
      nothing_held (partial-IsHonest, (rest-IsHonest, tt))

start-payload_example : Holds map payload 2 4 (start context attempts 0 at_rest).0.transfer.disk
unfolding new_worker_state start
start-payload_example =
    start-payload context map payload 2 5 refl refl map-Tiled (omega arith) refl attempts 0 at_rest
      (omega arith) refl pending_completed nothing_held (partial-IsHonest, (rest-IsHonest, tt)) refl
      refl

start-ends_example :
    let result = start context attempts 0 at_rest in
    ((o : Result (Unit {0})) × (result.1 ≡ some o) × ((worker_of result.0).is_running ≡ false))
    ⊎ ((worker_of result.0).paused ≡ true) × (should_stop_gracefully (worker_of result.0) ≡ false)
unfolding new_worker_state
start-ends_example =
    start-ends context attempts 0 at_rest (omega arith) refl pending_completed (omega arith)

start-IsWhole_example :
    let w = worker_of (start context attempts 0 at_rest).0 in
    (should_stop_gracefully w ≡ true)
    ⊎ (w.status ≡ completed) × (w.length_known ≡ true → expected_length w ≤ w.downloaded_size)
unfolding new_worker_state start
start-IsWhole_example =
    start-IsWhole context attempts 0 at_rest (omega arith) refl pending_completed refl

abbrev counted : Stats
counted = record new_stats {
  total_bytes = 7;
  workers = (0, record { downloaded_bytes = 7; last_update = 0; current_speed_bps = 0 }) ∷ [];
}

update_worker-sum_bytes_example :
    (update_worker speeds 5 1 3 counted).total_bytes
    ≡ sum_bytes (update_worker speeds 5 1 3 counted).workers % (2 ^ 64)
update_worker-sum_bytes_example = update_worker-sum_bytes speeds 5 1 3 counted refl
