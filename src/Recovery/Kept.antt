-- ===== src/Recovery/Kept.antt =====
-- Workers that were stored with src/storage/mapping.rs and are then looked at by src/recovery.rs.
use paradown.Prelude.{
  ℕ, ◌+◌, ◌-◌, ◌≤◌, ◌<◌, String, Bool, true, false, not, ◌&&◌, ◌≡◌, refl, ◌⊎◌, inl, inr, Option,
  some, List, [], ◌∷◌, map, arith, ltb, ◌==◌, any, is_empty, All, u64_mod, saturating_add_u64,
  sort_by-InOrder, InOrder, sym, ap, leb, ◌||◌,
}
use paradown.Status.{to_string}
use paradown.Domain.Source.{SourceSet}
use paradown.Requests.{SegmentRequest}
use paradown.Storage.Mapping.{db_workers_to_requests}
use paradown.Storage.Workers.{LiveWorker, worker_to_db}
use paradown.Recovery.{
  sanitize_worker_requests, sanitize_loop, sanitize_worker, lane_metadata_count, expected_length,
  normalize_worker_status, known_source_ids, contains,
}

-- A worker as its task made it: within its range, of a known source, with the pieces and the blocks
-- of its lane in order.
pub record IsSane (known : List String) (live : LiveWorker) : Type 0 where
  pub range : live.worker.start ≤ live.worker.end
  pub progress : live.worker.downloaded_size ≤ live.worker.end + 1 - live.worker.start
  pub source : (known ≡ []) ⊎ (contains live.worker.source_id known ≡ true)
  pub pieces : live.lane.piece_start ≤ live.lane.piece_end
  pub blocks : live.lane.block_start ≤ live.lane.block_end

-- Sane workers whose ranges lie end to end from `from` to `total`, with growing ids from `n` on.
abbrev pub Planned : List String → ℕ → ℕ → List LiveWorker → ℕ → Type 0
Planned known from n [] total = from ≡ total
Planned known from n (live ∷ lives) total =
    (live.worker.start ≡ from)
    × (n ≤ live.worker.id)
    × IsSane known live
    × Planned known (live.worker.end + 1) (live.worker.id + 1) lives total

-- The request that a stored worker is read back as, and the one that is restored.
abbrev pub read_back : ℕ → LiveWorker → SegmentRequest
read_back task_id live = record {
  id = some live.worker.id;
  task_id = task_id;
  index = live.worker.id;
  source_id = some live.worker.source_id;
  piece_start = some live.lane.piece_start;
  piece_end = some live.lane.piece_end;
  block_start = some live.lane.block_start;
  block_end = some live.lane.block_end;
  start = live.worker.start;
  end = live.worker.end;
  downloaded = some live.worker.downloaded_size;
  status = some (to_string live.worker.status);
  updated_at = live.updated_at;
}

abbrev pub restored : ℕ → LiveWorker → SegmentRequest
restored task_id live = record (read_back task_id live) {
  status = normalize_worker_status (some (to_string live.worker.status));
}

Planned-le :
    (known : List String) (from n : ℕ) (lives : List LiveWorker) (total : ℕ)
    → Planned known from n lives total
    → from ≤ total
Planned-le known from n [] total p = omega (arith, p)
Planned-le known from n (live ∷ lives) total (s, i, sane, rest) =
    let h = Planned-le known (live.worker.end + 1) (live.worker.id + 1) lives total rest in
    omega (arith, sane.range)

not_seen :
    (n m : ℕ) (seen : List ℕ) → n ≤ m → All (λ i. i < n) seen → any (λ i. i == m) seen ≡ false
not_seen n m [] le h = refl
not_seen n m (i ∷ seen) le h = ground (arith, not_seen n m seen le h.1)

seen_grows : (n m : ℕ) (seen : List ℕ) → n ≤ m → All (λ i. i < n) seen → All (λ i. i < m) seen
seen_grows n m [] le h = tt
seen_grows n m (i ∷ seen) le h = (omega arith, seen_grows n m seen le h.1)

known_source :
    (id : String) (known : List String)
    → (known ≡ []) ⊎ (contains id known ≡ true)
    → not (is_empty known) && not (contains id known) ≡ false
known_source id [] h = refl
known_source id (k ∷ ks) (inl e) = ground arith
known_source id (k ∷ ks) (inr e) = rw e refl

sanitize_worker-restored :
    (task_id total : ℕ) (known : List String) (seen : List ℕ) (live : LiveWorker)
    → total < u64_mod
    → live.worker.end < total
    → any (λ i. i == live.worker.id) seen ≡ false
    → IsSane known live
    → sanitize_worker task_id (some total) known seen live.worker.start (read_back task_id live)
      ≡ some (restored task_id live)
unfolding sanitize_worker expected_length lane_metadata_count
sanitize_worker-restored task_id total known seen live ht he hs sane =
    let w = live.worker in
    let same : (task_id == task_id) ≡ true = ground arith in
    let range : ltb w.end w.start ≡ false = ground (arith, sane.range) in
    let progress : ltb (saturating_add_u64 (w.end - w.start) 1) w.downloaded_size ≡ false =
      ground (arith, sane.progress, sane.range) in
    let inside : ltb 0 total && leb total w.end ≡ false = ground arith in
    let next : (w.start == w.start) ≡ true = ground arith in
    let lane : ltb live.lane.piece_end live.lane.piece_start
          || ltb live.lane.block_end live.lane.block_start
        ≡ false =
      ground (arith, sane.pieces, sane.blocks) in
    rw (same, hs, range, progress, inside, next, known_source w.source_id known sane.source, lane)
      refl

sanitize_loop-restored :
    (task_id total : ℕ) (known : List String) (seen : List ℕ) (from n : ℕ) (lives : List LiveWorker)
    → total < u64_mod
    → All (λ i. i < n) seen
    → Planned known from n lives total
    → sanitize_loop task_id (some total) known seen from (map (read_back task_id) lives)
      ≡ some (map (restored task_id) lives, total)
unfolding sanitize_loop
sanitize_loop-restored task_id total known seen from n [] ht h p = ap (λ e. some ([], e)) p
sanitize_loop-restored task_id total known seen from n (live ∷ lives) ht h (s, i, sane, rest) =
    let w = live.worker in
    let le = Planned-le known (w.end + 1) (w.id + 1) lives total rest in
    let kept =
      sanitize_worker-restored task_id total known seen live ht (omega arith)
        (not_seen n w.id seen i h) sane in
    let next : saturating_add_u64 w.end 1 ≡ w.end + 1 = omega arith in
    let loop =
      sanitize_loop-restored task_id total known (w.id ∷ seen) (w.end + 1) (w.id + 1) lives ht
        (omega arith, seen_grows n (w.id + 1) seen (omega arith) h) rest in
    rw (sym s, kept, next, loop) refl

abbrev after_index : SegmentRequest → SegmentRequest → Bool
after_index left right = ltb right.index left.index

read_back-InOrder :
    (task_id : ℕ) (known : List String) (from n : ℕ) (lives : List LiveWorker) (total : ℕ)
    → Planned known from n lives total
    → InOrder after_index (map (read_back task_id) lives)
read_back-InOrder task_id known from n [] total p = tt
read_back-InOrder task_id known from n (a ∷ []) total p = tt
read_back-InOrder task_id known from n (a ∷ b ∷ lives) total (s, i, sane, rest) = (
  ground (arith, rest.1),
  read_back-InOrder task_id known (a.worker.end + 1) (a.worker.id + 1) (b ∷ lives) total rest,
)

stored_requests :
    (task_id : ℕ) (lives : List LiveWorker)
    → db_workers_to_requests (map (worker_to_db task_id) lives) ≡ map (read_back task_id) lives
unfolding db_workers_to_requests worker_to_db
stored_requests task_id [] = refl
stored_requests task_id (live ∷ lives) =
    ap (λ requests. read_back task_id live ∷ requests) (stored_requests task_id lives)

-- The workers of a payload whose size fits into 64 bits survive a restart: if their ranges lie
-- end to end over the payload in the order of growing ids, and each has downloaded no more than
-- its range, has a known source (if the task knows any), and a lane with its pieces and blocks in
-- order, then storing them, reading them back and sanitizing them keeps every one, changed only
-- in its status.
pub sanitize_worker_requests-worker_to_db :
    (task_id total : ℕ) (sources : Option SourceSet) (lives : List LiveWorker)
    → total < u64_mod
    → Planned (known_source_ids sources) 0 0 lives total
    → sanitize_worker_requests task_id
        (some total)
        sources
        (db_workers_to_requests (map (worker_to_db task_id) lives))
      ≡ map (restored task_id) lives
unfolding sanitize_worker_requests
sanitize_worker_requests-worker_to_db task_id total sources lives ht p =
    let known = known_source_ids sources in
    rw
      (
        stored_requests task_id lives,
        sort_by-InOrder after_index _ (read_back-InOrder task_id known 0 0 lives total p),
        sanitize_loop-restored task_id total known [] 0 0 lives ht tt p,
      )
      (ground arith)
