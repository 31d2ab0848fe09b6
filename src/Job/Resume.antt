-- ===== src/Job/Resume.antt =====
-- Where the workers of a task begin, src/job/workers.rs, and what that means for a task whose file
-- is gone.
use paradown.Prelude.{
  ℕ, ◌+◌, ◌-◌, ◌≤◌, ◌<◌, Bool, true, false, not, ◌&&◌, ◌≡◌, refl, sym, ap, ◌∙◌, ◌⊎◌, inl, inr, none,
  List, [], ◌∷◌, arith, ltb, if◌then◌else◌, min, all, filter, is_empty, All, All-map, Bool-cases,
  Tiles-le, Tiles-All, subst, u64_mod,
}
use paradown.Failure.{Result, ok, err, ◌>>=◌}
use paradown.Domain.Http.{HttpResourceIdentity}
use paradown.Domain.Source.{SourceDescriptor}
use paradown.Piece.{PieceBlock, BlockState, initialize_block_states, block_completed}
use paradown.Piece.Layout.{BlockTiles, block_from, block_to}
use paradown.Manifest.{SessionManifest}
use paradown.Planner.{ExecutionLaneAssignment}
use paradown.Job.{
  Task, block_state_layout_matches, copy_blocks, install_manifest, mark_workers, known_block_states,
  sync_with,
}
use paradown.Job.Lanes.{
  in_lane, seed_loop, lane_length, seeded_downloaded_from_block_states, new_worker,
}
use paradown.Job.Prepare.{
  FileConflictStrategy, OriginMetadata, StoreAnswers, handle_existing_file,
  reset_missing_file_state,
}

-- The loop counts completed blocks up to the first that is not.
abbrev Counted : List BlockState → ℕ → ℕ → ℕ → List PieceBlock → ℕ → Type 0
Counted states a b acc bs d =
    (acc ≤ d)
    × (a + (d - acc) ≤ b)
    × All (λ blk. (a + (d - acc) < block_to blk) ⊎ (block_completed states blk ≡ true)) bs

Counted-cons :
    (states : List BlockState) (a b acc d : ℕ) (k : PieceBlock) (ks : List PieceBlock)
    → k.offset ≡ a
    → block_completed states k ≡ true
    → Counted states (block_to k) b (acc + k.length) ks d
    → Counted states a b acc (k ∷ ks) d
Counted-cons states a b acc d k ks at_a e (above, below, rest) =
    let same : block_to k + (d - (acc + k.length)) ≡ a + (d - acc) = omega arith in
    (omega arith, omega arith, (inr e, rw same at rest))

seed_loop-Counted :
    (states : List BlockState) (a b acc : ℕ) (bs : List PieceBlock)
    → acc + (b - a) < u64_mod
    → BlockTiles a bs b
    → Counted states a b acc bs (seed_loop states bs acc)
unfolding seed_loop
seed_loop-Counted states a b acc [] fits t = (omega arith, omega arith, tt)
seed_loop-Counted states a b acc (k ∷ ks) fits t =
    let le = Tiles-le block_from block_to (block_to k) b ks t.2 in
    elim (Bool-cases (block_completed states k)) [
      | inl e ↦
          let next : min (acc + k.length) (u64_mod - 1) ≡ acc + k.length = omega arith in
          let go_on : seed_loop states (k ∷ ks) acc ≡ seed_loop states ks (acc + k.length) =
            rw (e, next) in
          subst (Counted states a b acc (k ∷ ks)) (sym go_on) (
            Counted-cons states a b acc _ k ks t.0 e
              (seed_loop-Counted states (block_to k) b (acc + k.length) ks (omega arith) t.2))
      | inr e ↦
          let stop : seed_loop states (k ∷ ks) acc ≡ acc = rw e in
          subst (Counted states a b acc (k ∷ ks)) (sym stop) (
            omega arith,
            omega arith,
            (
              inl (omega arith),
              All-map _ _ ks (λ blk h. inl (omega arith))
                  (Tiles-All block_from block_to (block_to k) b ks t.2),
            ),
          )
    ]

-- A worker starts behind a run of completed blocks: if the blocks in its lane tile the lane,
-- whose end fits into 64 bits, then it starts no later than the end of the lane, and every block
-- of the lane that ends by where it starts is completed.
pub seeded_downloaded_lem :
    (m : SessionManifest) (states : List BlockState) (lane : ExecutionLaneAssignment)
    → lane.end + 1 < u64_mod
    → BlockTiles lane.start (filter (in_lane lane) m.blocks) (lane.end + 1)
    → let d = seeded_downloaded_from_block_states m states lane in
      (lane.start + d ≤ lane.end + 1)
      × All
          (λ b. (lane.start + d < block_to b) ⊎ (block_completed states b ≡ true))
          (filter (in_lane lane) m.blocks)
unfolding seeded_downloaded_from_block_states
seeded_downloaded_lem m states lane fits t =
    let bs = filter (in_lane lane) m.blocks in
    let (above, below, rest) =
      seed_loop-Counted states lane.start (lane.end + 1) 0 bs (omega arith) t in
    let le = Tiles-le block_from block_to lane.start (lane.end + 1) bs t in
    let same : min (seed_loop states bs 0) (lane_length lane) ≡ seed_loop states bs 0 - 0 =
      omega arith in
    rw same (below, rest)

seed_loop-all :
    (states : List BlockState) (a b acc : ℕ) (bs : List PieceBlock)
    → acc + (b - a) < u64_mod
    → BlockTiles a bs b
    → all (block_completed states) bs ≡ true
    → seed_loop states bs acc ≡ acc + (b - a)
unfolding seed_loop
seed_loop-all states a b acc [] fits t h = omega arith
seed_loop-all states a b acc (k ∷ ks) fits t h =
    let le = Tiles-le block_from block_to (block_to k) b ks t.2 in
    let e : block_completed states k ≡ true = ground arith in
    let next : min (acc + k.length) (u64_mod - 1) ≡ acc + k.length = omega arith in
    let sum : acc + k.length + (b - block_to k) ≡ acc + (b - a) = omega arith in
    rw (e, next)
      (seed_loop-all states (block_to k) b (acc + k.length) ks (omega arith) t.2 (ground arith)
        ∙ sum)

new_worker-all :
    (m : SessionManifest) (states : List BlockState) (source : SourceDescriptor)
    (lane : ExecutionLaneAssignment)
    → lane.start ≤ lane.end
    → lane.end + 1 < u64_mod
    → BlockTiles lane.start (filter (in_lane lane) m.blocks) (lane.end + 1)
    → all (block_completed states) (filter (in_lane lane) m.blocks) ≡ true
    → (new_worker m states source lane).downloaded_size ≡ lane_length lane
unfolding new_worker seeded_downloaded_from_block_states
new_worker-all m states source lane le fits t done =
    let bs = filter (in_lane lane) m.blocks in
    let e = seed_loop-all states lane.start (lane.end + 1) 0 bs (omega arith) t done in
    omega (arith, e)

copy_matching :
    (bs : List PieceBlock) (ss : List BlockState)
    → block_state_layout_matches (initialize_block_states bs) ss ≡ true
    → copy_blocks (initialize_block_states bs) ss ≡ ss
unfolding block_state_layout_matches initialize_block_states copy_blocks
copy_matching [] [] h = refl
copy_matching (b ∷ bs) (s ∷ ss) h = ground (arith, copy_matching bs ss)
copy_matching [] (s ∷ ss) h = cc
copy_matching (b ∷ bs) [] h = cc

-- The progress is collected unless an error ended the preparation.
abbrev sync_unless_failed : SessionManifest → Task × Result Bool → Task
sync_unless_failed m (task, err e) = task
sync_unless_failed m (task, ok _) = (sync_with m task).0

-- The steps of `prepare_download` that touch the progress, for a task without a local file.
abbrev pub prepared_without_file :
    FileConflictStrategy
    → StoreAnswers
    → OriginMetadata
    → HttpResourceIdentity
    → SessionManifest
    → Task
    → Task
prepared_without_file strategy store probe previous m task =
    let installed = install_manifest m task in
    sync_unless_failed m
      (handle_existing_file strategy store none probe previous false (ok false) installed)

kept_blocks :
    (m : SessionManifest) (task : Task)
    → block_state_layout_matches (initialize_block_states m.blocks) task.block_states ≡ true
    → ((install_manifest m task).block_states ≡ task.block_states)
      × ((install_manifest m task).workers ≡ task.workers)
      × ((install_manifest m task).downloaded_size ≡ task.downloaded_size)
unfolding install_manifest
kept_blocks m task h = (rw h (copy_matching m.blocks task.block_states h), refl, refl)

if_true {ℓ} : {A : Type ℓ} (b : Bool) (x y : A) → b ≡ true → (if b then x else y) ≡ x
if_true true x y h = refl
if_true false x y h = cc

missing_unchanged :
    (store : StoreAnswers) (task : Task)
    → task.downloaded_size ≡ 0
    → task.workers ≡ []
    → reset_missing_file_state store task ≡ (task, ok tt)
unfolding reset_missing_file_state
missing_unchanged store task d w =
    let untouched : (not (ltb 0 task.downloaded_size) && is_empty task.workers) ≡ true =
      ground arith in
    if_true _ (task, ok tt) _ untouched

known_kept :
    (m : SessionManifest) (task : Task)
    → block_state_layout_matches (initialize_block_states m.blocks) task.block_states ≡ true
    → known_block_states m task ≡ task.block_states
unfolding known_block_states
known_kept m task h = if_true _ task.block_states _ h

sync_without_workers :
    (m : SessionManifest) (task : Task)
    → m.total_size_known ≡ true
    → task.workers ≡ []
    → (sync_with m task).0.block_states ≡ known_block_states m task
unfolding sync_with mark_workers
sync_without_workers m task known w = rw (known, w)

-- A task of known size that is prepared without a local file, with stored block states of the
-- right layout, no worker and nothing counted as downloaded, keeps these block states. A worker
-- of a lane whose blocks tile the lane and are all completed in them then starts at the end of
-- its lane: it fetches nothing.
pub prepared_without_file-block_states :
    (strategy : FileConflictStrategy) (store : StoreAnswers) (probe : OriginMetadata)
    (previous : HttpResourceIdentity) (m : SessionManifest) (task : Task)
    (source : SourceDescriptor) (lane : ExecutionLaneAssignment)
    → m.total_size_known ≡ true
    → block_state_layout_matches (initialize_block_states m.blocks) task.block_states ≡ true
    → task.downloaded_size ≡ 0
    → task.workers ≡ []
    → lane.start ≤ lane.end
    → lane.end + 1 < u64_mod
    → BlockTiles lane.start (filter (in_lane lane) m.blocks) (lane.end + 1)
    → all (block_completed task.block_states) (filter (in_lane lane) m.blocks) ≡ true
    → let prepared = prepared_without_file strategy store probe previous m task in
      (prepared.block_states ≡ task.block_states)
      × ((new_worker m prepared.block_states source lane).downloaded_size ≡ lane_length lane)
unfolding handle_existing_file
prepared_without_file-block_states strategy store probe previous m task source lane known match d w
      le fits t done =
    let installed = install_manifest m task in
    let k = kept_blocks m task match in
    let unchanged = missing_unchanged store installed (k.2 ∙ d) (k.1 ∙ w) in
    let match' = rw (sym k.0) at match in
    let synced =
      sync_without_workers m installed known (k.1 ∙ w) ∙ known_kept m installed match' ∙ k.0 in
    let kept : (prepared_without_file strategy store probe previous m task).block_states
        ≡ task.block_states =
      ap
        (λ (r : Task × Result (Unit {0})).
          (sync_unless_failed m (r.0, r.1 >>= λ _. ok false)).block_states)
        unchanged
      ∙ synced in
    (kept, rw (sym kept) at (new_worker-all m task.block_states source lane le fits t done))
