-- ===== src/Job/Progress.antt =====
-- The progress of a task, src/job/mod.rs: what its workers have downloaded becomes completed
-- blocks, and blocks become pieces.
use paradown.Prelude.{
  ℕ, ◌+◌, ◌-◌, ◌≤◌, ◌<◌, Bool, true, false, not, ◌&&◌, ◌||◌, ◌≡◌, refl, ap, ◌∙◌, List, [], ◌∷◌,
  arith, ◌==◌, if◌then◌else◌, min, any, All, All-map, All-always, All-both, Bool-cases, inl, inr,
  saturating_add_u64, u64_mod,
}
use paradown.Piece.{
  PieceBlock, BlockState, initialize_block_states, mark_completed_blocks, block_completed,
  derive_piece_states_from_blocks,
}
use paradown.Piece.Keys.{KeysFrom}
use paradown.Piece.Progress.{
  Aligned, covers, initialize_block_states-Aligned, mark_completed_blocks-Aligned,
  block_completed-mark_completed_blocks,
}
use paradown.Manifest.{SessionManifest}
use paradown.Manifest.WellFormed.{IsWellFormed}
use paradown.Job.{
  Worker, Task, worker_downloaded, sum_workers, expected_length, mark_workers, known_block_states,
  block_state_layout_matches, sync_with,
}

-- The worker has downloaded the whole block.
abbrev pub worker_covers : PieceBlock → Worker → Bool
worker_covers b w =
    let done = worker_downloaded w in
    not (done == 0) && covers w.start (saturating_add_u64 w.start done - 1) b

or_assoc : (a b c : Bool) → (a || b) || c ≡ a || (b || c)
or_assoc true b c = refl
or_assoc false b c = refl

or_false : (a : Bool) → a ≡ a || false
or_false true = refl
or_false false = refl

mark_workers-Aligned :
    (m : SessionManifest) (ws : List Worker) (ss : List BlockState)
    → Aligned ss m.blocks
    → Aligned (mark_workers m ws ss) m.blocks
unfolding mark_workers
mark_workers-Aligned m [] ss a = a
mark_workers-Aligned m (w ∷ ws) ss a = elim (Bool-cases (worker_downloaded w == 0)) [
  | inl e ↦ rw e (mark_workers-Aligned m ws ss a)
  | inr e ↦ rw e (mark_workers-Aligned m ws _ (mark_completed_blocks-Aligned ss m.blocks _ _ a))
]

mark_workers-completed :
    (p i : ℕ) (m : SessionManifest) (ws : List Worker) (ss : List BlockState)
    → KeysFrom p i m.blocks
    → Aligned ss m.blocks
    → All
        (λ b.
          block_completed (mark_workers m ws ss) b
          ≡ block_completed ss b || any (worker_covers b) ws)
        m.blocks
unfolding mark_workers
mark_workers-completed p i m [] ss k a =
    All-always _ (λ b. or_false (block_completed ss b)) m.blocks
mark_workers-completed p i m (w ∷ ws) ss k a = elim (Bool-cases (worker_downloaded w == 0)) [
  | inl e ↦ rw e (mark_workers-completed p i m ws ss k a)
  | inr e ↦
      let lo = w.start in
      let hi = saturating_add_u64 w.start (worker_downloaded w) - 1 in
      rw e (
        All-map (λ (b : PieceBlock). _ × _) _ m.blocks
          (λ b h.
            h.1
            ∙ ap (λ x. x || any (worker_covers b) ws) h.0
            ∙ or_assoc (block_completed ss b) (covers lo hi b) (any (worker_covers b) ws))
          (All-both _ _ m.blocks (block_completed-mark_completed_blocks p i ss m.blocks lo hi k a) (
            mark_workers-completed p i m ws (mark_completed_blocks ss m.blocks lo hi) k
              (mark_completed_blocks-Aligned ss m.blocks lo hi a))))
]

layout_matches-Aligned :
    (bs : List PieceBlock) (ss : List BlockState)
    → block_state_layout_matches (initialize_block_states bs) ss ≡ true
    → Aligned ss bs
unfolding block_state_layout_matches initialize_block_states
layout_matches-Aligned [] [] h = tt
layout_matches-Aligned (b ∷ bs) (s ∷ ss) h =
    (ground arith, ground arith, layout_matches-Aligned bs ss (ground arith))
layout_matches-Aligned [] (s ∷ ss) h = cc
layout_matches-Aligned (b ∷ bs) [] h = cc

pub known_block_states-Aligned :
    (m : SessionManifest) (task : Task) → Aligned (known_block_states m task) m.blocks
unfolding known_block_states
known_block_states-Aligned m task =
    elim (Bool-cases
      (block_state_layout_matches (initialize_block_states m.blocks) task.block_states)) [
        | inl e ↦ rw e (layout_matches-Aligned m.blocks task.block_states e)
        | inr e ↦ rw e (initialize_block_states-Aligned m.blocks)
      ]

-- With a well-formed manifest of known size: after the progress was collected from the workers, a
-- block is completed exactly if it was known to be, or if one worker has downloaded all of it;
-- the block states keep the layout of the manifest; a piece is completed as its blocks say; and
-- no more counts as downloaded than the payload has.
pub sync_with-block_completed :
    (m : SessionManifest) (task : Task)
    → IsWellFormed m
    → m.total_size_known ≡ true
    → let synced = (sync_with m task).0 in
      All
        (λ b.
          block_completed synced.block_states b
          ≡ block_completed (known_block_states m task) b || any (worker_covers b) task.workers)
        m.blocks
      × Aligned synced.block_states m.blocks
      × (synced.piece_states
          ≡ derive_piece_states_from_blocks m.pieces m.blocks synced.block_states)
      × (synced.downloaded_size ≤ m.total_size)
      × (synced.downloaded_size ≡ (sync_with m task).1)
unfolding sync_with
sync_with-block_completed m task w known =
    let a = known_block_states-Aligned m task in
    rw known (
      mark_workers-completed 0 0 m task.workers _ w.block_keys a,
      mark_workers-Aligned m task.workers _ a,
      refl,
      omega arith,
      refl,
    )

unknown_lengths :
    (ws : List Worker) (d : ℕ)
    → All (λ (w : Worker). w.length_known ≡ false) ws
    → d < u64_mod
    → sum_workers ws d ≡ d
unfolding sum_workers worker_downloaded expected_length
unknown_lengths [] d h fits = refl
unknown_lengths (w ∷ ws) d h fits =
    let here = h.0 in
    let none_done : min w.downloaded_size
          (if not w.length_known then 0 else saturating_add_u64 (w.end - w.start) 1)
        ≡ 0 =
      ground arith in
    let same : min (d + 0) (u64_mod - 1) ≡ d = omega arith in
    rw (none_done, same) (unknown_lengths ws d h.1 fits)

-- Workers of lanes of unknown length never count: whatever they have downloaded, the progress of
-- the task is 0.
pub sync_with_unknown_length :
    (m : SessionManifest) (task : Task)
    → All (λ (w : Worker). w.length_known ≡ false) task.workers
    → ((sync_with m task).0.downloaded_size ≡ 0) × ((sync_with m task).1 ≡ 0)
unfolding sync_with
sync_with_unknown_length m task h =
    let none_done = unknown_lengths task.workers 0 h (omega arith) in
    (ground (arith, none_done), ground (arith, none_done))
