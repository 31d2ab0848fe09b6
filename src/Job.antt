-- ===== src/Job.antt =====
-- src/job/mod.rs: the manifest, the progress and the sources of a task. Each method becomes a
-- function on the fields it reads and writes; the torrent session and the payload store are left
-- out.
pub mod Lanes
pub mod Prepare
pub mod Progress
pub mod Resume
pub mod Sources
use paradown.Prelude.{
  ℕ, ◌+◌, ◌-◌, String, Bool, true, false, not, ◌&&◌, Option, some, none, List, [], ◌∷◌, map, min,
  ◌==◌, if◌then◌else◌, saturating_add_u64,
}
use paradown.Prelude.{length as len}
use paradown.Failure.{Error, other, Result, ok, err}
use paradown.Status.{Status}
use paradown.Domain.Http.{HttpResourceIdentity, no_options}
use paradown.Domain.Source.{SourceSet}
use paradown.Piece.{
  PieceState, BlockState, initialize_piece_states, initialize_block_states, mark_completed_blocks,
  derive_piece_states_from_blocks,
}
use paradown.Manifest.{SessionManifest}

-- The fields of a worker (src/worker/mod.rs) that its task reads.
pub record Worker : Type 0 where
  pub id : ℕ
  pub source_id : String
  pub length_known : Bool
  pub start : ℕ
  pub end : ℕ
  pub downloaded_size : ℕ
  pub status : Status

-- Worker::expected_length of src/worker/transfer.rs.
unfoldable pub expected_length : Worker → ℕ
expected_length worker =
    if not worker.length_known then 0 else saturating_add_u64 (worker.end - worker.start) 1

pub record Task : Type 0 where
  pub status : Status
  pub http_resource_identity : HttpResourceIdentity
  pub sources : SourceSet
  pub manifest : Option SessionManifest
  pub piece_states : List PieceState
  pub block_states : List BlockState
  pub workers : List Worker
  pub total_size : ℕ
  pub downloaded_size : ℕ
  pub range_requests_supported : Bool
  pub protocol_probe_completed : Bool
  pub total_size_known : Bool

unfoldable pub update_protocol_probe : Option ℕ → Bool → Task → Task
update_protocol_probe none supports task = record task {
  total_size = 0;
  total_size_known = false;
  range_requests_supported = supports;
  protocol_probe_completed = true;
}
update_protocol_probe (some total) supports task = record task {
  total_size = total;
  total_size_known = true;
  range_requests_supported = supports;
  protocol_probe_completed = true;
}

unfoldable pub total_size_option : Task → Option ℕ
total_size_option task = if task.total_size_known then some task.total_size else none

unfoldable pub finalize_stream_total_size : ℕ → Task → Task
finalize_stream_total_size total task = record task { total_size = total; total_size_known = true }

unfoldable pub piece_state_layout_matches : List PieceState → List PieceState → Bool
piece_state_layout_matches [] [] = true
piece_state_layout_matches (s ∷ ss) (t ∷ ts) =
    s.piece_index == t.piece_index && piece_state_layout_matches ss ts
piece_state_layout_matches [] (t ∷ ts) = false
piece_state_layout_matches (s ∷ ss) [] = false

unfoldable pub block_state_layout_matches : List BlockState → List BlockState → Bool
block_state_layout_matches [] [] = true
block_state_layout_matches (s ∷ ss) (t ∷ ts) =
    s.piece_index == t.piece_index
    && s.block_index == t.block_index
    && block_state_layout_matches ss ts
block_state_layout_matches [] (t ∷ ts) = false
block_state_layout_matches (s ∷ ss) [] = false

-- `for (next, restored) in states.iter_mut().zip(existing.iter())`.
unfoldable pub copy_pieces : List PieceState → List PieceState → List PieceState
copy_pieces [] restored = []
copy_pieces (s ∷ ss) [] = s ∷ ss
copy_pieces (s ∷ ss) (t ∷ ts) = record s { completed = t.completed } ∷ copy_pieces ss ts

unfoldable pub copy_blocks : List BlockState → List BlockState → List BlockState
copy_blocks [] restored = []
copy_blocks (s ∷ ss) [] = s ∷ ss
copy_blocks (s ∷ ss) (t ∷ ts) = record s { completed = t.completed } ∷ copy_blocks ss ts

unfoldable pub install_manifest : SessionManifest → Task → Task
unfolding piece_state_layout_matches block_state_layout_matches copy_pieces copy_blocks
install_manifest manifest task =
    let fresh_pieces = initialize_piece_states manifest.pieces in
    let fresh_blocks = initialize_block_states manifest.blocks in
    let pieces =
      if piece_state_layout_matches fresh_pieces task.piece_states
      then copy_pieces fresh_pieces task.piece_states
      else fresh_pieces in
    let blocks = copy_blocks fresh_blocks task.block_states in
    let restored = block_state_layout_matches fresh_blocks task.block_states in
    record task {
      manifest = some manifest;
      sources = manifest.sources;
      piece_states =
          if restored
          then derive_piece_states_from_blocks manifest.pieces manifest.blocks blocks
          else pieces;
      block_states = if restored then blocks else fresh_blocks;
    }

unfoldable pub clear_manifest_state : Task → Task
clear_manifest_state task = record task { manifest = none; piece_states = []; block_states = [] }

unfoldable pub reset_piece_progress : Task → Task
reset_piece_progress task = record task {
  piece_states = map (λ (s : PieceState). record s { completed = false }) task.piece_states;
}

unfoldable pub reset_block_progress : Task → Task
reset_block_progress task = record task {
  block_states = map (λ (s : BlockState). record s { completed = false }) task.block_states;
}

-- `downloaded_size.min(expected_length())` of one worker.
unfoldable pub worker_downloaded : Worker → ℕ
unfolding expected_length
worker_downloaded worker = min worker.downloaded_size (expected_length worker)

-- `for worker in workers`: the block states and the sum.
unfoldable pub mark_workers : SessionManifest → List Worker → List BlockState → List BlockState
unfolding worker_downloaded
mark_workers manifest [] states = states
mark_workers manifest (worker ∷ workers) states =
    let done = worker_downloaded worker in
    mark_workers manifest workers (
      if done == 0
      then states
      else mark_completed_blocks states manifest.blocks worker.start
          (saturating_add_u64 worker.start done - 1))

unfoldable pub sum_workers : List Worker → ℕ → ℕ
unfolding worker_downloaded
sum_workers [] downloaded = downloaded
sum_workers (worker ∷ workers) downloaded =
    sum_workers workers (saturating_add_u64 downloaded (worker_downloaded worker))

-- The block states that `sync_piece_progress_from_workers` starts from.
unfoldable pub known_block_states : SessionManifest → Task → List BlockState
known_block_states manifest task =
    if block_state_layout_matches (initialize_block_states manifest.blocks) task.block_states
    then task.block_states
    else initialize_block_states manifest.blocks

-- `sync_piece_progress_from_workers` for a manifest that is there.
unfoldable pub sync_with : SessionManifest → Task → Task × ℕ
unfolding mark_workers sum_workers known_block_states
sync_with manifest task =
    let blocks = mark_workers manifest task.workers (known_block_states manifest task) in
    let downloaded = sum_workers task.workers 0 in
    let bounded = min downloaded manifest.total_size in
    if not manifest.total_size_known
    then (record task { downloaded_size = downloaded }, downloaded)
    else (
      record task {
        block_states = blocks;
        piece_states = derive_piece_states_from_blocks manifest.pieces manifest.blocks blocks;
        downloaded_size = bounded;
      },
      bounded,
    )

unfoldable pub sync_piece_progress_from_workers : Task → Task × Result ℕ
unfolding sync_with
sync_piece_progress_from_workers task = elim task.manifest [
  | none ↦ (task, err (other "manifest not initialized"))
  | some manifest ↦ let (synced, downloaded) = sync_with manifest task in (synced, ok downloaded)
]

abbrev set_pieces : List PieceState → List PieceState
set_pieces = map λ (s : PieceState). record s { completed = true }

abbrev set_blocks : List BlockState → List BlockState
set_blocks = map λ (s : BlockState). record s { completed = true }

unfoldable pub mark_all_pieces_completed : Task → Task
mark_all_pieces_completed task = elim task.manifest [
  | none ↦ task
  | some manifest ↦ record task {
    piece_states = set_pieces (
        if len task.piece_states == len manifest.pieces
        then task.piece_states
        else initialize_piece_states manifest.pieces);
    block_states = set_blocks (
        if len task.block_states == len manifest.blocks
        then task.block_states
        else initialize_block_states manifest.blocks);
    downloaded_size =
        if manifest.total_size_known then manifest.total_size else task.downloaded_size;
  }
]
