-- ===== src/Planner.antt =====
-- src/scheduler/planner.rs: which worker fetches which pieces, and from which source.
pub mod Lanes
pub mod Plans
use Prim.Native.String.{compare as str_compare}
use paradown.Prelude.{
  ℕ, zero, suc, ◌+◌, ◌-◌, ◌*◌, ◌/◌, ◌%◌, String, Bool, true, false, not, ◌&&◌, ◌||◌, Option, some,
  none, List, [], ◌∷◌, map, min, max, compare, Ordering, ltb, ◌==◌, str_eq, if◌then◌else◌, is_empty,
  is_some, option_map, unwrap_or, or_else, first, last, find, take, drop, length, sort_by, u32_mod,
  u64_mod, as_u32, as_u64, mul_u64, saturating_add_u64,
}
use paradown.Piece.{PieceLayout, PieceBlock}
use paradown.Domain.Source.{SourceDescriptor, SourceSet, active_transfer_sources, primary}
use paradown.Manifest.{SessionManifest}

abbrev pub max_http_piece_size : ℕ
max_http_piece_size = 1024 * 1024

pub data SourceSelectionPolicy : Type 0 where
  primary_only availability_aware rarest_first endgame : SourceSelectionPolicy

pub record ExecutionLaneAssignment : Type 0 where
  pub lane_id : ℕ
  pub source_id : String
  pub length_known : Bool
  pub piece_start : ℕ
  pub piece_end : ℕ
  pub block_start : ℕ
  pub block_end : ℕ
  pub start : ℕ
  pub end : ℕ

-- u64::div_ceil
abbrev pub div_ceil : ℕ → ℕ → ℕ
div_ceil a b = if a % b == 0 then a / b else a / b + 1

unfoldable pub suggested_http_piece_size : ℕ → ℕ → ℕ
suggested_http_piece_size total_size requested_workers =
    if total_size == 0
    then 1
    else let target_workers = min (max requested_workers 1) total_size in
      let ideal_piece_size = div_ceil total_size target_workers in
      as_u32 (max (min ideal_piece_size max_http_piece_size) 1)

-- Iterator::position
unfoldable pub position {ℓ} : {A : Type ℓ} → (A → Bool) → List A → Option ℕ
position test [] = none
position test (x ∷ xs) = if test x then some 0 else option_map suc (position test xs)

abbrev pub is_primary : Option String → String → Bool
is_primary none source_id = false
is_primary (some id) source_id = str_eq id source_id

unfoldable pub source_rank : String → List String → Option String → ℕ × ℕ
unfolding position
source_rank source_id preferred_source_ids primary_id = (
  unwrap_or (position (λ preferred. str_eq preferred source_id) preferred_source_ids) (u64_mod - 1),
  if is_primary primary_id source_id then 0 else 1,
)

-- Ordering::then_with
abbrev pub then_with : Ordering → Ordering → Ordering
then_with Ordering.eq next = next
then_with first next = first

abbrev pub is_gt : Ordering → Bool
is_gt Ordering.gt = true
is_gt _ = false

unfoldable pub compare_sources :
    List String → Option String → SourceDescriptor → SourceDescriptor → Ordering
unfolding source_rank
compare_sources preferred primary_id left right =
    let (left_index, left_primary) = source_rank left.id preferred primary_id in
    let (right_index, right_primary) = source_rank right.id preferred primary_id in
    then_with (then_with (compare left_index right_index) (compare left_primary right_primary))
      (str_compare left.id right.id)

unfoldable pub sort_sources :
    List String → Option String → List SourceDescriptor → List SourceDescriptor
unfolding compare_sources sort_by
sort_sources preferred primary_id =
    sort_by (λ left right. is_gt (compare_sources preferred primary_id left right))

-- iter().rev().find(..)
unfoldable pub find_last {ℓ} : {A : Type ℓ} → (A → Bool) → List A → Option A
find_last test [] = none
find_last test (x ∷ xs) = or_else (find_last test xs) (if test x then some x else none)

-- The block numbers of a lane: of the first block of its first piece, and the last of its last.
unfoldable pub lane_block_start : PieceLayout → List PieceBlock → ℕ
lane_block_start first blocks =
    unwrap_or
      (option_map (λ (block : PieceBlock). block.block_index)
        (find (λ (block : PieceBlock). block.piece_index == first.piece_index) blocks))
      0

unfoldable pub lane_block_end : PieceLayout → List PieceBlock → ℕ
unfolding find_last
lane_block_end last blocks =
    unwrap_or
      (option_map (λ (block : PieceBlock). block.block_index)
        (find_last (λ (block : PieceBlock). block.piece_index == last.piece_index) blocks))
      0

abbrev lane_of_pieces :
    ℕ → String → PieceLayout → PieceLayout → List PieceBlock → ExecutionLaneAssignment
lane_of_pieces lane_id source_id first last blocks = record {
  lane_id = lane_id;
  source_id = source_id;
  length_known = true;
  piece_start = first.piece_index;
  piece_end = last.piece_index;
  block_start = lane_block_start first blocks;
  block_end = lane_block_end last blocks;
  start = first.offset;
  end = saturating_add_u64 last.offset last.length - 1;
}

unfoldable pub assignment_from_piece_slice :
    ℕ → String → List PieceLayout → List PieceBlock → Option ExecutionLaneAssignment
assignment_from_piece_slice lane_id source_id pieces blocks = elim (first pieces) [
  | none ↦ none
  | some p ↦ option_map (λ q. lane_of_pieces lane_id source_id p q blocks) (last pieces)
]

-- Where the pieces of lane `index` start: (index * pieces.len()) / worker_count in `usize`.
unfoldable pub cut_point : ℕ → ℕ → ℕ → ℕ
cut_point piece_count worker_count index = mul_u64 index piece_count / worker_count

-- A slice index; `default` stands for the panic that an index out of range is.
abbrev pub nth_or {ℓ} : {A : Type ℓ} → A → List A → ℕ → A
nth_or default [] i = default
nth_or default (x ∷ xs) zero = x
nth_or default (x ∷ xs) (suc i) = nth_or default xs i

abbrev pub push_some {ℓ} : {A : Type ℓ} → Option A → List A → List A
push_some none xs = xs
push_some (some x) xs = x ∷ xs

-- `for index in 0..worker_count`: `rounds` are left; `source` is the first of `sources`.
unfoldable pub lane_loop :
    SourceDescriptor
    → List SourceDescriptor
    → List PieceLayout
    → List PieceBlock
    → ℕ
    → ℕ
    → ℕ
    → List ExecutionLaneAssignment
lane_loop source sources pieces blocks worker_count zero index = []
lane_loop source sources pieces blocks worker_count (suc rounds) index =
    let piece_start = cut_point (length pieces) worker_count index in
    let piece_end = cut_point (length pieces) worker_count (index + 1) in
    let slice = take (piece_end - piece_start) (drop piece_start pieces) in
    let picked = nth_or source (source ∷ sources) (index % length (source ∷ sources)) in
    push_some
      (if piece_start == piece_end
        then none
        else assignment_from_piece_slice (as_u32 index) picked.id slice blocks)
      (lane_loop source sources pieces blocks worker_count rounds (index + 1))

unfoldable pub plan_with_sources :
    SessionManifest
    → ℕ
    → SourceSelectionPolicy
    → List SourceDescriptor
    → List ExecutionLaneAssignment
plan_with_sources manifest requested_workers policy [] = []
plan_with_sources manifest requested_workers primary_only (source ∷ sources) =
    push_some (assignment_from_piece_slice 0 source.id manifest.pieces manifest.blocks) []
plan_with_sources manifest requested_workers policy (source ∷ sources) =
    let worker_count = min (max requested_workers 1) (length manifest.pieces) in
    lane_loop source sources manifest.pieces manifest.blocks worker_count worker_count 0

-- One open-ended lane for a payload of unknown size.
abbrev streaming_lane : SourceDescriptor → ExecutionLaneAssignment
streaming_lane source = record {
  lane_id = 0;
  source_id = source.id;
  length_known = false;
  piece_start = 0;
  piece_end = 0;
  block_start = 0;
  block_end = 0;
  start = 0;
  end = 0;
}

unfoldable pub plan_execution_lanes_with_source_order :
    SessionManifest → ℕ → Bool → List String → List ExecutionLaneAssignment
unfolding plan_with_sources sort_sources
plan_execution_lanes_with_source_order manifest requested_workers allow_parallel preferred =
    if is_empty manifest.pieces
    then if not manifest.total_size_known || is_empty transfer_sources
      then push_some (option_map streaming_lane (first transfer_sources)) []
      else []
    else plan_with_sources manifest requested_workers
        (if allow_parallel then availability_aware else primary_only)
        (sort_sources preferred primary_id transfer_sources)
  where
    transfer_sources : List SourceDescriptor
    transfer_sources = active_transfer_sources manifest.sources

    primary_id : Option String
    primary_id = option_map (λ (s : SourceDescriptor). s.id) (primary manifest.sources)

unfoldable pub plan_execution_lanes : SessionManifest → ℕ → Bool → List ExecutionLaneAssignment
unfolding plan_execution_lanes_with_source_order
plan_execution_lanes manifest requested_workers allow_parallel =
    plan_execution_lanes_with_source_order manifest requested_workers allow_parallel []
