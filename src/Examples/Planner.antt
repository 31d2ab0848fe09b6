-- ===== src/Examples/Planner.antt =====
-- A manifest of src/domain/manifest.rs and its lanes, src/scheduler/planner.rs: ten bytes in pieces
-- of four.
use paradown.Prelude.{◌≡◌, refl, true, none, [], ◌∷◌, arith, map, sort_by, insert_sorted}
use paradown.Domain.Spec.{DownloadSpec, https}
use paradown.Domain.Source.{
  SourceSet, for_spec, single_primary, from_spec, active_transfer_sources, primary,
  can_transfer_payload,
}
use paradown.Piece.{
  plan_piece_layouts, plan_piece_blocks, piece_loop, block_loop, blocks_of_piece, blocks_of_pieces,
}
use paradown.Manifest.{
  SessionManifest, for_files_with_piece_size, for_single_file_with_piece_size, used_piece_size,
  used_block_size,
}
use paradown.Manifest.WellFormed.{IsWellFormed, FileTiles, for_single_file-IsWellFormed}
use paradown.Planner.{
  plan_execution_lanes_with_source_order, ExecutionLaneAssignment, plan_with_sources, sort_sources,
  compare_sources, source_rank, position, lane_loop, cut_point, assignment_from_piece_slice,
  lane_block_start, lane_block_end, find_last,
}
use paradown.Planner.Lanes.{LaneTiles}
use paradown.Planner.Plans.{plan_execution_lanes-Tiles}

abbrev spec : DownloadSpec
spec = https "https://example.com/a.bin"

abbrev sources : SourceSet
sources = for_spec spec none

abbrev pub ten_bytes : SessionManifest
ten_bytes = for_single_file_with_piece_size spec sources "a.bin" "/a.bin" 10 4 2 []

for_single_file-IsWellFormed_example :
    IsWellFormed ten_bytes × FileTiles 0 ten_bytes.files ten_bytes.total_size
for_single_file-IsWellFormed_example =
    for_single_file-IsWellFormed spec sources "a.bin" "/a.bin" 10 4 2 [] (omega arith) (omega arith)
      (omega arith) (omega arith)

pub ten_bytes-IsWellFormed : IsWellFormed ten_bytes
ten_bytes-IsWellFormed =
    (for_single_file-IsWellFormed spec sources "a.bin" "/a.bin" 10 4 2 [] (omega arith)
      (omega arith) (omega arith) (omega arith)).0

plan_execution_lanes-Tiles_example :
    LaneTiles 0 (plan_execution_lanes_with_source_order ten_bytes 2 true []) ten_bytes.total_size
unfolding for_single_file_with_piece_size for_files_with_piece_size plan_piece_layouts piece_loop
    used_piece_size for_spec single_primary from_spec active_transfer_sources can_transfer_payload
plan_execution_lanes-Tiles_example =
    plan_execution_lanes-Tiles ten_bytes 2 true [] ten_bytes-IsWellFormed (omega arith)
      (omega arith) refl

-- Two workers share three pieces: the first gets one, the second two.
two_lanes :
    map
      (λ (l : ExecutionLaneAssignment). l.end)
      (plan_execution_lanes_with_source_order ten_bytes 2 true [])
    ≡ 3 ∷ 9 ∷ []
unfolding for_single_file_with_piece_size for_files_with_piece_size plan_piece_layouts piece_loop
    used_piece_size used_block_size for_spec single_primary from_spec active_transfer_sources
    can_transfer_payload plan_execution_lanes_with_source_order plan_with_sources sort_sources
    compare_sources source_rank position lane_loop cut_point assignment_from_piece_slice primary
    plan_piece_blocks block_loop blocks_of_piece blocks_of_pieces sort_by insert_sorted
    lane_block_start lane_block_end find_last
two_lanes = refl
