-- ===== src/Examples/Piece.antt =====
-- src/domain/piece.rs at the payload of its unit tests: 10 bytes, pieces of 4, blocks of 2.
use paradown.Prelude.{◌≡◌, refl, List, arith}
use paradown.Piece.{
  PieceLayout, PieceBlock, BlockState, plan_piece_layouts, plan_piece_blocks, piece_loop,
  block_loop, blocks_of_piece, blocks_of_pieces, mark_completed_block, initialize_piece_states,
  initialize_block_states, mark_completed_pieces, mark_completed_blocks, completed_piece_count,
  completed_block_count, derive_piece_states_from_blocks,
}
use paradown.Piece.Layout.{
  PieceTiles, BlockTiles, plan_piece_layouts-Tiles, plan_piece_blocks-Tiles,
}
use paradown.Piece.Derive.{derive-mark_completed_blocks}

abbrev pieces : List PieceLayout
pieces = plan_piece_layouts 10 4

abbrev blocks : List PieceBlock
blocks = plan_piece_blocks pieces 2

-- The states of the third unit test: bytes 0 to 7 are covered.
abbrev states : List BlockState
states = mark_completed_blocks (initialize_block_states blocks) blocks 0 7

completed_counts :
    (completed_block_count states ≡ 4)
    × (completed_piece_count (derive_piece_states_from_blocks pieces blocks states) ≡ 2)
unfolding plan_piece_layouts plan_piece_blocks piece_loop block_loop blocks_of_piece
    blocks_of_pieces initialize_block_states mark_completed_blocks mark_completed_block
    completed_block_count completed_piece_count derive_piece_states_from_blocks
completed_counts = (refl, refl)

plan_piece_layouts-Tiles_example : PieceTiles 0 (plan_piece_layouts 10 4) 10
plan_piece_layouts-Tiles_example = plan_piece_layouts-Tiles 10 4 (omega arith) (omega arith)

plan_piece_blocks-Tiles_example : BlockTiles 0 (plan_piece_blocks pieces 2) 10
plan_piece_blocks-Tiles_example =
    plan_piece_blocks-Tiles 2 10 pieces (omega arith) (omega arith)
      (plan_piece_layouts-Tiles 10 4 (omega arith) (omega arith))

derive-mark_completed_blocks_example :
    derive_piece_states_from_blocks pieces blocks states
    ≡ mark_completed_pieces (initialize_piece_states pieces) pieces 0 7
derive-mark_completed_blocks_example =
    derive-mark_completed_blocks 10 4 2 0 7 (omega arith) (omega arith) (omega arith) (omega arith)
