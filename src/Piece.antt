-- ===== src/Piece.antt =====
-- src/domain/piece.rs: pieces, blocks and their completion states.
pub mod Derive
pub mod Keys
pub mod Layout
pub mod Numbering
pub mod Progress
use paradown.Prelude.{
  ℕ, zero, suc, ◌+◌, ◌-◌, min, max, Bool, true, false, ◌&&◌, Option, none, some, List, [], ◌∷◌,
  ◌++◌, map, ltb, leb, ◌==◌, if◌then◌else◌, is_empty, find, all, filter, as_u32, add_u32, add_u64,
  saturating_add_u64, saturating_add_u32,
}
use paradown.Prelude.{length as len}

pub record PieceLayout : Type 0 where
  pub piece_index : ℕ
  pub offset : ℕ
  pub length : ℕ

pub record PieceBlock : Type 0 where
  pub piece_index : ℕ
  pub block_index : ℕ
  pub offset : ℕ
  pub length : ℕ

pub record PieceState : Type 0 where
  pub piece_index : ℕ
  pub completed : Bool

pub record BlockState : Type 0 where
  pub piece_index : ℕ
  pub block_index : ℕ
  pub completed : Bool

-- `while offset < total_size`, on fuel; `piece_size` is at least 1.
unfoldable pub piece_loop : ℕ → ℕ → ℕ → ℕ → ℕ → List PieceLayout
piece_loop zero total_size piece_size piece_index offset = []
piece_loop (suc fuel) total_size piece_size piece_index offset =
    let remaining = total_size - offset in
    let length = as_u32 (min remaining piece_size) in
    let rest =
      piece_loop fuel total_size piece_size (add_u32 piece_index 1) (add_u64 offset length) in
    if ltb offset total_size
    then record { piece_index = piece_index; offset = offset; length = length } ∷ rest
    else []

unfoldable pub plan_piece_layouts : ℕ → ℕ → List PieceLayout
plan_piece_layouts total_size piece_size =
    if total_size == 0 then [] else piece_loop total_size total_size (max piece_size 1) 0 0

unfoldable pub initialize_piece_states : List PieceLayout → List PieceState
initialize_piece_states =
    map λ (piece : PieceLayout). record { piece_index = piece.piece_index; completed = false }

-- `while offset < piece_end`, on fuel; `block_size` is at least 1.
unfoldable pub block_loop : ℕ → ℕ → ℕ → ℕ → ℕ → ℕ → List PieceBlock
block_loop zero piece_index piece_end block_size block_index offset = []
block_loop (suc fuel) piece_index piece_end block_size block_index offset =
    let remaining = piece_end - offset in
    let length = as_u32 (min remaining block_size) in
    let rest =
      block_loop fuel piece_index piece_end block_size (saturating_add_u32 block_index 1)
        (saturating_add_u64 offset length) in
    if ltb offset piece_end
    then record {
      piece_index = piece_index;
      block_index = block_index;
      offset = offset;
      length = length;
    }
      ∷ rest
    else []

-- The blocks of one piece: the body of `for piece in pieces`.
unfoldable pub blocks_of_piece : ℕ → PieceLayout → List PieceBlock
blocks_of_piece block_size piece =
    block_loop piece.length piece.piece_index (saturating_add_u64 piece.offset piece.length)
      block_size 0 piece.offset

unfoldable pub blocks_of_pieces : ℕ → List PieceLayout → List PieceBlock
blocks_of_pieces block_size [] = []
blocks_of_pieces block_size (piece ∷ pieces) =
    blocks_of_piece block_size piece ++ blocks_of_pieces block_size pieces

unfoldable pub plan_piece_blocks : List PieceLayout → ℕ → List PieceBlock
plan_piece_blocks pieces block_size =
    if is_empty pieces then [] else blocks_of_pieces (max block_size 1) pieces

unfoldable pub initialize_block_states : List PieceBlock → List BlockState
initialize_block_states = map λ (block : PieceBlock). record {
  piece_index = block.piece_index;
  block_index = block.block_index;
  completed = false;
}

unfoldable pub mark_completed_pieces : List PieceState → List PieceLayout → ℕ → ℕ → List PieceState
mark_completed_pieces [] pieces covered_start covered_end = []
mark_completed_pieces (state ∷ states) [] covered_start covered_end = state ∷ states
mark_completed_pieces (state ∷ states) (piece ∷ pieces) covered_start covered_end =
    let piece_end = saturating_add_u64 piece.offset piece.length - 1 in
    (if leb covered_start piece.offset && leb piece_end covered_end
      then record state { completed = true }
      else state)
    ∷ mark_completed_pieces states pieces covered_start covered_end

-- The loop body of `mark_completed_blocks`.
unfoldable pub mark_completed_block : BlockState → PieceBlock → ℕ → ℕ → BlockState
mark_completed_block state block covered_start covered_end =
    let block_end = saturating_add_u64 block.offset block.length - 1 in
    if leb covered_start block.offset && leb block_end covered_end
    then record state { completed = true }
    else state

unfoldable pub mark_completed_blocks : List BlockState → List PieceBlock → ℕ → ℕ → List BlockState
mark_completed_blocks [] blocks covered_start covered_end = []
mark_completed_blocks (state ∷ states) [] covered_start covered_end = state ∷ states
mark_completed_blocks (state ∷ states) (block ∷ blocks) covered_start covered_end =
    mark_completed_block state block covered_start covered_end
    ∷ mark_completed_blocks states blocks covered_start covered_end

unfoldable pub completed_piece_count : List PieceState → ℕ
completed_piece_count states =
    as_u32 (len (filter (λ (piece : PieceState). piece.completed) states))

unfoldable pub completed_block_count : List BlockState → ℕ
completed_block_count states =
    as_u32 (len (filter (λ (block : BlockState). block.completed) states))

-- `find(..).map(|state| state.completed).unwrap_or(false)` for one block.
unfoldable pub block_completed : List BlockState → PieceBlock → Bool
block_completed block_states block = elim found [ none ↦ false | some state ↦ state.completed ]
  where
    found : Option BlockState
    found =
        find
          (λ (state : BlockState).
            state.piece_index == block.piece_index && state.block_index == block.block_index)
          block_states

-- The state that `derive_piece_states_from_blocks` gives one piece.
unfoldable pub derive_piece_state : List PieceBlock → List BlockState → PieceLayout → PieceState
unfolding block_completed
derive_piece_state blocks block_states piece = record {
  piece_index = piece.piece_index;
  completed = all (block_completed block_states) piece_blocks;
}
  where
    piece_blocks : List PieceBlock
    piece_blocks = filter (λ (block : PieceBlock). block.piece_index == piece.piece_index) blocks

unfoldable pub derive_piece_states_from_blocks :
    List PieceLayout → List PieceBlock → List BlockState → List PieceState
unfolding derive_piece_state
derive_piece_states_from_blocks pieces blocks block_states =
    map (derive_piece_state blocks block_states) pieces
