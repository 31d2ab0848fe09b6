-- ===== src/Piece/Layout.antt =====
-- The plans of src/domain/piece.rs cut a payload into pieces, and pieces into blocks, without gap
-- or overlap.
use paradown.Prelude.{
  All, Bool-cases, inl, inr, ◌==◌, refl, ltb, ℕ, zero, suc, ◌+◌, ◌-◌, ◌≤◌, ◌<◌, min, max, ◌≡◌, List,
  [], ◌∷◌, arith, Tiles, Tiles-append, u32_mod, u64_mod, add_u32, Tiles-le, add_u64, as_u32,
  saturating_add_u32, saturating_add_u64,
}
use paradown.Piece.{
  PieceLayout, PieceBlock, piece_loop, plan_piece_layouts, block_loop, blocks_of_piece,
  blocks_of_pieces, plan_piece_blocks,
}

-- The bytes of a piece and of a block.
abbrev pub piece_from : PieceLayout → ℕ
piece_from p = p.offset

abbrev pub piece_to : PieceLayout → ℕ
piece_to p = p.offset + p.length

abbrev pub block_from : PieceBlock → ℕ
block_from b = b.offset

abbrev pub block_to : PieceBlock → ℕ
block_to b = b.offset + b.length

abbrev pub PieceTiles : ℕ → List PieceLayout → ℕ → Type 0
PieceTiles = Tiles piece_from piece_to

abbrev pub BlockTiles : ℕ → List PieceBlock → ℕ → Type 0
BlockTiles = Tiles block_from block_to

piece_loop-Tiles :
    (fuel total piece_size index offset : ℕ)
    → total < u64_mod
    → 0 < piece_size
    → piece_size < u32_mod
    → offset ≤ total
    → total ≤ offset + fuel
    → PieceTiles offset (piece_loop fuel total piece_size index offset) total
unfolding piece_loop
piece_loop-Tiles zero total piece_size index offset ht h0 h32 le fuel_ok = omega arith
piece_loop-Tiles (suc fuel) total piece_size index offset ht h0 h32 le fuel_ok = ground (
  arith,
  piece_loop-Tiles fuel total piece_size (add_u32 index 1)
      (add_u64 offset (as_u32 (min (total - offset) piece_size))) ht h0 h32,
)

-- The loop of the piece plan ends: for a payload size of 64 bits and a piece size of 32 bits the
-- pieces tile the payload from byte 0 to its size.
pub plan_piece_layouts-Tiles :
    (total piece_size : ℕ)
    → total < u64_mod
    → piece_size < u32_mod
    → PieceTiles 0 (plan_piece_layouts total piece_size) total
unfolding plan_piece_layouts
plan_piece_layouts-Tiles total piece_size ht h32 =
    ground (arith, piece_loop-Tiles total total (max piece_size 1) 0 0)

block_loop-Tiles :
    (fuel piece_index piece_end block_size index offset : ℕ)
    → piece_end < u64_mod
    → 0 < block_size
    → block_size < u32_mod
    → offset ≤ piece_end
    → piece_end ≤ offset + fuel
    → BlockTiles offset (block_loop fuel piece_index piece_end block_size index offset) piece_end
unfolding block_loop
block_loop-Tiles zero piece_index piece_end block_size index offset ht h0 h32 le fuel_ok =
    omega arith
block_loop-Tiles (suc fuel) piece_index piece_end block_size index offset ht h0 h32 le fuel_ok =
    ground (
      arith,
      block_loop-Tiles fuel piece_index piece_end block_size (saturating_add_u32 index 1)
          (saturating_add_u64 offset (as_u32 (min (piece_end - offset) block_size))) ht h0 h32,
    )

-- The blocks of one piece tile the piece.
pub blocks_of_piece-Tiles :
    (block_size : ℕ) (piece : PieceLayout)
    → piece_to piece < u64_mod
    → 0 < block_size
    → block_size < u32_mod
    → BlockTiles piece.offset (blocks_of_piece block_size piece) (piece_to piece)
unfolding blocks_of_piece
blocks_of_piece-Tiles block_size piece ht h0 h32 =
    let e : min (piece.offset + piece.length) (u64_mod - 1) ≡ piece.offset + piece.length =
      omega arith in
    rw e (
      block_loop-Tiles piece.length piece.piece_index (piece_to piece) block_size 0 piece.offset ht
        h0 h32 (omega arith) (omega arith))

blocks_of_pieces-Tiles :
    (block_size a b : ℕ) (pieces : List PieceLayout)
    → b < u64_mod
    → 0 < block_size
    → block_size < u32_mod
    → PieceTiles a pieces b
    → BlockTiles a (blocks_of_pieces block_size pieces) b
unfolding blocks_of_pieces
blocks_of_pieces-Tiles block_size a b [] ht h0 h32 t = t
blocks_of_pieces-Tiles block_size a b (piece ∷ pieces) ht h0 h32 t = rw (← t.0) (
    Tiles-append block_from block_to piece.offset (piece_to piece) b
      (blocks_of_piece block_size piece) (blocks_of_pieces block_size pieces)
      (blocks_of_piece-Tiles block_size piece
        (omega (arith, Tiles-le piece_from piece_to (piece_to piece) b pieces t.2)) h0 h32)
      (blocks_of_pieces-Tiles block_size (piece_to piece) b pieces ht h0 h32 t.2))

-- The loop of the block plan ends: for a payload size of 64 bits and a block size of 32 bits, the
-- blocks of pieces that tile the payload tile it too.
pub plan_piece_blocks-Tiles :
    (block_size total : ℕ) (pieces : List PieceLayout)
    → total < u64_mod
    → block_size < u32_mod
    → PieceTiles 0 pieces total
    → BlockTiles 0 (plan_piece_blocks pieces block_size) total
unfolding plan_piece_blocks
plan_piece_blocks-Tiles block_size total [] ht h32 t = t
plan_piece_blocks-Tiles block_size total (piece ∷ pieces) ht h32 t =
    blocks_of_pieces-Tiles (max block_size 1) 0 total (piece ∷ pieces) ht (omega arith)
      (omega arith) t

piece_loop_small :
    (fuel total piece_size index offset : ℕ)
    → All (λ p. p.length < u32_mod) (piece_loop fuel total piece_size index offset)
unfolding piece_loop
piece_loop_small zero total piece_size index offset = tt
piece_loop_small (suc fuel) total piece_size index offset = elim (Bool-cases (ltb offset total)) [
  | inr done ↦ rw done tt
  | inl more ↦ rw more (omega arith, piece_loop_small fuel total piece_size _ _)
]

-- A piece's length is a `u32`.
pub plan_piece_layouts_small :
    (total piece_size : ℕ) → All (λ p. p.length < u32_mod) (plan_piece_layouts total piece_size)
unfolding plan_piece_layouts
plan_piece_layouts_small total piece_size = elim (Bool-cases (total == 0)) [
  | inl none ↦ rw none tt
  | inr some ↦ rw some (piece_loop_small total total (max piece_size 1) 0 0)
]

-- The early return for no pieces changes nothing.
pub plan_piece_blocks-eq :
    (pieces : List PieceLayout) (block_size : ℕ)
    → plan_piece_blocks pieces block_size ≡ blocks_of_pieces (max block_size 1) pieces
unfolding plan_piece_blocks blocks_of_pieces
plan_piece_blocks-eq [] block_size = refl
plan_piece_blocks-eq (p ∷ ps) block_size = refl
