-- ===== src/Piece/Derive.antt =====
-- `derive_piece_states_from_blocks` of src/domain/piece.rs on a planned payload: a piece counts as
-- completed exactly when all of its bytes are covered.
use paradown.Prelude.{
  ℕ, ◌-◌, ◌*◌, ◌≤◌, ◌<◌, max, ◌≡◌, refl, ap, ◌∙◌, List, [], ◌∷◌, map, ◌&&◌, ◌||◌, arith, leb, All,
  All-map, All-both, All-filter, all, all_congr, saturating_add_u64, u32_mod, u64_mod, subst,
  Tiles-le, Tiles-All,
}
use paradown.Piece.{
  PieceLayout, PieceBlock, BlockState, PieceState, initialize_piece_states, initialize_block_states,
  mark_completed_pieces, mark_completed_blocks, block_completed, blocks_of_piece, blocks_of_pieces,
  plan_piece_layouts, plan_piece_blocks, derive_piece_state, derive_piece_states_from_blocks,
}
use paradown.Piece.Layout.{
  piece_from, piece_to, PieceTiles, BlockTiles, block_from, block_to, plan_piece_layouts-Tiles,
  plan_piece_layouts_small, plan_piece_blocks-eq, blocks_of_piece-Tiles,
}
use paradown.Piece.Numbering.{Numbered, plan_piece_layouts-Numbered}
use paradown.Piece.Keys.{with_piece_index, blocks_of_pieces-filter, blocks_of_pieces-KeysFrom}
use paradown.Piece.Progress.{
  covers, block_completed-initialize, block_completed-mark_completed_blocks,
  initialize_block_states-Aligned,
}

-- Tiles lie in a byte range exactly when what they tile does.
all-covers :
    (lo hi a b : ℕ) (bs : List PieceBlock)
    → b < u64_mod
    → a < b
    → BlockTiles a bs b
    → all (covers lo hi) bs ≡ leb lo a && leb (b - 1) hi
all-covers lo hi a b [] hb lt t = absurd (omega arith)
all-covers lo hi a b (x ∷ []) hb lt t = ground arith
all-covers lo hi a b (x ∷ y ∷ bs) hb lt t =
    let rest : block_to x < b =
      omega (arith, Tiles-le block_from block_to (block_to y) b bs t.2.2) in
    ground (arith, all-covers lo hi (block_to x) b (y ∷ bs) hb rest t.2)

-- For pieces that are numbered in a row: the state derived for a piece carries its number, and is
-- completed exactly when each of its own blocks is.
pub derive_piece_state-completed :
    (block_size n : ℕ) (pieces : List PieceLayout) (ss : List BlockState)
    → Numbered n pieces
    → All
        (λ p. derive_piece_state (blocks_of_pieces block_size pieces) ss p ≡ record {
          piece_index = p.piece_index;
          completed = all (block_completed ss) (blocks_of_piece block_size p);
        })
        pieces
unfolding derive_piece_state
derive_piece_state-completed block_size n pieces ss num =
    All-map _ _ pieces
      (λ p e.
        ap (λ bs. record { piece_index = p.piece_index; completed = all (block_completed ss) bs })
          e)
      (blocks_of_pieces-filter block_size n pieces num)

-- What holds of every block of a plan holds of the blocks of each of its pieces.
All-blocks_of_piece :
    (P : PieceBlock → Type 0) (block_size n : ℕ) (pieces : List PieceLayout)
    → Numbered n pieces
    → All P (blocks_of_pieces block_size pieces)
    → All (λ p. All P (blocks_of_piece block_size p)) pieces
All-blocks_of_piece P block_size n pieces num h =
    All-map _ _ pieces (λ p e. subst (All P) e (All-filter (with_piece_index p.piece_index) P _ h))
      (blocks_of_pieces-filter block_size n pieces num)

map-eq-mark_completed_pieces :
    (f : PieceLayout → PieceState) (pieces : List PieceLayout) (lo hi : ℕ)
    → All
        (λ p. f p ≡ record {
          piece_index = p.piece_index;
          completed = leb lo p.offset && leb (saturating_add_u64 p.offset p.length - 1) hi;
        })
        pieces
    → map f pieces ≡ mark_completed_pieces (initialize_piece_states pieces) pieces lo hi
unfolding mark_completed_pieces initialize_piece_states
map-eq-mark_completed_pieces f [] lo hi h = refl
map-eq-mark_completed_pieces f (p ∷ ps) lo hi h =
    rw (h.0, map-eq-mark_completed_pieces f ps lo hi h.1) (ground arith)

module _ (block_size n a b : ℕ) (pieces : List PieceLayout) (lo hi : ℕ) (hb : b < u64_mod)
    (h0 : 0 < block_size) (h32 : block_size < u32_mod)
    (small : All (λ p. p.length < u32_mod) pieces) (tiles : PieceTiles a pieces b)
    (num : Numbered n pieces) where
  abbrev all_blocks : List PieceBlock
  all_blocks = blocks_of_pieces block_size pieces

  abbrev marked : List BlockState
  marked = mark_completed_blocks (initialize_block_states all_blocks) all_blocks lo hi

  marked-covers : All (λ c. block_completed marked c ≡ covers lo hi c) all_blocks
  marked-covers =
      All-map _ _ all_blocks
        (λ c e. e ∙ ap (λ x. x || covers lo hi c) (block_completed-initialize all_blocks c))
        (block_completed-mark_completed_blocks n 0 _ all_blocks lo hi
          (blocks_of_pieces-KeysFrom block_size n a b pieces hb h0 h32 small tiles num)
          (initialize_block_states-Aligned all_blocks))

  derived :
      (p : PieceLayout)
      → All (λ c. block_completed marked c ≡ covers lo hi c) (blocks_of_piece block_size p)
      → p.offset < piece_to p
      → piece_to p ≤ b
      → all (block_completed marked) (blocks_of_piece block_size p)
        ≡ leb lo p.offset && leb (saturating_add_u64 p.offset p.length - 1) hi
  derived p own lt le =
      all_congr (block_completed marked) (covers lo hi) _ own
      ∙ all-covers lo hi p.offset (piece_to p) _ (omega arith) lt
          (blocks_of_piece-Tiles block_size p (omega arith) h0 h32)
      ∙ ground arith

  -- Deriving from marked blocks gives what marking the pieces themselves gives.
  derive-mark :
      derive_piece_states_from_blocks pieces all_blocks marked
      ≡ mark_completed_pieces (initialize_piece_states pieces) pieces lo hi
  unfolding derive_piece_states_from_blocks
  derive-mark = map-eq-mark_completed_pieces _ pieces lo hi (
      All-map (λ (p : PieceLayout). _ × _) _ pieces
        (λ p h.
          h.0
          ∙ ap (λ c. record { piece_index = p.piece_index; completed = c })
              (derived p h.1.0 h.1.1.1 h.1.1.2))
        (All-both _ _ pieces (derive_piece_state-completed block_size n pieces marked num) (
          All-both _ _ pieces (All-blocks_of_piece _ block_size n pieces num marked-covers)
            (Tiles-All piece_from piece_to a b pieces tiles))))

-- For a planned payload whose sizes fit their machine types and whose piece numbers fit into 32
-- bits: deriving the piece states from the blocks that one byte range completes gives the states
-- that `mark_completed_pieces` gives for that range.
pub derive-mark_completed_blocks :
    (total piece_size block_size lo hi : ℕ)
    → total < u64_mod
    → piece_size < u32_mod
    → block_size < u32_mod
    → total ≤ u32_mod * max piece_size 1
    → let pieces = plan_piece_layouts total piece_size in
      let blocks = plan_piece_blocks pieces block_size in
      derive_piece_states_from_blocks pieces blocks
        (mark_completed_blocks (initialize_block_states blocks) blocks lo hi)
      ≡ mark_completed_pieces (initialize_piece_states pieces) pieces lo hi
derive-mark_completed_blocks total piece_size block_size lo hi ht hp hb fits =
    rw plan_piece_blocks-eq (
      derive-mark (max block_size 1) 0 0 total (plan_piece_layouts total piece_size) lo hi ht
        (omega arith) (omega arith) (plan_piece_layouts_small total piece_size)
        (plan_piece_layouts-Tiles total piece_size ht hp)
        (plan_piece_layouts-Numbered total piece_size ht hp fits))
