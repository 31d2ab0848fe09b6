-- ===== src/Piece/Keys.antt =====
-- The blocks of a plan have distinct keys (piece number, block number), in growing order, and the
-- blocks with a piece's number are the blocks of that piece.
use paradown.Prelude.{
  ◌*◌, max, ℕ, zero, suc, ◌+◌, ◌-◌, ◌≤◌, ◌<◌, min, ◌≡◌, refl, ◌⊎◌, inl, inr, List, [], ◌∷◌, ◌++◌,
  Bool, arith, All-both, filter-append_left, filter-append_right, ◌∙◌, ltb, ◌==◌, Bool-cases, All,
  All-append, All-map, filter, u32_mod, u64_mod, as_u32, saturating_add_u32, saturating_add_u64,
  Tiles-le,
}
use paradown.Piece.{
  PieceLayout, PieceBlock, block_loop, blocks_of_piece, blocks_of_pieces, plan_piece_layouts,
  plan_piece_blocks,
}
use paradown.Piece.Layout.{
  piece_from, piece_to, PieceTiles, plan_piece_layouts-Tiles, plan_piece_layouts_small,
  plan_piece_blocks-eq,
}
use paradown.Piece.Numbering.{Numbered, plan_piece_layouts-Numbered}

-- The key of `b` is (p, i) or a later one.
abbrev pub NotBefore : ℕ → ℕ → PieceBlock → Type 0
NotBefore p i b = (p < b.piece_index) ⊎ ((p ≡ b.piece_index) × (i ≤ b.block_index))

-- The keys grow along the list, from (p, i) on.
abbrev pub KeysFrom : ℕ → ℕ → List PieceBlock → Type 0
KeysFrom p i [] = Unit
KeysFrom p i (b ∷ bs) = NotBefore p i b × KeysFrom b.piece_index (b.block_index + 1) bs

abbrev OfPiece : ℕ → PieceBlock → Type 0
OfPiece p b = p ≡ b.piece_index

block_loop-KeysFrom :
    (fuel p piece_end block_size i offset : ℕ)
    → piece_end < u64_mod
    → 0 < block_size
    → block_size < u32_mod
    → piece_end + i < offset + u32_mod
    → KeysFrom p i (block_loop fuel p piece_end block_size i offset)
unfolding block_loop
block_loop-KeysFrom zero p piece_end block_size i offset ht h0 h32 fits = tt
block_loop-KeysFrom (suc fuel) p piece_end block_size i offset ht h0 h32 fits =
    elim (Bool-cases (ltb offset piece_end)) [
      | inr done ↦ rw done tt
      | inl more ↦
          let next : saturating_add_u32 i 1 ≡ i + 1 = ground arith in
          let ih =
            block_loop-KeysFrom fuel p piece_end block_size (i + 1)
              (saturating_add_u64 offset (as_u32 (min (piece_end - offset) block_size))) ht h0
              h32 in
          rw (more, next) (inr (refl, omega arith), ih (ground arith))
    ]

block_loop-OfPiece :
    (fuel p piece_end block_size i offset : ℕ)
    → All (OfPiece p) (block_loop fuel p piece_end block_size i offset)
unfolding block_loop
block_loop-OfPiece zero p piece_end block_size i offset = tt
block_loop-OfPiece (suc fuel) p piece_end block_size i offset =
    elim (Bool-cases (ltb offset piece_end)) [
      | inr done ↦ rw done tt
      | inl more ↦ rw more (refl, block_loop-OfPiece fuel p piece_end block_size _ _)
    ]

KeysFrom-append :
    (p i : ℕ) (xs ys : List PieceBlock)
    → All (OfPiece p) xs
    → KeysFrom p i xs
    → KeysFrom (p + 1) 0 ys
    → KeysFrom p i (xs ++ ys)
KeysFrom-append p i [] [] same kx ky = tt
KeysFrom-append p i [] (y ∷ ys) same kx ky = (omega arith, ky.1)
KeysFrom-append p i (x ∷ xs) ys same kx ky =
    (kx.0, rw (← same.0) (KeysFrom-append p (x.block_index + 1) xs ys same.1 (rw same.0 kx.1) ky))

-- So the keys of a plan grow, and are distinct.
pub blocks_of_pieces-KeysFrom :
    (block_size n a b : ℕ) (pieces : List PieceLayout)
    → b < u64_mod
    → 0 < block_size
    → block_size < u32_mod
    → All (λ p. p.length < u32_mod) pieces
    → PieceTiles a pieces b
    → Numbered n pieces
    → KeysFrom n 0 (blocks_of_pieces block_size pieces)
unfolding blocks_of_pieces blocks_of_piece
blocks_of_pieces-KeysFrom block_size n a b [] hb h0 h32 small t num = tt
blocks_of_pieces-KeysFrom block_size n a b (piece ∷ pieces) hb h0 h32 small t num =
    let end_le = Tiles-le piece_from piece_to (piece_to piece) b pieces t.2 in
    rw (← num.0) (
      KeysFrom-append piece.piece_index 0 _ _
        (block_loop-OfPiece piece.length piece.piece_index _ block_size 0 piece.offset)
        (block_loop-KeysFrom piece.length piece.piece_index _ block_size 0 piece.offset
          (omega arith) h0 h32 (omega (arith, small.0)))
        (rw num.0 (
          blocks_of_pieces-KeysFrom block_size (n + 1) (piece_to piece) b pieces hb h0 h32 small.1
            t.2 num.1)))

-- Every block of the pieces from number `n` on has a piece number of at least `n`.
blocks_of_pieces_from :
    (block_size n : ℕ) (pieces : List PieceLayout)
    → Numbered n pieces
    → All (λ b. n ≤ b.piece_index) (blocks_of_pieces block_size pieces)
unfolding blocks_of_pieces blocks_of_piece
blocks_of_pieces_from block_size n [] num = tt
blocks_of_pieces_from block_size n (piece ∷ pieces) num =
    All-append (λ (b : PieceBlock). n ≤ b.piece_index) _ _
      (All-map (OfPiece piece.piece_index) _ _ (λ b e. omega arith)
        (block_loop-OfPiece piece.length piece.piece_index _ block_size 0 piece.offset))
      (All-map (λ (b : PieceBlock). n + 1 ≤ b.piece_index) _ _ (λ b h. omega arith)
        (blocks_of_pieces_from block_size (n + 1) pieces num.1))

abbrev pub with_piece_index : ℕ → PieceBlock → Bool
with_piece_index p b = b.piece_index == p

Numbered-from : (n : ℕ) (ps : List PieceLayout) → Numbered n ps → All (λ p. n ≤ p.piece_index) ps
Numbered-from n [] num = tt
Numbered-from n (p ∷ ps) num = (
  omega arith,
  All-map (λ (q : PieceLayout). n + 1 ≤ q.piece_index) _ ps (λ q h. omega arith)
      (Numbered-from (n + 1) ps num.1),
)

-- The blocks that carry a piece's number are the blocks that were planned for that piece.
pub blocks_of_pieces-filter :
    (block_size n : ℕ) (pieces : List PieceLayout)
    → Numbered n pieces
    → All
        (λ p.
          filter (with_piece_index p.piece_index) (blocks_of_pieces block_size pieces)
          ≡ blocks_of_piece block_size p)
        pieces
unfolding blocks_of_pieces blocks_of_piece
blocks_of_pieces-filter block_size n [] num = tt
blocks_of_pieces-filter block_size n (piece ∷ pieces) num = (
  filter-append_left (with_piece_index piece.piece_index) _ _
      (All-map (OfPiece piece.piece_index) _ _ (λ b e. ground arith) own)
      (All-map (λ (b : PieceBlock). n + 1 ≤ b.piece_index) _ _ (λ b h. ground arith)
        (blocks_of_pieces_from block_size (n + 1) pieces num.1)),
  All-map (λ (p : PieceLayout). _ × _) _ pieces
      (λ p h.
        filter-append_right (with_piece_index p.piece_index) _ _
          (All-map (OfPiece piece.piece_index) _ _ (λ b e. ground arith) own)
        ∙ h.1)
      (All-both (λ p. n + 1 ≤ p.piece_index) _ pieces (Numbered-from (n + 1) pieces num.1)
        (blocks_of_pieces-filter block_size (n + 1) pieces num.1)),
)
  where
    own : All (OfPiece piece.piece_index) (blocks_of_piece block_size piece)
    own = block_loop-OfPiece piece.length piece.piece_index _ block_size 0 piece.offset

-- The keys of the blocks of a plan, the piece number and then the block number, strictly grow
-- from (0, 0), if the sizes fit their machine types and the piece numbers fit into 32 bits.
pub plan_piece_blocks-KeysFrom :
    (total piece_size block_size : ℕ)
    → total < u64_mod
    → piece_size < u32_mod
    → block_size < u32_mod
    → total ≤ u32_mod * max piece_size 1
    → KeysFrom 0 0 (plan_piece_blocks (plan_piece_layouts total piece_size) block_size)
plan_piece_blocks-KeysFrom total piece_size block_size ht hp hb fits = rw plan_piece_blocks-eq (
    blocks_of_pieces-KeysFrom (max block_size 1) 0 0 total (plan_piece_layouts total piece_size) ht
      (omega arith) (omega arith) (plan_piece_layouts_small total piece_size)
      (plan_piece_layouts-Tiles total piece_size ht hp)
      (plan_piece_layouts-Numbered total piece_size ht hp fits))
