-- ===== src/Piece/Progress.antt =====
-- Completion states of blocks and pieces, src/domain/piece.rs: what marking a byte range does to
-- the state that is found under a block's key.
use paradown.Prelude.{
  ℕ, ◌+◌, ◌-◌, ◌≡◌, refl, sym, ap, ◌∙◌, List, [], ◌∷◌, Bool, false, ◌&&◌, ◌||◌, arith, leb, All,
  All-map, All-both, saturating_add_u64,
}
use paradown.Piece.{
  PieceBlock, BlockState, initialize_block_states, mark_completed_block, mark_completed_blocks,
  block_completed,
}
use paradown.Piece.Keys.{NotBefore, KeysFrom}

-- One state for each block, under its key, in the blocks' order.
abbrev pub Aligned : List BlockState → List PieceBlock → Type 0
Aligned [] [] = Unit
Aligned (s ∷ ss) (b ∷ bs) =
    (s.piece_index ≡ b.piece_index) × (s.block_index ≡ b.block_index) × Aligned ss bs
Aligned [] (b ∷ bs) = ⊥
Aligned (s ∷ ss) [] = ⊥

-- The block lies in the byte range from `lo` to `hi`, both included.
abbrev pub covers : ℕ → ℕ → PieceBlock → Bool
covers lo hi b = leb lo b.offset && leb (saturating_add_u64 b.offset b.length - 1) hi

pub initialize_block_states-Aligned :
    (bs : List PieceBlock) → Aligned (initialize_block_states bs) bs
unfolding initialize_block_states
initialize_block_states-Aligned [] = tt
initialize_block_states-Aligned (b ∷ bs) = (refl, refl, initialize_block_states-Aligned bs)

-- A fresh state completes no block.
pub block_completed-initialize :
    (bs : List PieceBlock) (c : PieceBlock) → block_completed (initialize_block_states bs) c ≡ false
unfolding initialize_block_states block_completed
block_completed-initialize [] c = refl
block_completed-initialize (b ∷ bs) c = ground (arith, block_completed-initialize bs c)

mark_completed_block_lem :
    (s : BlockState) (b : PieceBlock) (lo hi : ℕ)
    → ((mark_completed_block s b lo hi).piece_index ≡ s.piece_index)
      × ((mark_completed_block s b lo hi).block_index ≡ s.block_index)
      × ((mark_completed_block s b lo hi).completed ≡ s.completed || covers lo hi b)
unfolding mark_completed_block
mark_completed_block_lem s b lo hi = ground arith

pub mark_completed_blocks-Aligned :
    (ss : List BlockState) (bs : List PieceBlock) (lo hi : ℕ)
    → Aligned ss bs
    → Aligned (mark_completed_blocks ss bs lo hi) bs
unfolding mark_completed_blocks
mark_completed_blocks-Aligned [] [] lo hi a = tt
mark_completed_blocks-Aligned (s ∷ ss) (b ∷ bs) lo hi a =
    let m = mark_completed_block_lem s b lo hi in
    (m.0 ∙ a.0, m.1 ∙ a.1, mark_completed_blocks-Aligned ss bs lo hi a.2)
mark_completed_blocks-Aligned [] (b ∷ bs) lo hi a = a
mark_completed_blocks-Aligned (s ∷ ss) [] lo hi a = a

KeysFrom-All : (p i : ℕ) (bs : List PieceBlock) → KeysFrom p i bs → All (NotBefore p i) bs
KeysFrom-All p i [] k = tt
KeysFrom-All p i (b ∷ bs) k = (
  k.0,
  All-map (NotBefore b.piece_index (b.block_index + 1)) _ bs (λ c h. grind arith)
      (KeysFrom-All b.piece_index (b.block_index + 1) bs k.1),
)

block_completed_here :
    (s : BlockState) (ss : List BlockState) (c : PieceBlock)
    → s.piece_index ≡ c.piece_index
    → s.block_index ≡ c.block_index
    → block_completed (s ∷ ss) c ≡ s.completed
unfolding block_completed
block_completed_here s ss c p b = ground arith

block_completed_later :
    (s : BlockState) (ss : List BlockState) (c : PieceBlock)
    → NotBefore s.piece_index (s.block_index + 1) c
    → block_completed (s ∷ ss) c ≡ block_completed ss c
unfolding block_completed
block_completed_later s ss c h = ground arith

-- For blocks whose keys strictly grow and states in their layout: marking a byte range completes
-- the blocks that lie in it, and changes no other block.
pub block_completed-mark_completed_blocks :
    (p i : ℕ) (ss : List BlockState) (bs : List PieceBlock) (lo hi : ℕ)
    → KeysFrom p i bs
    → Aligned ss bs
    → All
        (λ b.
          block_completed (mark_completed_blocks ss bs lo hi) b
          ≡ block_completed ss b || covers lo hi b)
        bs
unfolding mark_completed_blocks
block_completed-mark_completed_blocks p i [] [] lo hi k a = tt
block_completed-mark_completed_blocks p i (s ∷ ss) (b ∷ bs) lo hi k a =
    let m = mark_completed_block_lem s b lo hi in
    (
      block_completed_here _ _ b (m.0 ∙ a.0) (m.1 ∙ a.1)
          ∙ m.2
          ∙ sym (ap (λ x. x || covers lo hi b) (block_completed_here s ss b a.0 a.1)),
      All-map (λ (c : PieceBlock). _ × _) _ bs
          (λ c h.
            let later : NotBefore s.piece_index (s.block_index + 1) c = rw (a.0, a.1) h.0 in
            block_completed_later _ _ c (rw (m.0, m.1) later)
            ∙ h.1
            ∙ sym (ap (λ x. x || covers lo hi c) (block_completed_later s ss c later)))
          (All-both (NotBefore b.piece_index (b.block_index + 1)) _ bs
            (KeysFrom-All b.piece_index (b.block_index + 1) bs k.1)
            (block_completed-mark_completed_blocks b.piece_index (b.block_index + 1) ss bs lo hi k.1
              a.2)),
    )
block_completed-mark_completed_blocks p i [] (b ∷ bs) lo hi k a = absurd a
block_completed-mark_completed_blocks p i (s ∷ ss) [] lo hi k a = absurd a
