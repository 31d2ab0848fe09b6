-- ===== src/Storage/RoundTrip.antt =====
-- States that src/storage/mapping.rs writes and reads back.
use paradown.Prelude.{
  ℕ, ◌≡◌, refl, ap, true, some, none, List, [], ◌∷◌, map, arith, ltb, is_some, ◌⊎◌, InOrder,
  sort_by-InOrder,
}
use paradown.Failure.{ok}
use paradown.Checksum.{
  Checksum, ChecksumAlgorithm, md5, sha1, sha256, none_algorithm, Digest, verify, verify_expected,
}
use paradown.Piece.{PieceState, BlockState}
use paradown.Storage.{DbDownloadPiece, DbDownloadBlock}
use paradown.Storage.Mapping.{
  checksum_to_db, db_to_checksum, algorithm_name, algorithm_named, piece_of_row, block_of_row,
  piece_states_to_db, db_pieces_to_piece_states, block_states_to_db, db_blocks_to_block_states,
  key_after,
}

-- The indices of the pieces do not fall.
abbrev pub PiecesInOrder : List PieceState → Type 0
PiecesInOrder = InOrder (λ (left right : PieceState). ltb right.piece_index left.piece_index)

abbrev pub BlocksInOrder : List BlockState → Type 0
BlocksInOrder = InOrder (λ (left right : BlockState).
    key_after left.piece_index left.block_index right.piece_index right.block_index)

pieces_to_db-InOrder :
    (task_id : ℕ) (states : List PieceState)
    → PiecesInOrder states
    → InOrder
        (λ (left right : DbDownloadPiece). ltb right.piece_index left.piece_index)
        (piece_states_to_db task_id states)
unfolding piece_states_to_db
pieces_to_db-InOrder task_id [] h = tt
pieces_to_db-InOrder task_id (s ∷ []) h = tt
pieces_to_db-InOrder task_id (s ∷ t ∷ ts) h = (h.0, pieces_to_db-InOrder task_id (t ∷ ts) h.1)

blocks_to_db-InOrder :
    (task_id : ℕ) (states : List BlockState)
    → BlocksInOrder states
    → InOrder
        (λ (left right : DbDownloadBlock).
          key_after left.piece_index left.block_index right.piece_index right.block_index)
        (block_states_to_db task_id states)
unfolding block_states_to_db
blocks_to_db-InOrder task_id [] h = tt
blocks_to_db-InOrder task_id (s ∷ []) h = tt
blocks_to_db-InOrder task_id (s ∷ t ∷ ts) h = (h.0, blocks_to_db-InOrder task_id (t ∷ ts) h.1)

piece_rows :
    (task_id : ℕ) (states : List PieceState)
    → map piece_of_row (piece_states_to_db task_id states) ≡ states
unfolding piece_states_to_db
piece_rows task_id [] = refl
piece_rows task_id (s ∷ ss) = ap (λ rest. s ∷ rest) (piece_rows task_id ss)

block_rows :
    (task_id : ℕ) (states : List BlockState)
    → map block_of_row (block_states_to_db task_id states) ≡ states
unfolding block_states_to_db
block_rows task_id [] = refl
block_rows task_id (s ∷ ss) = ap (λ rest. s ∷ rest) (block_rows task_id ss)

-- The states of pieces and of blocks that are in order are read back as they were written.
pub states-RoundTrip :
    (task_id : ℕ) (pieces : List PieceState) (blocks : List BlockState)
    → PiecesInOrder pieces
    → BlocksInOrder blocks
    → (db_pieces_to_piece_states (piece_states_to_db task_id pieces) ≡ pieces)
      × (db_blocks_to_block_states (block_states_to_db task_id blocks) ≡ blocks)
unfolding db_pieces_to_piece_states db_blocks_to_block_states
states-RoundTrip task_id pieces blocks hp hb = (
  rw (sort_by-InOrder _ _ (pieces_to_db-InOrder task_id pieces hp)) (piece_rows task_id pieces),
  rw (sort_by-InOrder _ _ (blocks_to_db-InOrder task_id blocks hb)) (block_rows task_id blocks),
)

algorithm_named-name : (a : ChecksumAlgorithm) → algorithm_named (algorithm_name a) ≡ a
unfolding algorithm_named algorithm_name
algorithm_named-name md5 = refl
algorithm_named-name sha1 = refl
algorithm_named-name sha256 = refl
algorithm_named-name none_algorithm = refl

-- A checksum that was written and read back keeps its algorithm and gives the same verdict, if it
-- has an expected value; one without, which no file fails, comes back expecting the empty text.
pub verify-db_to_checksum :
    (digest : Digest) (c : Checksum) (task_id : ℕ)
    → let restored = db_to_checksum (checksum_to_db c task_id) in
      (restored.algorithm ≡ c.algorithm)
      × (verify digest restored ≡ (elim c.value [
        | some expected ↦ verify digest c
        | none ↦ verify_expected digest c.algorithm ""
      ]))
      × ((is_some c.value ≡ true) ⊎ (verify digest c ≡ ok true))
unfolding db_to_checksum checksum_to_db verify
verify-db_to_checksum digest c task_id =
    let e = algorithm_named-name c.algorithm in (e, ground (arith, e), ground arith)
