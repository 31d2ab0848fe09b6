-- ===== src/Manifest/WellFormed.antt =====
-- The manifests that src/domain/manifest.rs builds are well formed: pieces, blocks and the single
-- file tile the payload, and the numbers fit.
use paradown.Prelude.{
  ℕ, ◌+◌, ◌*◌, ◌≤◌, ◌<◌, String, List, max, u32_mod, u64_mod, refl, arith, All, Tiles,
}
use paradown.Checksum.{Checksum}
use paradown.Domain.Spec.{DownloadSpec}
use paradown.Domain.Source.{SourceSet}
use paradown.Piece.Layout.{
  PieceTiles, BlockTiles, plan_piece_layouts-Tiles, plan_piece_blocks-Tiles,
  plan_piece_layouts_small,
}
use paradown.Piece.Numbering.{Numbered, plan_piece_layouts-Numbered}
use paradown.Piece.Keys.{KeysFrom, plan_piece_blocks-KeysFrom}
use paradown.Manifest.{
  FileManifest, SessionManifest, for_files_with_piece_size, for_single_file_with_piece_size,
  used_piece_size, used_block_size,
}

abbrev pub file_from : FileManifest → ℕ
file_from f = f.offset

abbrev pub file_to : FileManifest → ℕ
file_to f = f.offset + f.length

abbrev pub FileTiles : ℕ → List FileManifest → ℕ → Type 0
FileTiles = Tiles file_from file_to

pub record IsWellFormed (m : SessionManifest) : Type 0 where
  pub total_fits : m.total_size < u64_mod
  pub piece_tiles : PieceTiles 0 m.pieces m.total_size
  pub block_tiles : BlockTiles 0 m.blocks m.total_size
  pub piece_numbers : Numbered 0 m.pieces
  pub block_keys : KeysFrom 0 0 m.blocks
  pub piece_lengths : All (λ p. p.length < u32_mod) m.pieces
  pub sizes : (0 < m.block_size) × (m.block_size ≤ m.piece_size) × (m.piece_size < u32_mod)

used_piece_size_lem :
    (total piece_size : ℕ)
    → piece_size < u32_mod
    → total ≤ u32_mod * max piece_size 1
    → (0 < used_piece_size total piece_size)
      × (used_piece_size total piece_size < u32_mod)
      × (total ≤ u32_mod * max (used_piece_size total piece_size) 1)
unfolding used_piece_size
used_piece_size_lem total piece_size hp fits = (omega arith, omega arith, omega arith)

used_block_size_lem :
    (piece_size block_size : ℕ)
    → 0 < piece_size
    → (0 < used_block_size piece_size block_size)
      × (used_block_size piece_size block_size ≤ piece_size)
unfolding used_block_size
used_block_size_lem piece_size block_size hp = omega arith

-- A manifest of known size is well formed, whatever its files, if its sizes fit their machine
-- types and its piece numbers fit into 32 bits.
pub for_files-IsWellFormed :
    (spec : DownloadSpec) (sources : SourceSet) (id : String) (total piece_size block_size : ℕ)
    (files : List FileManifest) (checksums : List Checksum)
    → total < u64_mod
    → piece_size < u32_mod
    → total ≤ u32_mod * max piece_size 1
    → IsWellFormed
        (for_files_with_piece_size spec sources id total piece_size block_size files checksums)
unfolding for_files_with_piece_size
for_files-IsWellFormed spec sources id total piece_size block_size files checksums ht hp fits =
    let u = used_piece_size_lem total piece_size hp fits in
    let v = used_block_size_lem (used_piece_size total piece_size) block_size u.0 in
    record {
      total_fits = ht;
      piece_tiles = plan_piece_layouts-Tiles total _ ht u.1;
      block_tiles =
          plan_piece_blocks-Tiles _ total _ ht (omega arith)
            (plan_piece_layouts-Tiles total _ ht u.1);
      piece_numbers = plan_piece_layouts-Numbered total _ ht u.1 u.2;
      block_keys = plan_piece_blocks-KeysFrom total _ _ ht u.1 (omega arith) u.2;
      piece_lengths = plan_piece_layouts_small total _;
      sizes = (v.0, v.1, u.1);
    }

-- The manifest of a single file that is not empty is well formed, if its sizes fit their machine
-- types and its piece numbers fit into 32 bits, and its file tiles the payload.
pub for_single_file-IsWellFormed :
    (spec : DownloadSpec) (sources : SourceSet) (name path : String)
    (total piece_size block_size : ℕ) (checksums : List Checksum)
    → 0 < total
    → total < u64_mod
    → piece_size < u32_mod
    → total ≤ u32_mod * max piece_size 1
    → let m =
        for_single_file_with_piece_size spec sources name path total piece_size block_size
          checksums in
      IsWellFormed m × FileTiles 0 m.files m.total_size
unfolding for_single_file_with_piece_size
for_single_file-IsWellFormed spec sources name path total piece_size block_size checksums h0 ht hp
      fits =
    (
      for_files-IsWellFormed spec sources _ total piece_size block_size _ checksums ht hp fits,
      (refl, omega arith, omega arith),
    )
