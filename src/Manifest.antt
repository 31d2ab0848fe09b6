-- ===== src/Manifest.antt =====
-- src/domain/manifest.rs: the manifest of a session. `spec.identity_key()` is the default `id`.
pub mod WellFormed
use paradown.Prelude.{
  ℕ, ◌*◌, ◌-◌, String, Bool, true, false, List, [], ◌∷◌, min, max, length, as_u32, u32_mod,
}
use paradown.Checksum.{Checksum}
use paradown.Domain.Spec.{DownloadSpec, identity_key}
use paradown.Domain.Source.{SourceSet}
use paradown.Piece.{PieceLayout, PieceBlock, plan_piece_layouts, plan_piece_blocks}

pub record FileManifest : Type 0 where
  pub path : String
  pub file_name : String
  pub length : ℕ
  pub offset : ℕ

pub record SessionManifest : Type 0 where
  pub id : String
  pub spec : DownloadSpec
  pub sources : SourceSet
  pub total_size : ℕ
  pub total_size_known : Bool
  pub piece_size : ℕ
  pub piece_count : ℕ
  pub block_size : ℕ
  pub block_count : ℕ
  pub files : List FileManifest
  pub pieces : List PieceLayout
  pub blocks : List PieceBlock
  pub checksums : List Checksum

abbrev pub default_piece_size : ℕ
default_piece_size = 1024 * 1024

abbrev pub default_block_size : ℕ
default_block_size = 256 * 1024

-- The sizes that are used for the ones that were asked for.
unfoldable pub used_piece_size : ℕ → ℕ → ℕ
used_piece_size total_size piece_size =
    min (max piece_size 1) (as_u32 (min (max total_size 1) (u32_mod - 1)))

unfoldable pub used_block_size : ℕ → ℕ → ℕ
used_block_size piece_size block_size = min (max block_size 1) piece_size

unfoldable pub for_files_with_piece_size :
    DownloadSpec
    → SourceSet
    → String
    → ℕ
    → ℕ
    → ℕ
    → List FileManifest
    → List Checksum
    → SessionManifest
unfolding used_piece_size used_block_size
for_files_with_piece_size spec sources id total_size piece_size block_size files checksums =
    let piece_size' = used_piece_size total_size piece_size in
    let pieces = plan_piece_layouts total_size piece_size' in
    let block_size' = used_block_size piece_size' block_size in
    let blocks = plan_piece_blocks pieces block_size' in
    record {
      id = id;
      spec = spec;
      sources = sources;
      total_size = total_size;
      total_size_known = true;
      piece_size = piece_size';
      piece_count = as_u32 (length pieces);
      block_size = block_size';
      block_count = as_u32 (length blocks);
      files = files;
      pieces = pieces;
      blocks = blocks;
      checksums = checksums;
    }

-- The source builds this record as `for_files_with_piece_size` builds its own, with one file.
unfoldable pub for_single_file_with_piece_size :
    DownloadSpec → SourceSet → String → String → ℕ → ℕ → ℕ → List Checksum → SessionManifest
unfolding for_files_with_piece_size
for_single_file_with_piece_size spec sources file_name file_path total_size piece_size block_size
      checksums =
    for_files_with_piece_size spec sources (identity_key spec) total_size piece_size block_size
      (record { path = file_path; file_name = file_name; length = total_size; offset = 0 } ∷ [])
      checksums

unfoldable pub for_single_file :
    DownloadSpec → SourceSet → String → String → ℕ → List Checksum → SessionManifest
unfolding for_single_file_with_piece_size
for_single_file spec sources file_name file_path total_size checksums =
    for_single_file_with_piece_size spec sources file_name file_path total_size default_piece_size
      default_block_size checksums

unfoldable pub for_streaming_file :
    DownloadSpec → SourceSet → String → String → List Checksum → SessionManifest
for_streaming_file spec sources file_name file_path checksums = record {
  id = identity_key spec;
  spec = spec;
  sources = sources;
  total_size = 0;
  total_size_known = false;
  piece_size = default_piece_size;
  piece_count = 0;
  block_size = default_block_size;
  block_count = 0;
  files = record { path = file_path; file_name = file_name; length = 0; offset = 0 } ∷ [];
  pieces = [];
  blocks = [];
  checksums = checksums;
}
