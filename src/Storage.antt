-- ===== src/Storage.antt =====
-- src/repository/models.rs: the stored rows, and StoredBundle of src/storage/mod.rs.
pub mod Mapping
pub mod RoundTrip
pub mod Workers
pub mod Contract
pub mod Service
pub mod Abstract
use paradown.Prelude.{ℕ, String, Bool, Option, List}

pub record DbDownloadTask : Type 0 where
  pub id : ℕ
  pub url : String
  pub spec_json : String
  pub source_set_json : String
  pub resolved_url : String
  pub entity_tag : String
  pub last_modified : String
  pub file_name : String
  pub file_path : String
  pub status : String
  pub downloaded_size : ℕ
  pub total_size : Option ℕ
  pub torrent_backend : Option String
  pub torrent_external_id : Option String
  pub torrent_state_json : Option String
  pub torrent_metadata_json : Option String
  pub torrent_resume_data : Option (List ℕ)
  pub created_at : Option ℕ
  pub updated_at : Option ℕ

pub record DbDownloadWorker : Type 0 where
  pub id : ℕ
  pub task_id : ℕ
  pub index : ℕ
  pub source_id : Option String
  pub piece_start : Option ℕ
  pub piece_end : Option ℕ
  pub block_start : Option ℕ
  pub block_end : Option ℕ
  pub start : ℕ
  pub end : ℕ
  pub downloaded : ℕ
  pub status : String
  pub updated_at : Option ℕ

pub record DbDownloadPiece : Type 0 where
  pub task_id : ℕ
  pub piece_index : ℕ
  pub completed : Bool
  pub updated_at : Option ℕ

pub record DbDownloadBlock : Type 0 where
  pub task_id : ℕ
  pub piece_index : ℕ
  pub block_index : ℕ
  pub completed : Bool
  pub updated_at : Option ℕ

pub record DbDownloadChecksum : Type 0 where
  pub id : ℕ
  pub task_id : ℕ
  pub algorithm : String
  pub value : String
  pub verified : Bool
  pub verified_at : Option ℕ

pub record StoredBundle : Type 0 where
  pub task : DbDownloadTask
  pub workers : List DbDownloadWorker
  pub pieces : List DbDownloadPiece
  pub blocks : List DbDownloadBlock
  pub checksums : List DbDownloadChecksum
