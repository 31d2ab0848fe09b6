-- ===== src/Requests.antt =====
-- src/request/task.rs and src/request/segment.rs: what a task and a worker are built from, and the
-- torrent data of src/p2p/engine.rs that a task carries.
use paradown.Prelude.{ℕ, String, Bool, Option, some, none, List, []}
use paradown.Checksum.{Checksum}
use paradown.Domain.Http.{HttpRequestOptions, HttpResourceIdentity}
use paradown.Domain.Source.{SourceSet}
use paradown.Domain.Spec.{DownloadSpec}
use paradown.Piece.{PieceState, BlockState}
use paradown.Status.{Status}

pub data TorrentEngineBackend : Type 0 where
  libtorrent : TorrentEngineBackend

pub record TorrentEngineHandle : Type 0 where
  pub backend : TorrentEngineBackend
  pub external_id : String

pub data TorrentEngineState : Type 0 where
  resolving_metadata checking_files downloading seeding paused completed : TorrentEngineState
  error : String → TorrentEngineState

pub record TorrentFileEntry : Type 0 where
  pub path_components : List String
  pub length : ℕ
  pub offset : ℕ

pub record TorrentPieceHash : Type 0 where
  pub piece_index : ℕ
  pub sha1 : Option String
  pub sha256 : Option String

pub record TorrentTracker : Type 0 where
  pub url : String
  pub tier : ℕ

pub record TorrentMetadata : Type 0 where
  pub name : String
  pub info_hash_v1 : Option String
  pub info_hash_v2 : Option String
  pub piece_size : ℕ
  pub piece_count : ℕ
  pub total_size : ℕ
  pub private : Bool
  pub files : List TorrentFileEntry
  pub piece_hashes : List TorrentPieceHash
  pub trackers : List TorrentTracker
  pub web_seeds : List String

pub record TorrentResumeSnapshot : Type 0 where
  pub handle : TorrentEngineHandle
  pub state : TorrentEngineState
  pub metadata : Option TorrentMetadata
  pub resume_data : Option (List ℕ)

-- Times are numbers.
pub record TaskRequest : Type 0 where
  pub id : Option ℕ
  pub spec : DownloadSpec
  pub file_name : Option String
  pub file_path : Option String
  pub resource_identity : Option HttpResourceIdentity
  pub http_request : Option HttpRequestOptions
  pub sources : Option SourceSet
  pub piece_states : Option (List PieceState)
  pub block_states : Option (List BlockState)
  pub checksums : Option (List Checksum)
  pub status : Option Status
  pub downloaded_size : Option ℕ
  pub total_size : Option ℕ
  pub torrent_resume : Option TorrentResumeSnapshot
  pub created_at : Option ℕ
  pub updated_at : Option ℕ

-- TaskRequest::builder(spec).build()
unfoldable pub task_request : DownloadSpec → TaskRequest
task_request spec = record {
  id = none;
  spec = spec;
  file_name = none;
  file_path = none;
  resource_identity = none;
  http_request = none;
  sources = none;
  piece_states = none;
  block_states = none;
  checksums = some [];
  status = none;
  downloaded_size = none;
  total_size = none;
  torrent_resume = none;
  created_at = none;
  updated_at = none;
}

pub record SegmentRequest : Type 0 where
  pub id : Option ℕ
  pub task_id : ℕ
  pub index : ℕ
  pub source_id : Option String
  pub piece_start : Option ℕ
  pub piece_end : Option ℕ
  pub block_start : Option ℕ
  pub block_end : Option ℕ
  pub start : ℕ
  pub end : ℕ
  pub downloaded : Option ℕ
  pub status : Option String
  pub updated_at : Option ℕ
