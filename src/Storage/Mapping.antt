-- ===== src/Storage/Mapping.antt =====
-- src/storage/mapping.rs: rows from states and requests from rows. serde_json and url::Url::parse
-- are parameters.
use paradown.Prelude.{
  ℕ, String, Bool, false, ◌&&◌, ◌||◌, Option, some, none, List, map, ltb, ◌==◌, str_eq,
  if◌then◌else◌, unwrap_or, or_else, sort_by, and_then,
}
use paradown.Text.{is_empty_text, trim, eq_ignoring_case}
use paradown.Failure.{Result, ok, err}
use paradown.Status.{Status, from_str}
use paradown.Checksum.{Checksum, ChecksumAlgorithm, md5, sha1, sha256, none_algorithm}
use paradown.Piece.{PieceState, BlockState}
use paradown.Domain.Spec.{DownloadSpec, https, UrlParse, parse}
use paradown.Domain.Source.{SourceSet}
use paradown.Requests.{
  TaskRequest, SegmentRequest, TorrentEngineBackend, libtorrent, TorrentEngineState,
  TorrentMetadata, TorrentResumeSnapshot,
}
use paradown.Storage.{
  DbDownloadTask, DbDownloadWorker, DbDownloadPiece, DbDownloadBlock, DbDownloadChecksum,
}

unfoldable pub algorithm_name : ChecksumAlgorithm → String
algorithm_name md5 = "MD5"
algorithm_name sha1 = "SHA1"
algorithm_name sha256 = "SHA256"
algorithm_name none_algorithm = "NONE"

unfoldable pub algorithm_named : String → ChecksumAlgorithm
algorithm_named s =
    if str_eq s "MD5"
    then md5
    else if str_eq s "SHA1"
    then sha1
    else if str_eq s "SHA256"
    then sha256
    else none_algorithm

unfoldable pub checksum_to_db : Checksum → ℕ → DbDownloadChecksum
unfolding algorithm_name
checksum_to_db checksum task_id = record {
  id = 0;
  task_id = task_id;
  algorithm = algorithm_name checksum.algorithm;
  value = unwrap_or checksum.value "";
  verified = unwrap_or checksum.verified false;
  verified_at = checksum.verified_at;
}

unfoldable pub db_to_checksum : DbDownloadChecksum → Checksum
unfolding algorithm_named
db_to_checksum model = record {
  algorithm = algorithm_named model.algorithm;
  value = some model.value;
  verified = some model.verified;
  verified_at = model.verified_at;
}

unfoldable pub piece_states_to_db : ℕ → List PieceState → List DbDownloadPiece
piece_states_to_db task_id = map λ (piece : PieceState). record {
  task_id = task_id;
  piece_index = piece.piece_index;
  completed = piece.completed;
  updated_at = none;
}

abbrev pub piece_of_row : DbDownloadPiece → PieceState
piece_of_row piece = record { piece_index = piece.piece_index; completed = piece.completed }

unfoldable pub db_pieces_to_piece_states : List DbDownloadPiece → List PieceState
unfolding sort_by
db_pieces_to_piece_states pieces =
    map piece_of_row
      (sort_by (λ (left right : DbDownloadPiece). ltb right.piece_index left.piece_index) pieces)

unfoldable pub block_states_to_db : ℕ → List BlockState → List DbDownloadBlock
block_states_to_db task_id = map λ (block : BlockState). record {
  task_id = task_id;
  piece_index = block.piece_index;
  block_index = block.block_index;
  completed = block.completed;
  updated_at = none;
}

-- The order of the keys (piece_index, block_index).
abbrev pub key_after : ℕ → ℕ → ℕ → ℕ → Bool
key_after piece block piece' block' = ltb piece' piece || piece' == piece && ltb block' block

abbrev pub block_of_row : DbDownloadBlock → BlockState
block_of_row block = record {
  piece_index = block.piece_index;
  block_index = block.block_index;
  completed = block.completed;
}

unfoldable pub db_blocks_to_block_states : List DbDownloadBlock → List BlockState
unfolding sort_by
db_blocks_to_block_states blocks = map block_of_row (
    sort_by
      (λ (left right : DbDownloadBlock).
        key_after left.piece_index left.block_index right.piece_index right.block_index)
      blocks)

unfoldable pub db_workers_to_requests : List DbDownloadWorker → List SegmentRequest
db_workers_to_requests = map λ (worker : DbDownloadWorker). record {
  id = some worker.id;
  task_id = worker.task_id;
  index = worker.index;
  source_id = worker.source_id;
  piece_start = worker.piece_start;
  piece_end = worker.piece_end;
  block_start = worker.block_start;
  block_end = worker.block_end;
  start = worker.start;
  end = worker.end;
  downloaded = some worker.downloaded;
  status = some worker.status;
  updated_at = worker.updated_at;
}

unfoldable pub normalized_text_field : String → Option String
unfolding trim
normalized_text_field value = if is_empty_text (trim value) then none else some (trim value)

-- What serde_json::from_str gives for the types that are stored as JSON, and url::Url::parse.
pub record Decoders : Type 0 where
  pub url_parse : String → UrlParse
  pub spec_from_json : String → Option DownloadSpec
  pub source_set_from_json : String → Option SourceSet
  pub torrent_state_from_json : String → Option TorrentEngineState
  pub torrent_metadata_from_json : String → Option TorrentMetadata

unfoldable pub torrent_backend_from_db : String → Option TorrentEngineBackend
unfolding trim eq_ignoring_case
torrent_backend_from_db value =
    if eq_ignoring_case (trim value) "libtorrent" then some libtorrent else none

unfoldable pub db_task_to_torrent_resume : Decoders → DbDownloadTask → Option TorrentResumeSnapshot
unfolding torrent_backend_from_db normalized_text_field
db_task_to_torrent_resume decoders task =
    and_then (and_then task.torrent_backend torrent_backend_from_db) (λ backend.
      and_then (normalized_text_field (unwrap_or task.torrent_external_id "")) (λ external_id.
        some (record {
          handle = record { backend = backend; external_id = external_id };
          state =
              unwrap_or (and_then task.torrent_state_json decoders.torrent_state_from_json)
                TorrentEngineState.paused;
          metadata = and_then task.torrent_metadata_json decoders.torrent_metadata_from_json;
          resume_data = task.torrent_resume_data;
        })))

-- Result::ok
abbrev pub to_option {ℓ} : {A : Type ℓ} → Result A → Option A
to_option (ok a) = some a
to_option (err e) = none

unfoldable pub restored_spec : Decoders → DbDownloadTask → DownloadSpec
unfolding parse
restored_spec decoders task =
    unwrap_or
      (or_else (decoders.spec_from_json task.spec_json)
        (to_option (parse decoders.url_parse task.url)))
      (https task.url)

unfoldable pub db_task_to_request :
    Decoders
    → DbDownloadTask
    → List DbDownloadPiece
    → List DbDownloadBlock
    → List DbDownloadChecksum
    → TaskRequest
unfolding restored_spec normalized_text_field db_pieces_to_piece_states db_blocks_to_block_states
    db_to_checksum from_str db_task_to_torrent_resume
db_task_to_request decoders task pieces blocks checksums = record {
  id = some task.id;
  spec = restored_spec decoders task;
  file_name = normalized_text_field task.file_name;
  file_path = normalized_text_field task.file_path;
  resource_identity = some (record {
    resolved_url = normalized_text_field task.resolved_url;
    entity_tag = normalized_text_field task.entity_tag;
    last_modified = normalized_text_field task.last_modified;
  });
  http_request = none;
  sources = decoders.source_set_from_json task.source_set_json;
  piece_states = some (db_pieces_to_piece_states pieces);
  block_states = some (db_blocks_to_block_states blocks);
  checksums = some (map db_to_checksum checksums);
  status = some (unwrap_or (from_str task.status) Status.pending);
  downloaded_size = some task.downloaded_size;
  total_size = task.total_size;
  torrent_resume = db_task_to_torrent_resume decoders task;
  created_at = task.created_at;
  updated_at = task.updated_at;
}
