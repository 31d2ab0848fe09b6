-- ===== src/Swarm/Files.antt =====
-- src/p2p/manifest.rs: the manifest of a torrent's files. A path is the list of its components.
use paradown.Prelude.{
  ℕ, ◌*◌, ◌==◌, String, Bool, false, ◌||◌, Option, List, [], ◌∷◌, ltb, str_eq, if◌then◌else◌,
  length, last, unwrap_or, or_else, min, max, is_empty,
}
use Prim.Native.Char.{code}
use Prim.Native.String.{◌++◌ as ◌+++◌}
use paradown.Domain.Source.{SourceSet}
use paradown.Domain.Spec.{DownloadSpec, ends_with}
use paradown.Manifest.{FileManifest, SessionManifest, for_files_with_piece_size}
use paradown.Text.{is_empty_text, contains_char}
use paradown.Failure.{other, Result, ok, err, ◌>>=◌}
use paradown.Requests.{TorrentFileEntry, TorrentMetadata}

abbrev torrent_block_size : ℕ
torrent_block_size = 16 * 1024

-- TorrentFileEntry::file_name, TorrentMetadata::stable_id and is_multi_file of src/p2p/engine.rs.
unfoldable pub file_name : TorrentFileEntry → String
file_name file = unwrap_or (last file.path_components) "payload.bin"

unfoldable pub stable_id : TorrentMetadata → String
stable_id metadata = unwrap_or (or_else metadata.info_hash_v2 metadata.info_hash_v1) metadata.name

unfoldable pub is_multi_file : TorrentMetadata → Bool
is_multi_file metadata = ltb 1 (length metadata.files)

unfoldable pub is_unsafe : String → Bool
unfolding contains_char
is_unsafe component =
    is_empty_text component
    || str_eq component "."
    || str_eq component ".."
    || contains_char b'/' component
    || contains_char 92 component

abbrev pub is_absolute : String → Bool
is_absolute String.[] = false
is_absolute (String.◌∷◌ c s) = code c == b'/'

-- Path::join and PathBuf::push
unfoldable pub join : String → String → String
unfolding ends_with
join path component =
    if is_absolute component
    then component
    else if is_empty_text path || ends_with path "/"
    then path +++ component
    else path +++ ("/" +++ component)

-- `for component in components`
unfoldable pub push_components : List String → String → Result String
unfolding join is_unsafe
push_components [] path = ok path
push_components (component ∷ components) path =
    if is_unsafe component
    then err (other "unsafe torrent path component")
    else push_components components (join path component)

unfoldable pub sanitized_relative_path : List String → Result String
unfolding push_components
sanitized_relative_path components =
    if is_empty components
    then err (other "torrent file path is empty")
    else push_components components ""

unfoldable pub file_path : TorrentMetadata → String → Option String → String → String
unfolding join is_multi_file
file_path metadata download_dir requested relative_path =
    if is_multi_file metadata
    then join (join download_dir metadata.name) relative_path
    else unwrap_or requested (join download_dir relative_path)

abbrev pub file_manifest : String → TorrentFileEntry → FileManifest
file_manifest path file = record {
  path = path;
  file_name = file_name file;
  length = file.length;
  offset = file.offset;
}

-- `for file in &metadata.files`
unfoldable pub files_loop :
    TorrentMetadata → String → Option String → List TorrentFileEntry → Result (List FileManifest)
unfolding sanitized_relative_path file_path file_name
files_loop metadata download_dir requested [] = ok []
files_loop metadata download_dir requested (file ∷ files) =
    sanitized_relative_path file.path_components >>= λ relative_path.
    files_loop metadata download_dir requested files >>= λ rest.
    ok (file_manifest (file_path metadata download_dir requested relative_path) file ∷ rest)

unfoldable pub build_file_manifests :
    TorrentMetadata → String → Option String → Result (List FileManifest)
unfolding files_loop
build_file_manifests metadata download_dir requested =
    if is_empty metadata.files
    then err (other "torrent metadata does not contain files")
    else files_loop metadata download_dir requested metadata.files

unfoldable pub manifest_from_torrent_metadata :
    DownloadSpec → SourceSet → TorrentMetadata → String → Option String → Result SessionManifest
unfolding build_file_manifests stable_id for_files_with_piece_size
manifest_from_torrent_metadata spec sources metadata download_dir requested =
    build_file_manifests metadata download_dir requested >>= λ files. ok (
      for_files_with_piece_size spec sources (stable_id metadata) metadata.total_size
        metadata.piece_size (min (max metadata.piece_size 1) torrent_block_size) files [])
