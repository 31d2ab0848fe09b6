-- ===== src/Domain/Spec.antt =====
-- src/domain/spec.rs: what a user asks for. `url::Url::parse` is a parameter.
pub mod Parsing
use Prim.Native.String.{◌++◌ as ◌+++◌}
use paradown.Prelude.{
  String, Bool, true, false, ◌||◌, Option, some, none, str_eq, if◌then◌else◌, or_else, unwrap_or,
}
use paradown.Failure.{Error, Result, ok, err, unsupported_protocol, url_parse_error}

pub data DownloadSpec : Type 0 where
  http https ftp : String → DownloadSpec
  torrent_file : String → DownloadSpec
  magnet : String → DownloadSpec
  metadata : Option String → Option String → DownloadSpec

-- What url::Url::parse says: the scheme, that the text is relative, or another error's text.
pub data UrlParse : Type 0 where
  parsed : String → UrlParse
  relative_url_without_base : UrlParse
  invalid : String → UrlParse

-- str::ends_with
unfoldable pub ends_with : String → String → Bool
ends_with String.[] t = str_eq "" t
ends_with (String.◌∷◌ c s) t = str_eq (String.◌∷◌ c s) t || ends_with s t

unfoldable pub of_scheme : String → String → Result DownloadSpec
of_scheme locator name =
    if str_eq name "http"
    then ok (http locator)
    else if str_eq name "https"
    then ok (https locator)
    else if str_eq name "ftp"
    then ok (ftp locator)
    else if str_eq name "magnet"
    then ok (magnet locator)
    else err (unsupported_protocol name)

unfoldable pub parse : (String → UrlParse) → String → Result DownloadSpec
unfolding of_scheme
parse url_parse locator = elim (url_parse locator) [
  | parsed s ↦ of_scheme locator s
  | relative_url_without_base ↦
      if ends_with locator ".torrent"
      then ok (torrent_file locator)
      else err (url_parse_error "relative URL without a base")
  | invalid e ↦ err (url_parse_error e)
]

unfoldable pub locator : DownloadSpec → String
locator (http url) = url
locator (https url) = url
locator (ftp url) = url
locator (torrent_file path) = path
locator (magnet uri) = uri
locator (metadata display_name info_hash) = unwrap_or (or_else info_hash display_name) "metadata"

unfoldable pub scheme : DownloadSpec → String
scheme (http url) = "http"
scheme (https url) = "https"
scheme (ftp url) = "ftp"
scheme (torrent_file path) = "torrent"
scheme (magnet uri) = "magnet"
scheme (metadata display_name info_hash) = "metadata"

unfoldable pub supports_origin_discovery : DownloadSpec → Bool
supports_origin_discovery (http url) = true
supports_origin_discovery (https url) = true
supports_origin_discovery _ = false

unfoldable pub supports_swarm_discovery : DownloadSpec → Bool
supports_swarm_discovery (torrent_file path) = true
supports_swarm_discovery (magnet uri) = true
supports_swarm_discovery (metadata display_name info_hash) = true
supports_swarm_discovery _ = false

unfoldable pub identity_key : DownloadSpec → String
identity_key (http url) = url
identity_key (https url) = url
identity_key (ftp url) = url
identity_key (torrent_file path) = "torrent-file:" +++ path
identity_key (magnet uri) = uri
identity_key (metadata display_name info_hash) =
    "metadata:" +++ unwrap_or info_hash "" +++ ":" +++ unwrap_or display_name ""
