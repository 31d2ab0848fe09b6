-- ===== src/Domain/Source.antt =====
-- src/domain/source.rs: where a payload can come from, and the set of such sources.
pub mod Laws
use Prim.Native.String.{◌++◌ as ◌+++◌}
use paradown.Prelude.{
  ℕ, String, Bool, true, false, not, Option, some, none, List, [], ◌∷◌, ◌++◌, str_eq, if◌then◌else◌,
  or_else, unwrap_or, any, find, filter, first, is_empty, length,
}
use paradown.Domain.Spec.{DownloadSpec}
use paradown.Domain.Http.{HttpRequestOptions, HttpResourceIdentity}

pub data SourceKind : Type 0 where
  http https ftp torrent_file magnet metadata tracker dht peer web_seed mirror offline_cache :
      SourceKind

pub record SourceCapabilities : Type 0 where
  pub metadata_discovery : Bool
  pub random_access : Bool
  pub range_requests : Bool
  pub uploads : Bool
  pub dynamic_availability : Bool

abbrev pub http_origin : SourceCapabilities
http_origin = record {
  metadata_discovery = false;
  random_access = true;
  range_requests = true;
  uploads = false;
  dynamic_availability = false;
}

abbrev pub ftp_origin : SourceCapabilities
ftp_origin = record http_origin { range_requests = false }

abbrev pub metadata_only : SourceCapabilities
metadata_only = record {
  metadata_discovery = true;
  random_access = false;
  range_requests = false;
  uploads = false;
  dynamic_availability = true;
}

pub record SourceDescriptor : Type 0 where
  pub id : String
  pub kind : SourceKind
  pub locator : String
  pub metadata_only : Bool
  pub request : Option HttpRequestOptions
  pub resource_identity : Option HttpResourceIdentity
  pub capabilities : SourceCapabilities

-- A source of an HTTP or FTP origin, and one that only leads to other sources.
abbrev origin_source :
    String → SourceKind → String → Option HttpRequestOptions → SourceCapabilities → SourceDescriptor
origin_source id kind locator request capabilities = record {
  id = id;
  kind = kind;
  locator = locator;
  metadata_only = false;
  request = request;
  resource_identity = none;
  capabilities = capabilities;
}

abbrev metadata_source : String → SourceKind → String → SourceDescriptor
metadata_source id kind locator = record {
  id = id;
  kind = kind;
  locator = locator;
  metadata_only = true;
  request = none;
  resource_identity = none;
  capabilities = metadata_only;
}

unfoldable pub from_spec : DownloadSpec → Option HttpRequestOptions → SourceDescriptor
from_spec (DownloadSpec.http url) request =
    origin_source ("http::" +++ url) http url request http_origin
from_spec (DownloadSpec.https url) request =
    origin_source ("https::" +++ url) https url request http_origin
from_spec (DownloadSpec.ftp url) request =
    origin_source ("ftp::" +++ url) ftp url request ftp_origin
from_spec (DownloadSpec.torrent_file path) request =
    metadata_source ("torrent::" +++ path) torrent_file path
from_spec (DownloadSpec.magnet uri) request = metadata_source ("magnet::" +++ uri) magnet uri
from_spec (DownloadSpec.metadata display_name info_hash) request =
    let stable_key = unwrap_or (or_else info_hash display_name) "metadata" in
    metadata_source ("metadata::" +++ stable_key) metadata stable_key

unfoldable pub tracker_source : String → SourceDescriptor
tracker_source url = metadata_source ("tracker::" +++ url) tracker url

unfoldable pub peer_source : String → SourceDescriptor
peer_source endpoint = metadata_source ("peer::" +++ endpoint) peer endpoint

unfoldable pub web_seed_source : String → SourceDescriptor
web_seed_source url =
    origin_source ("web-seed::" +++ url) web_seed url none
      (record http_origin { dynamic_availability = true })

unfoldable pub can_transfer_payload : SourceDescriptor → Bool
can_transfer_payload source = not source.metadata_only

pub record SourceSet : Type 0 where
  pub primary_id : Option String
  pub sources : List SourceDescriptor

abbrev pub has_id : String → SourceDescriptor → Bool
has_id id source = str_eq source.id id

unfoldable pub single_primary : SourceDescriptor → SourceSet
single_primary source = record { primary_id = some source.id; sources = source ∷ [] }

unfoldable pub for_spec : DownloadSpec → Option HttpRequestOptions → SourceSet
unfolding single_primary
for_spec spec request = single_primary (from_spec spec request)

unfoldable pub push_unique : SourceSet → SourceDescriptor → SourceSet
push_unique set source =
    if any (has_id source.id) set.sources
    then set
    else record set { sources = set.sources ++ source ∷ [] }

unfoldable pub get : SourceSet → String → Option SourceDescriptor
get set source_id = find (has_id source_id) set.sources

unfoldable pub primary : SourceSet → Option SourceDescriptor
primary set = or_else preferred (first set.sources)
  where
    preferred : Option SourceDescriptor
    preferred = elim set.primary_id [ none ↦ none | some id ↦ find (has_id id) set.sources ]

-- iter_mut().find(..): change the first element that passes the test.
unfoldable pub update_first {ℓ} : {A : Type ℓ} → (A → Bool) → (A → A) → List A → List A
update_first test f [] = []
update_first test f (x ∷ xs) = if test x then f x ∷ xs else x ∷ update_first test f xs

-- Changes the source that `primary_mut` returns, if there is one.
unfoldable pub update_primary : (SourceDescriptor → SourceDescriptor) → SourceSet → SourceSet
update_primary f set = record set {
  sources = elim set.primary_id [
    | some id ↦ update_first (has_id id) f set.sources
    | none ↦ update_first (λ _. true) f set.sources
  ];
}

unfoldable pub active_transfer_sources : SourceSet → List SourceDescriptor
unfolding can_transfer_payload
active_transfer_sources set = filter can_transfer_payload set.sources

unfoldable pub replace_primary : SourceSet → SourceDescriptor → SourceSet
replace_primary set source = record {
  primary_id = some source.id;
  sources =
      if any (has_id source.id) set.sources
      then update_first (has_id source.id) (λ _. source) set.sources
      else source ∷ set.sources;
}
