-- ===== src/Probe.antt =====
-- src/protocol_probe.rs and src/discovery/origin.rs: what the origin says of a payload, by a HEAD
-- request and a request of the first byte. The answers of the server are parameters; so is what
-- `extract_suggested_file_name` reads from one.
pub mod Laws
use paradown.Prelude.{
  ℕ, String, Bool, true, false, ◌&&◌, Option, some, none, zero, ltb, leb, ◌==◌, str_eq,
  if◌then◌else◌, or_else, option_map, and_then, u64_mod,
}
use paradown.Text.{trim, strip_prefix, split_once, parse_unsigned, contains_lower}
use paradown.Failure.{Error, other, parse, unsupported_protocol, Result, ok, err, ◌>>=◌, ok_or}
use paradown.Domain.Http.{HttpResourceIdentity}
use paradown.Domain.Spec.{DownloadSpec}
use paradown.Job.Prepare.{OriginMetadata}

pub record DownloadProtocolProbe : Type 0 where
  pub total_size : Option ℕ
  pub supports_range_requests : Bool
  pub resource_identity : HttpResourceIdentity
  pub suggested_file_name : Option String

pub record ContentRange : Type 0 where
  pub start : ℕ
  pub end : ℕ
  pub total_size : Option ℕ

pub record HeadProbe : Type 0 where
  pub total_size : Option ℕ
  pub accepts_ranges : Bool
  pub resource_identity : HttpResourceIdentity
  pub suggested_file_name : Option String

-- A header's value as `to_str` gives it: a text, or an error.
abbrev pub Header : Type 0
Header = Option (Result String)

-- A response: its status code, its URL and the headers that are read; and what
-- `extract_suggested_file_name` gives for it.
pub record Response : Type 0 where
  pub status : ℕ
  pub url : String
  pub content_length : Header
  pub content_range : Header
  pub accept_ranges : Header
  pub entity_tag : Header
  pub last_modified : Header
  pub suggested_file_name : Result (Option String)

abbrev pub total_of : String → Option (Option ℕ)
total_of total_part =
    if str_eq total_part "*" then some none else option_map some (parse_unsigned u64_mod total_part)

abbrev pub content_range_of : String → String → String → Option ContentRange
content_range_of start_part end_part total_part =
    and_then (parse_unsigned u64_mod start_part) λ start.
      and_then (parse_unsigned u64_mod end_part) λ end.
        option_map (λ total_size. record { start = start; end = end; total_size = total_size })
          (total_of total_part)

unfoldable pub parse_content_range : String → Option ContentRange
unfolding trim strip_prefix split_once parse_unsigned
parse_content_range value = and_then (strip_prefix "bytes " (trim value)) λ rest.
    and_then (split_once b'/' rest)
      λ parts. and_then (split_once b'-' parts.0) λ range. content_range_of range.0 range.1 parts.1

unfoldable pub parse_unsatisfied_content_range : String → Option ℕ
unfolding trim strip_prefix parse_unsigned
parse_unsatisfied_content_range value =
    and_then (strip_prefix "bytes */" (trim value)) (parse_unsigned u64_mod)

-- Option::transpose
abbrev pub transpose {ℓ} : {A : Type ℓ} → Option (Result A) → Result (Option A)
transpose none = ok none
transpose (some (ok a)) = ok (some a)
transpose (some (err e)) = err e

unfoldable pub parse_content_length : Header → Result (Option ℕ)
unfolding parse_unsigned
parse_content_length value = transpose (
    option_map
      (λ (text : Result String). text >>= λ t. ok_or (parse_unsigned u64_mod t) (parse "number"))
      value)

-- `value.to_str().ok()`
abbrev pub text_of : Header → Option String
text_of none = none
text_of (some (ok t)) = some t
text_of (some (err e)) = none

unfoldable pub header_accepts_ranges : Header → Bool
unfolding contains_lower
header_accepts_ranges value = elim (text_of value) [
  | none ↦ false
  | some t ↦ contains_lower "bytes" t
]

unfoldable pub extract_resource_identity : Response → Result HttpResourceIdentity
extract_resource_identity response = transpose response.entity_tag >>= λ entity_tag.
    transpose response.last_modified >>= λ last_modified. ok (record {
      resolved_url = some response.url;
      entity_tag = entity_tag;
      last_modified = last_modified;
    })

unfoldable pub merge_resource_identity :
    Option HttpResourceIdentity → HttpResourceIdentity → HttpResourceIdentity
merge_resource_identity none response = response
merge_resource_identity (some head) response = record {
  resolved_url = or_else response.resolved_url head.resolved_url;
  entity_tag = or_else response.entity_tag head.entity_tag;
  last_modified = or_else response.last_modified head.last_modified;
}

abbrev is_success : ℕ → Bool
is_success status = leb 200 status && ltb status 300

abbrev head_of : Response → Result HeadProbe
head_of response = parse_content_length response.content_length >>= λ total_size.
    extract_resource_identity response >>= λ identity. response.suggested_file_name >>= λ name.
    ok (record {
      total_size = total_size;
      accepts_ranges = header_accepts_ranges response.accept_ranges;
      resource_identity = identity;
      suggested_file_name = name;
    })

-- `sent` is what sending the request gives; its error is no error of the probe.
unfoldable pub probe_with_head : Result Response → Result (Option HeadProbe)
unfolding parse_content_length extract_resource_identity header_accepts_ranges
probe_with_head (err e) = ok none
probe_with_head (ok response) =
    if is_success response.status then (head_of response >>= λ head. ok (some head)) else ok none

abbrev pub head_size : Option HeadProbe → Option ℕ
head_size head = and_then head (λ h. h.total_size)

-- The common end of the three branches: the identity and the name, from the response first.
abbrev pub described : Response → Option HeadProbe → Option ℕ → Bool → Result DownloadProtocolProbe
described response head total_size supports_range_requests =
    extract_resource_identity response >>= λ identity. response.suggested_file_name >>= λ name.
    ok (record {
      total_size = total_size;
      supports_range_requests = supports_range_requests;
      resource_identity =
          merge_resource_identity (option_map (λ (h : HeadProbe). h.resource_identity) head)
            identity;
      suggested_file_name = or_else name (and_then head (λ h. h.suggested_file_name));
    })

abbrev pub required_range : Header → Result ContentRange
required_range header = ok_or header (other "Missing Content-Range") >>= λ text.
    text >>= λ t. ok_or (parse_content_range t) (other "Invalid Content-Range")

abbrev pub is_positive : Option ℕ → Bool
is_positive none = false
is_positive (some n) = ltb 0 n

unfoldable pub probe_with_range_response :
    Response → Option HeadProbe → Result DownloadProtocolProbe
unfolding parse_content_range parse_unsatisfied_content_range parse_content_length
    extract_resource_identity merge_resource_identity
probe_with_range_response response head =
    if response.status == 206
    then (required_range response.content_range >>= λ range.
        described response head range.total_size true)
    else if response.status == 200
    then (parse_content_length response.content_length >>= λ total_size.
        described response head (or_else total_size (head_size head)) false)
    else if response.status == 416
    then (let total_size =
          or_else (and_then (text_of response.content_range) parse_unsatisfied_content_range)
            (head_size head) in
        described response head total_size (is_positive total_size))
    else err (other "Failed to probe download target")

-- The rest of the probe, from the size that the HEAD request gave: an empty payload needs no other
-- request.
abbrev pub probed : Result Response → HeadProbe → Option ℕ → Result DownloadProtocolProbe
probed range head (some zero) = ok (record {
  total_size = some 0;
  supports_range_requests = head.accepts_ranges;
  resource_identity = head.resource_identity;
  suggested_file_name = head.suggested_file_name;
})
probed range head size = range >>= λ response. probe_with_range_response response (some head)

abbrev pub probed_with : Result Response → Option HeadProbe → Result DownloadProtocolProbe
probed_with range none = range >>= λ response. probe_with_range_response response none
probed_with range (some head) = probed range head head.total_size

-- `head` and `range` are what the two requests give.
unfoldable pub probe_download_target :
    Result Response → Result Response → Result DownloadProtocolProbe
unfolding probe_with_head probe_with_range_response
probe_download_target head range = probe_with_head head >>= probed_with range

-- OriginMetadata has the file name too; it is left out here as in the preparation of a task.
abbrev origin_metadata : DownloadProtocolProbe → OriginMetadata
origin_metadata probe = record {
  total_size = probe.total_size;
  supports_range_requests = probe.supports_range_requests;
  resource_identity = probe.resource_identity;
}

unfoldable pub discover_origin :
    DownloadSpec → Result Response → Result Response → Result OriginMetadata
unfolding probe_download_target
discover_origin (DownloadSpec.http url) head range =
    probe_download_target head range >>= λ probe. ok (origin_metadata probe)
discover_origin (DownloadSpec.https url) head range =
    probe_download_target head range >>= λ probe. ok (origin_metadata probe)
discover_origin (DownloadSpec.ftp url) head range =
    err (unsupported_protocol "ftp discovery is not implemented yet")
discover_origin (DownloadSpec.torrent_file path) head range =
    err (unsupported_protocol "torrent discovery belongs to metadata/swarm pipeline")
discover_origin (DownloadSpec.magnet uri) head range =
    err (unsupported_protocol "magnet discovery belongs to metadata/swarm pipeline")
discover_origin (DownloadSpec.metadata display_name info_hash) head range =
    err (unsupported_protocol "metadata discovery belongs to metadata/swarm pipeline")
