-- ===== src/Swarm.antt =====
-- src/p2p/magnet.rs: hints at where the peers of a torrent are, and magnet links. The URL parser and
-- the form encoding are parameters. The rest of src/p2p that is modelled is in the child modules.
pub mod Provider
pub mod Limits
pub mod Files
pub mod Paths
pub mod Placed
use Prim.Native.String.{◌++◌ as ◌+++◌}
use paradown.Prelude.{
  ℕ, String, Bool, true, false, not, ◌&&◌, Option, some, none, List, [], ◌∷◌, ◌++◌, ◌==◌, str_eq,
  if◌then◌else◌, any, filter, map, is_empty,
}
use paradown.Text.{
  trim, is_empty_text, rsplit_once, parse_unsigned, strip_prefix, to_lower, print_digits,
}
use paradown.Failure.{Error, other, unsupported_protocol, Result, ok, err, ◌>>=◌, ok_or}
use paradown.Domain.Source.{SourceDescriptor, SourceSet, SourceKind}
use paradown.Domain.Spec.{DownloadSpec}

pub record TorrentPeerEndpoint : Type 0 where
  pub host : String
  pub port : ℕ

unfoldable pub parse_peer : String → Result TorrentPeerEndpoint
unfolding trim rsplit_once parse_unsigned
parse_peer value =
    ok_or (rsplit_once b':' (trim value)) (other "torrent peer must be HOST:PORT") >>= λ parts.
    if is_empty_text (trim parts.0)
    then err (other "torrent peer host cannot be blank")
    else (ok_or (parse_unsigned 65536 parts.1) (other "invalid torrent peer port") >>= λ port.
        ok (record { host = parts.0; port = port }))

-- Display; a port has at most five digits.
unfoldable pub peer_text : TorrentPeerEndpoint → String
unfolding print_digits
peer_text peer = peer.host +++ (":" +++ print_digits 5 peer.port "")

abbrev pub same_peer : TorrentPeerEndpoint → TorrentPeerEndpoint → Bool
same_peer a b = str_eq a.host b.host && a.port == b.port

pub record TorrentSwarmHints : Type 0 where
  pub trackers : List String
  pub peers : List TorrentPeerEndpoint
  pub web_seeds : List String

abbrev pub no_hints : TorrentSwarmHints
no_hints = record { trackers = []; peers = []; web_seeds = [] }

unfoldable pub is_empty_hints : TorrentSwarmHints → Bool
is_empty_hints hints = is_empty hints.trackers && is_empty hints.peers && is_empty hints.web_seeds

unfoldable pub push_unique : List String → String → List String
unfolding trim
push_unique values value =
    let value = trim value in
    if not (is_empty_text value) && not (any (λ existing. str_eq existing value) values)
    then values ++ value ∷ []
    else values

unfoldable pub add_tracker : String → TorrentSwarmHints → TorrentSwarmHints
unfolding push_unique
add_tracker tracker hints = record hints { trackers = push_unique hints.trackers tracker }

unfoldable pub add_peer : TorrentPeerEndpoint → TorrentSwarmHints → TorrentSwarmHints
add_peer peer hints =
    if any (λ existing. same_peer existing peer) hints.peers
    then hints
    else record hints { peers = hints.peers ++ peer ∷ [] }

unfoldable pub add_web_seed : String → TorrentSwarmHints → TorrentSwarmHints
unfolding push_unique
add_web_seed web_seed hints = record hints { web_seeds = push_unique hints.web_seeds web_seed }

-- A loop that adds each element of a list.
abbrev pub add_all {ℓ} :
    {A : Type ℓ}
    → (A → TorrentSwarmHints → TorrentSwarmHints)
    → List A
    → TorrentSwarmHints
    → TorrentSwarmHints
add_all add [] hints = hints
add_all add (x ∷ xs) hints = add_all add xs (add x hints)

unfoldable pub merge : TorrentSwarmHints → TorrentSwarmHints → TorrentSwarmHints
unfolding add_tracker add_peer add_web_seed
merge hints merged =
    add_all add_web_seed merged.web_seeds
      (add_all add_peer merged.peers (add_all add_tracker merged.trackers hints))

pub data MagnetExactTopic : Type 0 where
  btih btmh other_topic : String → MagnetExactTopic

pub record MagnetParameter : Type 0 where
  pub key : String
  pub value : String

pub record MagnetLink : Type 0 where
  pub uri : String
  pub exact_topics : List MagnetExactTopic
  pub display_name : Option String
  pub trackers : List String
  pub peers : List TorrentPeerEndpoint
  pub web_seeds : List String
  pub exact_sources : List String
  pub extensions : List MagnetParameter
  pub params : List MagnetParameter

unfoldable pub parse_exact_topic : String → MagnetExactTopic
unfolding strip_prefix to_lower
parse_exact_topic value = elim (strip_prefix "urn:btih:" value) [
  | some hash ↦ btih (to_lower hash)
  | none ↦ elim (strip_prefix "urn:btmh:" value) [
    | some hash ↦ btmh (to_lower hash)
    | none ↦ other_topic value
  ]
]

-- What the match on the key of a parameter does.
unfoldable pub read_parameter : MagnetParameter → MagnetLink → Result MagnetLink
unfolding parse_exact_topic push_unique parse_peer
read_parameter p link =
    if str_eq p.key "xt"
    then ok (record link { exact_topics = link.exact_topics ++ parse_exact_topic p.value ∷ [] })
    else if str_eq p.key "dn"
    then ok (record link { display_name = some p.value })
    else if str_eq p.key "tr"
    then ok (record link { trackers = push_unique link.trackers p.value })
    else if str_eq p.key "x.pe"
    then (parse_peer p.value >>= λ peer. ok (record link { peers = link.peers ++ peer ∷ [] }))
    else if str_eq p.key "ws"
    then ok (record link { web_seeds = push_unique link.web_seeds p.value })
    else if str_eq p.key "xs"
    then ok (record link { exact_sources = push_unique link.exact_sources p.value })
    else ok (record link { extensions = link.extensions ++ p ∷ [] })

-- `for (key, value) in parsed.query_pairs()`
unfoldable pub read_parameters : List MagnetParameter → MagnetLink → Result MagnetLink
unfolding read_parameter
read_parameters [] link = ok link
read_parameters (p ∷ ps) link = read_parameter p link >>= λ link.
    read_parameters ps (record link { params = link.params ++ p ∷ [] })

-- What is read of a URL: its scheme and its query, decoded.
pub record UrlParts : Type 0 where
  pub scheme : String
  pub query_pairs : List MagnetParameter

abbrev pub empty_link : String → MagnetLink
empty_link uri = record {
  uri = uri;
  exact_topics = [];
  display_name = none;
  trackers = [];
  peers = [];
  web_seeds = [];
  exact_sources = [];
  extensions = [];
  params = [];
}

unfoldable pub parse_magnet : (String → Result UrlParts) → String → Result MagnetLink
unfolding read_parameters
parse_magnet url_parse uri = url_parse uri >>= λ parsed.
    if not (str_eq parsed.scheme "magnet")
    then err (unsupported_protocol parsed.scheme)
    else read_parameters parsed.query_pairs (empty_link uri)

unfoldable pub swarm_hints : MagnetLink → TorrentSwarmHints
swarm_hints link = record {
  trackers = link.trackers;
  peers = link.peers;
  web_seeds = link.web_seeds;
}

unfoldable pub values_for_key : List MagnetParameter → String → List String
values_for_key params key =
    map (λ (p : MagnetParameter). p.value)
      (filter (λ (p : MagnetParameter). str_eq p.key key) params)

-- A loop of `enhance`: the values that are not there yet, each once.
unfoldable pub push_new :
    String → List String → List String → List MagnetParameter → List MagnetParameter
push_new key seen [] pairs = pairs
push_new key seen (value ∷ values) pairs =
    let rest = push_new key seen values pairs in
    let pushed =
      push_new key (value ∷ seen) values (pairs ++ record { key = key; value = value } ∷ []) in
    if any (λ v. str_eq v value) seen then rest else pushed

-- The parameters that `enhance` encodes.
unfoldable pub enhanced_pairs : MagnetLink → TorrentSwarmHints → List MagnetParameter
unfolding push_new values_for_key peer_text
enhanced_pairs link hints =
    let trackers = values_for_key link.params "tr" in
    let peers = values_for_key link.params "x.pe" in
    let web_seeds = values_for_key link.params "ws" in
    push_new "ws" web_seeds hints.web_seeds (
      push_new "x.pe" peers (map peer_text hints.peers)
        (push_new "tr" trackers hints.trackers link.params))

unfoldable pub enhance : (List MagnetParameter → String) → MagnetLink → TorrentSwarmHints → String
unfolding enhanced_pairs
enhance encode link hints = "magnet:?" +++ encode (enhanced_pairs link hints)

-- `for source in &sources.sources`
unfoldable pub add_sources : List SourceDescriptor → TorrentSwarmHints → Result TorrentSwarmHints
unfolding add_tracker parse_peer add_peer add_web_seed
add_sources [] hints = ok hints
add_sources (source ∷ sources) hints = elim source.kind [
  | SourceKind.tracker ↦ add_sources sources (add_tracker source.locator hints)
  | SourceKind.peer ↦
      parse_peer source.locator >>= λ peer. add_sources sources (add_peer peer hints)
  | SourceKind.web_seed ↦ add_sources sources (add_web_seed source.locator hints)
  | _ ↦ add_sources sources hints
]

abbrev magnet_hints : (String → Result UrlParts) → DownloadSpec → Result TorrentSwarmHints
magnet_hints url_parse (DownloadSpec.magnet uri) =
    parse_magnet url_parse uri >>= λ link. ok (merge no_hints (swarm_hints link))
magnet_hints url_parse spec = ok no_hints

unfoldable pub from_spec_and_sources :
    (String → Result UrlParts) → DownloadSpec → SourceSet → Result TorrentSwarmHints
unfolding parse_magnet merge swarm_hints add_sources
from_spec_and_sources url_parse spec sources =
    magnet_hints url_parse spec >>= add_sources sources.sources

unfoldable pub enhance_magnet_uri :
    (String → Result UrlParts)
    → (List MagnetParameter → String)
    → TorrentSwarmHints
    → String
    → Result String
unfolding parse_magnet enhance
enhance_magnet_uri url_parse encode hints uri =
    parse_magnet url_parse uri >>= λ link. ok (enhance encode link hints)
