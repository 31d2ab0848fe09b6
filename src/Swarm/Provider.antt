-- ===== src/Swarm/Provider.antt =====
-- src/p2p/provider.rs: the candidates that providers report, and their merge into the hints of a
-- torrent within limits. What a provider answers is a parameter, but for those that ask nobody.
use Prim.Native.Char.{code}
use paradown.Prelude.{
  ℕ, String, Bool, false, not, ◌&&◌, Option, some, none, List, [], ◌∷◌, ◌++◌, ltb, leb, ◌==◌,
  str_eq, if◌then◌else◌, any, filter, map, length,
}
use paradown.Text.{trim, is_empty_text}
use paradown.Failure.{Result, ok, err, ◌>>=◌}
use paradown.Domain.Source.{
  SourceDescriptor, tracker_source, peer_source, web_seed_source, from_spec,
}
use paradown.Domain.Spec.{DownloadSpec, UrlParse, parse}
use paradown.Swarm.{
  TorrentPeerEndpoint, parse_peer, peer_text, TorrentSwarmHints, add_tracker, add_peer,
  add_web_seed, MagnetLink, UrlParts, parse_magnet,
}

pub record SwarmProviderLimits : Type 0 where
  pub max_trackers : ℕ
  pub max_peers : ℕ
  pub max_web_seeds : ℕ
  pub max_locators : ℕ
  pub max_diagnostics : ℕ

pub data CandidateKind : Type 0 where
  tracker peer web_seed magnet torrent_file : CandidateKind

abbrev pub rank : CandidateKind → ℕ
rank tracker = 0
rank peer = 1
rank web_seed = 2
rank magnet = 3
rank torrent_file = 4

pub record Candidate : Type 0 where
  pub kind : CandidateKind
  pub locator : String
  pub display_name : Option String
  pub provider : String
  pub source : String

pub data Severity : Type 0 where
  info warning error : Severity

-- The message is left out: the source of a diagnostic says what failed.
pub record Diagnostic : Type 0 where
  pub provider : String
  pub severity : Severity
  pub source : Option String

pub record Report : Type 0 where
  pub provider : String
  pub candidates : List Candidate
  pub diagnostics : List Diagnostic

unfoldable pub new_report : String → Report
new_report provider = record { provider = provider; candidates = []; diagnostics = [] }

-- TorrentSwarmProviderReport::push
unfoldable pub push : Candidate → Report → Report
unfolding trim
push candidate report =
    if is_empty_text (trim candidate.locator)
    then report
    else record report { candidates = report.candidates ++ candidate ∷ [] }

unfoldable pub diagnostic : Severity → Option String → Report → Report
diagnostic severity source report = record report {
  diagnostics =
      report.diagnostics
      ++ record { provider = report.provider; severity = severity; source = source } ∷ [];
}

abbrev pub new_candidate : CandidateKind → String → String → String → Candidate
new_candidate kind provider locator source = record {
  kind = kind;
  locator = locator;
  display_name = none;
  provider = provider;
  source = source;
}

abbrev spec_descriptor : Result DownloadSpec → Option SourceDescriptor
spec_descriptor (err e) = none
spec_descriptor (ok spec) = some (from_spec spec none)

unfoldable pub source_descriptor : (String → UrlParse) → Candidate → Option SourceDescriptor
unfolding tracker_source peer_source web_seed_source from_spec parse
source_descriptor url_parse c = elim c.kind [
  | tracker ↦ some (tracker_source c.locator)
  | peer ↦ some (peer_source c.locator)
  | web_seed ↦ some (web_seed_source c.locator)
  | magnet ↦ spec_descriptor (parse url_parse c.locator)
  | torrent_file ↦ spec_descriptor (parse url_parse c.locator)
]

pub record Resolution : Type 0 where
  pub hints : TorrentSwarmHints
  pub candidates : List Candidate
  pub diagnostics : List Diagnostic
  pub reports : List Report

unfoldable pub empty_resolution : TorrentSwarmHints → Resolution
empty_resolution hints = record { hints = hints; candidates = []; diagnostics = []; reports = [] }

-- The set of what was seen, as a list.
abbrev pub Seen : Type 0
Seen = List (CandidateKind × String)

abbrev pub same_key : CandidateKind × String → CandidateKind × String → Bool
same_key (k, s) (l, t) = rank k == rank l && str_eq s t

abbrev keys_of : CandidateKind → List String → Seen → Seen
keys_of kind locators seen = map (λ locator. (kind, locator)) locators ++ seen

unfoldable pub seed_seen_from_hints : TorrentSwarmHints → Seen
unfolding peer_text
seed_seen_from_hints hints =
    keys_of tracker hints.trackers
      (keys_of peer (map peer_text hints.peers) (keys_of web_seed hints.web_seeds []))

unfoldable pub push_limited_diagnostic : SwarmProviderLimits → Diagnostic → Resolution → Resolution
push_limited_diagnostic limits d r =
    if ltb (length r.diagnostics) limits.max_diagnostics
    then record r { diagnostics = r.diagnostics ++ d ∷ [] }
    else r

abbrev pub is_locator : Candidate → Bool
is_locator c = leb 3 (rank c.kind)

abbrev pub pushed : Candidate → Resolution → Resolution
pushed c r = record r { candidates = r.candidates ++ c ∷ [] }

abbrev pub with_hints : TorrentSwarmHints → Resolution → Resolution
with_hints hints r = record r { hints = hints }

abbrev pub insert_peer : Candidate → Result TorrentPeerEndpoint → Resolution → Resolution
insert_peer c (err e) r = r
insert_peer c (ok endpoint) r = pushed c (with_hints (add_peer endpoint r.hints) r)

-- The match on the kind of a candidate that was not seen before.
abbrev pub insert_kind : SwarmProviderLimits → Candidate → CandidateKind → Resolution → Resolution
insert_kind limits c tracker r =
    if leb limits.max_trackers (length r.hints.trackers)
    then r
    else pushed c (with_hints (add_tracker c.locator r.hints) r)
insert_kind limits c peer r =
    if leb limits.max_peers (length r.hints.peers)
    then r
    else insert_peer c (parse_peer c.locator) r
insert_kind limits c web_seed r =
    if leb limits.max_web_seeds (length r.hints.web_seeds)
    then r
    else pushed c (with_hints (add_web_seed c.locator r.hints) r)
insert_kind limits c magnet r =
    if leb limits.max_locators (length (filter is_locator r.candidates)) then r else pushed c r
insert_kind limits c torrent_file r =
    if leb limits.max_locators (length (filter is_locator r.candidates)) then r else pushed c r

-- The Boolean of the source's function is not used by its caller.
unfoldable pub insert_candidate :
    SwarmProviderLimits → Candidate → Resolution × Seen → Resolution × Seen
unfolding add_tracker add_peer add_web_seed parse_peer
insert_candidate limits c (r, seen) =
    if any (same_key (c.kind, c.locator)) seen
    then (r, seen)
    else (insert_kind limits c c.kind r, (c.kind, c.locator) ∷ seen)

unfoldable pub insert_candidates :
    SwarmProviderLimits → List Candidate → Resolution × Seen → Resolution × Seen
unfolding insert_candidate
insert_candidates limits [] state = state
insert_candidates limits (c ∷ cs) state =
    insert_candidates limits cs (insert_candidate limits c state)

unfoldable pub push_diagnostics : SwarmProviderLimits → List Diagnostic → Resolution → Resolution
unfolding push_limited_diagnostic
push_diagnostics limits [] r = r
push_diagnostics limits (d ∷ ds) r = push_diagnostics limits ds (push_limited_diagnostic limits d r)

-- A provider: its name, and what it answers for a specification and the hints so far.
pub record SwarmProvider : Type 0 where
  pub name : String
  pub discover : DownloadSpec → TorrentSwarmHints → Result Report

abbrev pub take_report :
    SwarmProviderLimits → String → Result Report → Resolution × Seen → Resolution × Seen
take_report limits name (err e) (r, seen) = (
  push_limited_diagnostic limits (record { provider = name; severity = error; source = none }) r,
  seen,
)
take_report limits name (ok report) (r, seen) =
    let (inserted, seen') =
      insert_candidates limits report.candidates
        (push_diagnostics limits report.diagnostics r, seen) in
    (record inserted { reports = inserted.reports ++ report ∷ [] }, seen')

unfoldable pub resolve_loop :
    SwarmProviderLimits → DownloadSpec → List SwarmProvider → Resolution × Seen → Resolution × Seen
unfolding insert_candidates push_diagnostics push_limited_diagnostic
resolve_loop limits spec [] state = state
resolve_loop limits spec (p ∷ ps) state =
    resolve_loop limits spec ps (take_report limits p.name (p.discover spec state.0.hints) state)

unfoldable pub resolve :
    SwarmProviderLimits → List SwarmProvider → DownloadSpec → TorrentSwarmHints → Resolution
unfolding resolve_loop empty_resolution seed_seen_from_hints
resolve limits providers spec initial_hints =
    (resolve_loop limits spec providers
      (empty_resolution initial_hints, seed_seen_from_hints initial_hints)).0

-- `for .. { report.push(..) }`
unfoldable pub push_all : (String → Candidate) → List String → Report → Report
unfolding push
push_all candidate [] report = report
push_all candidate (locator ∷ locators) report =
    push_all candidate locators (push (candidate locator) report)

-- MagnetHintProvider
abbrev report_magnet : MagnetLink → Report → Report
report_magnet link report =
    push_all (λ locator. new_candidate web_seed "magnet-hints" locator "magnet:ws") link.web_seeds
      (push_all (λ locator. new_candidate peer "magnet-hints" locator "magnet:x.pe")
        (map peer_text link.peers)
        (push_all (λ locator. new_candidate tracker "magnet-hints" locator "magnet:tr")
          link.trackers report))

unfoldable pub discover_magnet : (String → Result UrlParts) → DownloadSpec → Result Report
unfolding parse_magnet push_all peer_text new_report
discover_magnet url_parse (DownloadSpec.magnet uri) =
    parse_magnet url_parse uri >>= λ link. ok (report_magnet link (new_report "magnet-hints"))
discover_magnet url_parse spec = ok (new_report "magnet-hints")

abbrev starts_with_hash : String → Bool
starts_with_hash String.[] = false
starts_with_hash (String.◌∷◌ c s) = code c == b'#'

-- `lines` is what `str::lines` gives.
unfoldable pub parse_tracker_lines : List String → List String
unfolding trim
parse_tracker_lines lines =
    filter (λ line. not (is_empty_text line) && not (starts_with_hash line)) (map trim lines)

-- StaticSwarmProvider; a tracker file is its path with the lines that are read from it.
pub record StaticSwarmProvider : Type 0 where
  pub trackers : List String
  pub tracker_files : List (String × Result (List String))
  pub peers : List String
  pub web_seeds : List String

abbrev report_file : String → Result (List String) → Report → Report
report_file path (err e) report = diagnostic error (some path) report
report_file path (ok lines) report =
    push_all (λ locator. new_candidate tracker "static" locator path) (parse_tracker_lines lines)
      report

unfoldable pub report_files : List (String × Result (List String)) → Report → Report
unfolding push_all diagnostic parse_tracker_lines
report_files [] report = report
report_files ((path, contents) ∷ files) report =
    report_files files (report_file path contents report)

abbrev report_peer : Result TorrentPeerEndpoint → Report → Report
report_peer (err e) report = diagnostic error (some "config:peer") report
report_peer (ok endpoint) report =
    push (new_candidate peer "static" (peer_text endpoint) "config:peer") report

unfoldable pub report_peers : List String → Report → Report
unfolding push peer_text diagnostic parse_peer
report_peers [] report = report
report_peers (p ∷ ps) report = report_peers ps (report_peer (parse_peer p) report)

unfoldable pub discover_static : StaticSwarmProvider → Report
unfolding push_all report_files report_peers new_report
discover_static p =
    push_all (λ locator. new_candidate web_seed "static" locator "config:web-seed") p.web_seeds
      (report_peers p.peers (
        report_files p.tracker_files (
          push_all (λ locator. new_candidate tracker "static" locator "config:tracker") p.trackers
            (new_report "static"))))
