-- ===== src/Examples/Swarm.antt =====
-- src/p2p at a torrent of two files, and at a provider that reports one tracker twice.
use paradown.Prelude.{String, false, ◌≡◌, refl, none, List, [], ◌∷◌}
use paradown.Failure.{ok, ◌>>=◌}
use paradown.Domain.Spec.{DownloadSpec}
use paradown.Manifest.{FileManifest}
use paradown.Requests.{TorrentMetadata}
use paradown.Swarm.{no_hints, parse_peer, peer_text, parse_exact_topic, btih}
use paradown.Swarm.Provider.{
  SwarmProviderLimits, Candidate, tracker, new_candidate, SwarmProvider, resolve,
}
use paradown.Swarm.Limits.{Within, resolve-Within}
use paradown.Swarm.Files.{join, is_multi_file, file_path, build_file_manifests}
use paradown.Swarm.Placed.{Placed, build_file_manifests-Placed}

abbrev limits : SwarmProviderLimits
limits = record {
  max_trackers = 1;
  max_peers = 1;
  max_web_seeds = 1;
  max_locators = 1;
  max_diagnostics = 1;
}

abbrev found : List Candidate
found =
    new_candidate tracker "list" "udp://one" "file"
    ∷ new_candidate tracker "list" "udp://one" "file"
    ∷ new_candidate tracker "list" "udp://two" "file"
    ∷ []

abbrev provider : SwarmProvider
provider = record {
  name = "list";
  discover = λ spec hints. ok (record { provider = "list"; candidates = found; diagnostics = [] });
}

resolve-Within_example :
    Within limits no_hints
      (resolve limits (provider ∷ []) (DownloadSpec.magnet "magnet:?") no_hints)
resolve-Within_example =
    resolve-Within limits (provider ∷ []) (DownloadSpec.magnet "magnet:?") no_hints

one_tracker :
    (resolve limits (provider ∷ []) (DownloadSpec.magnet "magnet:?") no_hints).hints.trackers
    ≡ "udp://one" ∷ []
unfolding resolve
one_tracker = refl

-- Peers and topics as the unit tests of src/p2p/magnet.rs read them.
peer_round_trip : (parse_peer " host:6881 " >>= λ peer. ok (peer_text peer)) ≡ ok "host:6881"
unfolding parse_peer peer_text
peer_round_trip = refl

topic : parse_exact_topic "urn:btih:ABC1" ≡ btih "abc1"
unfolding parse_exact_topic
topic = refl

abbrev bundle : String → TorrentMetadata
bundle name = record {
  name = name;
  info_hash_v1 = none;
  info_hash_v2 = none;
  piece_size = 4;
  piece_count = 3;
  total_size = 10;
  private = false;
  files =
      record { path_components = "a.bin" ∷ []; length = 4; offset = 0 }
      ∷ record { path_components = "nested" ∷ "b.bin" ∷ []; length = 6; offset = 4 }
      ∷ [];
  piece_hashes = [];
  trackers = [];
  web_seeds = [];
}

abbrev placed : List FileManifest
placed =
    record { path = "/downloads/bundle/a.bin"; file_name = "a.bin"; length = 4; offset = 0 }
    ∷ record {
      path = "/downloads/bundle/nested/b.bin";
      file_name = "b.bin";
      length = 6;
      offset = 4;
    }
    ∷ []

build_file_manifests-Placed_example :
    Placed (bundle "bundle") "/downloads" none (bundle "bundle").files placed
unfolding build_file_manifests
build_file_manifests-Placed_example =
    build_file_manifests-Placed (bundle "bundle") "/downloads" none placed refl

-- A name that is an absolute path leads out of the download directory.
absolute_name : file_path (bundle "/etc") "/downloads" none "a.bin" ≡ "/etc/a.bin"
unfolding file_path is_multi_file join
absolute_name = refl
