-- ===== src/Examples/Probe.antt =====
-- src/protocol_probe.rs at the answers of a server that serves ranges.
use paradown.Prelude.{◌≡◌, ◌⊎◌, refl, true, some, none}
use paradown.Failure.{ok}
use paradown.Probe.{Response, DownloadProtocolProbe, probe_download_target}
use paradown.Probe.Laws.{RangeEvidence, probe_download_target-RangeEvidence}

abbrev head : Response
head = record {
  status = 200;
  url = "https://example.com/file";
  content_length = some (ok "8");
  content_range = none;
  accept_ranges = some (ok "bytes");
  entity_tag = some (ok "v1");
  last_modified = none;
  suggested_file_name = ok none;
}

abbrev first_byte : Response
first_byte = record head {
  status = 206;
  content_length = some (ok "1");
  content_range = some (ok "bytes 0-0/8");
}

abbrev found : DownloadProtocolProbe
found = record {
  total_size = some 8;
  supports_range_requests = true;
  resource_identity = record {
    resolved_url = some "https://example.com/file";
    entity_tag = some "v1";
    last_modified = none;
  };
  suggested_file_name = none;
}

probe_download_target-RangeEvidence_example :
    (found.total_size ≡ some 0)
    ⊎ ((response : Response) × (ok first_byte ≡ ok response) × RangeEvidence response found)
unfolding probe_download_target
probe_download_target-RangeEvidence_example =
    probe_download_target-RangeEvidence (ok head) (ok first_byte) found refl refl
