-- ===== src/Probe/Laws.antt =====
-- What a probe of src/protocol_probe.rs promises of the origin.
use paradown.Prelude.{
  ℕ, zero, suc, Bool, true, false, ◌≡◌, refl, ◌⊎◌, inl, inr, Option, some, none, arith, Bool-cases,
  ◌==◌,
}
use paradown.Failure.{Result, ok, ◌>>=◌, >>=-eq-ok}
use paradown.Probe.{
  Response, HeadProbe, ContentRange, DownloadProtocolProbe, probe_with_head,
  probe_with_range_response, probe_download_target, required_range, described, is_positive, probed,
  probed_with, extract_resource_identity, parse_content_length,
}

-- Why a response to the request of the first byte shows that ranges are served: it is partial and
-- names the range that it holds, or it refuses that byte of a payload that has a known, positive
-- size.
abbrev pub RangeEvidence : Response → DownloadProtocolProbe → Type 0
RangeEvidence response probe =
    ((response.status ≡ 206)
      × ((range : ContentRange) × (required_range response.content_range ≡ ok range)
          × (probe.total_size ≡ range.total_size)))
    ⊎ ((response.status ≡ 416) × (is_positive probe.total_size ≡ true))

described_lem :
    (response : Response) (head : Option HeadProbe) (total : Option ℕ) (supports : Bool)
    (probe : DownloadProtocolProbe)
    → described response head total supports ≡ ok probe
    → (probe.total_size ≡ total) × (probe.supports_range_requests ≡ supports)
described_lem response head total supports probe h =
    let (identity, e, h') = >>=-eq-ok (extract_resource_identity response) _ probe h in
    let (name, e', h'') = >>=-eq-ok response.suggested_file_name _ probe h' in ground arith

probe_with_range_response_lem :
    (response : Response) (head : Option HeadProbe) (probe : DownloadProtocolProbe)
    → probe_with_range_response response head ≡ ok probe
    → probe.supports_range_requests ≡ true
    → RangeEvidence response probe
unfolding probe_with_range_response
probe_with_range_response_lem response head probe h s = elim (Bool-cases (response.status == 206)) [
  | inl e ↦
      let partial = rw e at h in
      let (range, found, d) = >>=-eq-ok (required_range response.content_range) _ probe partial in
      inl (ground arith, (range, found, (described_lem response head _ true probe d).0))
  | inr e ↦ elim (Bool-cases (response.status == 200)) [
    | inl k ↦
        let whole = rw (e, k) at h in
        let (total, found, d) =
          >>=-eq-ok (parse_content_length response.content_length) _ probe whole in
        absurd (ground (arith, described_lem response head _ false probe d))
    | inr k ↦ elim (Bool-cases (response.status == 416)) [
      | inl u ↦
          let refused = rw (e, k, u) at h in
          let d = described_lem response head _ _ probe refused in
          inr (ground arith, ground (arith, d))
      | inr u ↦ let failed = rw (e, k, u) at h in cc
    ]
  ]
]

ranged :
    (range : Result Response) (head : Option HeadProbe) (probe : DownloadProtocolProbe)
    → (range >>= λ response. probe_with_range_response response head) ≡ ok probe
    → probe.supports_range_requests ≡ true
    → (response : Response) × (range ≡ ok response) × RangeEvidence response probe
ranged range head probe h s =
    let (response, e, h') = >>=-eq-ok range _ probe h in
    (response, e, probe_with_range_response_lem response head probe h' s)

-- If a probe says that the origin serves ranges, then the payload is known to be empty, or the
-- request of the first byte was answered by a partial response with a Content-Range that gives
-- the size, or was refused although the payload has a known, positive size.
pub probe_download_target-RangeEvidence :
    (head range : Result Response) (probe : DownloadProtocolProbe)
    → probe_download_target head range ≡ ok probe
    → probe.supports_range_requests ≡ true
    → (probe.total_size ≡ some 0)
      ⊎ ((response : Response) × (range ≡ ok response) × RangeEvidence response probe)
unfolding probe_download_target
probe_download_target-RangeEvidence head range probe h s =
    let (head_probe, e, h') = >>=-eq-ok (probe_with_head head) _ probe h in by_head head_probe (h')
  where
    by_size :
        (h : HeadProbe) (size : Option ℕ)
        → size ≡ h.total_size
        → probed range h size ≡ ok probe
        → (probe.total_size ≡ some 0)
          ⊎ ((response : Response) × (range ≡ ok response) × RangeEvidence response probe)
    by_size h (some zero) e k = inl (ground arith)
    by_size h (some (suc n)) e k = inr (ranged range (some h) probe k s)
    by_size h none e k = inr (ranged range (some h) probe k s)

    by_head :
        (head_probe : Option HeadProbe)
        → probed_with range head_probe ≡ ok probe
        → (probe.total_size ≡ some 0)
          ⊎ ((response : Response) × (range ≡ ok response) × RangeEvidence response probe)
    by_head none k = inr (ranged range none probe k s)
    by_head (some h) k = by_size h h.total_size refl k
