-- ===== src/Swarm/Limits.antt =====
-- What the resolver of src/p2p/provider.rs makes of the candidates, whatever the providers answer.
use paradown.Prelude.{
  ℕ, ◌+◌, ◌≤◌, String, Bool, true, false, ◌≡◌, refl, ◌∙◌, ap, inl, inr, List, [], ◌∷◌, ◌++◌, arith,
  max, ltb, leb, if◌then◌else◌, any, filter, length, length-append, filter-append, Bool-cases,
  ltb→lt,
}
use paradown.Text.{trim}
use paradown.Failure.{Result, ok, err}
use paradown.Domain.Spec.{DownloadSpec}
use paradown.Swarm.{
  TorrentPeerEndpoint, parse_peer, TorrentSwarmHints, push_unique, add_tracker, add_peer,
  add_web_seed,
}
use paradown.Swarm.Provider.{
  SwarmProviderLimits, Candidate, CandidateKind, tracker, peer, web_seed, magnet, torrent_file,
  Diagnostic, Report, Resolution, Seen, SwarmProvider, same_key, is_locator, pushed, insert_peer,
  insert_kind, insert_candidate, insert_candidates, push_diagnostics, push_limited_diagnostic,
  take_report, resolve_loop, resolve, empty_resolution,
}

-- How much a resolution holds: of each kind no more than its limit, or than there was before.
pub record Within (limits : SwarmProviderLimits) (initial : TorrentSwarmHints) (r : Resolution)
    : Type 0 where
  pub trackers : length r.hints.trackers ≤ max limits.max_trackers (length initial.trackers)
  pub peers : length r.hints.peers ≤ max limits.max_peers (length initial.peers)
  pub web_seeds : length r.hints.web_seeds ≤ max limits.max_web_seeds (length initial.web_seeds)
  pub locators : length (filter is_locator r.candidates) ≤ limits.max_locators
  pub diagnostics : length r.diagnostics ≤ limits.max_diagnostics

length-push_unique :
    (values : List String) (value : String) → length (push_unique values value) ≤ length values + 1
unfolding push_unique
length-push_unique values value = ground (arith, length-append values (trim value ∷ []))

length-add_peer :
    (endpoint : TorrentPeerEndpoint) (hints : TorrentSwarmHints)
    → length (add_peer endpoint hints).peers ≤ length hints.peers + 1
unfolding add_peer
length-add_peer endpoint hints = ground (arith, length-append hints.peers (endpoint ∷ []))

add_peer-others :
    (endpoint : TorrentPeerEndpoint) (hints : TorrentSwarmHints)
    → ((add_peer endpoint hints).trackers ≡ hints.trackers)
      × ((add_peer endpoint hints).web_seeds ≡ hints.web_seeds)
unfolding add_peer
add_peer-others endpoint hints = (ground arith, ground arith)

below : (a b : ℕ) → leb a b ≡ false → b + 1 ≤ a
below a b k = ground arith

-- The locators among the candidates, with one more candidate.
locators-append :
    (cs : List Candidate) (c : Candidate) (b : Bool)
    → is_locator c ≡ b
    → length (filter is_locator (cs ++ c ∷ []))
      ≡ length (filter is_locator cs) + (if b then 1 else 0)
locators-append cs c b e =
    ap length (filter-append is_locator cs (c ∷ []))
    ∙ length-append (filter is_locator cs) (filter is_locator (c ∷ []))
    ∙ ap (λ n. length (filter is_locator cs) + n) (one b e)
  where
    one : (b : Bool) → is_locator c ≡ b → length (filter is_locator (c ∷ [])) ≡ (if b then 1 else 0)
    one true e = rw e
    one false e = rw e

module _ (limits : SwarmProviderLimits) (initial : TorrentSwarmHints) where
  insert_peer-Within :
      (c : Candidate) (parsed : Result TorrentPeerEndpoint) (r : Resolution)
      → is_locator c ≡ false
      → length r.hints.peers + 1 ≤ limits.max_peers
      → Within limits initial r
      → Within limits initial (insert_peer c parsed r)
  insert_peer-Within c (err x) r e room h = h
  insert_peer-Within c (ok endpoint) r e room h = record {
    trackers = rw (add_peer-others endpoint r.hints).0 h.trackers;
    peers = omega (arith, length-add_peer endpoint r.hints, room);
    web_seeds = rw (add_peer-others endpoint r.hints).1 h.web_seeds;
    locators = omega (arith, locators-append r.candidates c false e, h.locators);
    diagnostics = h.diagnostics;
  }

  insert_locator :
      (c : Candidate) (r : Resolution)
      → is_locator c ≡ true
      → Within limits initial r
      → Within limits initial (
          if leb limits.max_locators (length (filter is_locator r.candidates))
          then r
          else pushed c r)
  insert_locator c r e h =
      elim (Bool-cases (leb limits.max_locators (length (filter is_locator r.candidates)))) [
        | inl k ↦ rw k h
        | inr k ↦ rw k (record {
          trackers = h.trackers;
          peers = h.peers;
          web_seeds = h.web_seeds;
          locators = omega (arith, locators-append r.candidates c true e, below _ _ k);
          diagnostics = h.diagnostics;
        })
      ]

  insert_kind-Within :
      (c : Candidate) (kind : CandidateKind) (r : Resolution)
      → c.kind ≡ kind
      → Within limits initial r
      → Within limits initial (insert_kind limits c kind r)
  unfolding add_tracker add_web_seed
  insert_kind-Within c tracker r e h =
      elim (Bool-cases (leb limits.max_trackers (length r.hints.trackers))) [
        | inl k ↦ rw k h
        | inr k ↦ rw k (record {
          trackers = omega (arith, length-push_unique r.hints.trackers c.locator, below _ _ k);
          peers = h.peers;
          web_seeds = h.web_seeds;
          locators = omega (arith, locators-append r.candidates c false (rw e), h.locators);
          diagnostics = h.diagnostics;
        })
      ]
  insert_kind-Within c peer r e h =
      elim (Bool-cases (leb limits.max_peers (length r.hints.peers))) [
        | inl k ↦ rw k h
        | inr k ↦ rw k (insert_peer-Within c (parse_peer c.locator) r (rw e) (ground (arith, k)) h)
      ]
  insert_kind-Within c web_seed r e h =
      elim (Bool-cases (leb limits.max_web_seeds (length r.hints.web_seeds))) [
        | inl k ↦ rw k h
        | inr k ↦ rw k (record {
          trackers = h.trackers;
          peers = h.peers;
          web_seeds = omega (arith, length-push_unique r.hints.web_seeds c.locator, below _ _ k);
          locators = omega (arith, locators-append r.candidates c false (rw e), h.locators);
          diagnostics = h.diagnostics;
        })
      ]
  insert_kind-Within c magnet r e h = insert_locator c r (rw e) h
  insert_kind-Within c torrent_file r e h = insert_locator c r (rw e) h

  one_diagnostic :
      (d : Diagnostic) (r : Resolution)
      → Within limits initial r
      → Within limits initial (push_limited_diagnostic limits d r)
  unfolding push_limited_diagnostic
  one_diagnostic d r h = elim (Bool-cases (ltb (length r.diagnostics) limits.max_diagnostics)) [
    | inl k ↦ rw k (record {
      trackers = h.trackers;
      peers = h.peers;
      web_seeds = h.web_seeds;
      locators = h.locators;
      diagnostics = omega (arith, length-append r.diagnostics (d ∷ []), ltb→lt _ _ k);
    })
    | inr k ↦ rw k h
  ]

  push_diagnostics-Within :
      (ds : List Diagnostic) (r : Resolution)
      → Within limits initial r
      → Within limits initial (push_diagnostics limits ds r)
  unfolding push_diagnostics
  push_diagnostics-Within [] r h = h
  push_diagnostics-Within (d ∷ ds) r h =
      push_diagnostics-Within ds (push_limited_diagnostic limits d r) (one_diagnostic d r h)

  insert_candidates-Within :
      (cs : List Candidate) (state : Resolution × Seen)
      → Within limits initial state.0
      → Within limits initial (insert_candidates limits cs state).0
  unfolding insert_candidates insert_candidate
  insert_candidates-Within [] state h = h
  insert_candidates-Within (c ∷ cs) (r, seen) h =
      insert_candidates-Within cs (insert_candidate limits c (r, seen))
        (elim (Bool-cases (any (same_key (c.kind, c.locator)) seen)) [
          | inl e ↦ rw e h
          | inr e ↦ rw e (insert_kind-Within c c.kind r refl h)
        ])

  take_report-Within :
      (name : String) (answer : Result Report) (state : Resolution × Seen)
      → Within limits initial state.0
      → Within limits initial (take_report limits name answer state).0
  take_report-Within name (err e) (r, seen) h = one_diagnostic _ r h
  take_report-Within name (ok report) (r, seen) h =
      let k =
        insert_candidates-Within report.candidates
          (push_diagnostics limits report.diagnostics r, seen)
          (push_diagnostics-Within report.diagnostics r h) in
      record {
        trackers = k.trackers;
        peers = k.peers;
        web_seeds = k.web_seeds;
        locators = k.locators;
        diagnostics = k.diagnostics;
      }

  resolve_loop-Within :
      (spec : DownloadSpec) (ps : List SwarmProvider) (state : Resolution × Seen)
      → Within limits initial state.0
      → Within limits initial (resolve_loop limits spec ps state).0
  unfolding resolve_loop
  resolve_loop-Within spec [] state h = h
  resolve_loop-Within spec (p ∷ ps) state h =
      resolve_loop-Within spec ps _
        (take_report-Within p.name (p.discover spec state.0.hints) state h)

-- Whatever the providers answer: after the resolver there are no more trackers, peers and web
-- seeds than the limit allows or than there were before, and no more locators and diagnostics
-- than the limits allow.
pub resolve-Within :
    (limits : SwarmProviderLimits) (providers : List SwarmProvider) (spec : DownloadSpec)
    (initial : TorrentSwarmHints)
    → Within limits initial (resolve limits providers spec initial)
unfolding resolve empty_resolution
resolve-Within limits providers spec initial =
    resolve_loop-Within limits initial spec providers _ (record {
      trackers = omega arith;
      peers = omega arith;
      web_seeds = omega arith;
      locators = omega arith;
      diagnostics = omega arith;
    })
