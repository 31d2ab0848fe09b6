-- ===== src/Domain/Spec/Parsing.antt =====
-- What src/domain/spec.rs makes of a locator.
use paradown.Prelude.{String, true, ◌≡◌, refl, ◌⊎◌, inl, inr, arith, eq_iff, ap, sym}
use paradown.Failure.{ok}
use paradown.Domain.Spec.{
  DownloadSpec, torrent_file, UrlParse, parsed, relative_url_without_base, invalid, ends_with,
  of_scheme, parse, locator, scheme, identity_key,
}

of_scheme_lem :
    (t name : String) (spec : DownloadSpec)
    → of_scheme t name ≡ ok spec
    → (locator spec ≡ t) × (scheme spec ≡ name) × (identity_key spec ≡ t)
unfolding of_scheme locator scheme identity_key
of_scheme_lem t name spec h =
    ground (arith, eq_iff name "http", eq_iff name "https", eq_iff name "ftp", eq_iff name "magnet")

abbrev Parses : String → UrlParse → DownloadSpec → Type 0
Parses t u spec =
    (locator spec ≡ t)
    × (((u ≡ parsed (scheme spec)) × (identity_key spec ≡ t))
        ⊎ ((u ≡ relative_url_without_base)
            × (ends_with t ".torrent" ≡ true)
            × (spec ≡ torrent_file t)))

parse_cases :
    (t : String) (u : UrlParse) (spec : DownloadSpec) → parse (λ _. u) t ≡ ok spec → Parses t u spec
unfolding parse locator
parse_cases t (parsed name) spec h =
    let r = of_scheme_lem t name spec h in (r.0, inl (ap parsed (sym r.1), r.2))
parse_cases t relative_url_without_base spec h =
    (ground arith, inr (refl, ground arith, ground arith))
parse_cases t (invalid e) spec h = cc

-- A locator that parses is the locator of the result. Unless it is a relative path to a
-- `.torrent` file, the result has the scheme that was read, and the locator is its identity.
pub parse-locator :
    (url_parse : String → UrlParse) (t : String) (spec : DownloadSpec)
    → parse url_parse t ≡ ok spec
    → (locator spec ≡ t)
      × (((url_parse t ≡ parsed (scheme spec)) × (identity_key spec ≡ t))
          ⊎ ((url_parse t ≡ relative_url_without_base)
              × (ends_with t ".torrent" ≡ true)
              × (spec ≡ torrent_file t)))
parse-locator url_parse t spec h = parse_cases t (url_parse t) spec (unfold parse in h)
