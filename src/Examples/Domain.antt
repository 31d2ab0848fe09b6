-- ===== src/Examples/Domain.antt =====
-- src/domain, src/status.rs and src/checksum.rs at small inputs.
use paradown.Prelude.{◌≡◌, refl, false, some, none, [], ◌∷◌}
use paradown.Failure.{ok}
use paradown.Checksum.{Checksum, md5, sha1, Digest, verify, verify_expected, verify_file_checksums}
use paradown.Domain.Http.{HttpResourceIdentity}
use paradown.Domain.Spec.{DownloadSpec, https}
use paradown.Domain.Source.{SourceDescriptor, SourceSet, from_spec, for_spec, push_unique}

abbrev spec : DownloadSpec
spec = https "https://example.com/a.bin"

abbrev mirror : SourceDescriptor
mirror = from_spec (https "https://mirror.example.com/a.bin") none

abbrev sources : SourceSet
sources = push_unique (for_spec spec none) mirror

abbrev tagged : HttpResourceIdentity
tagged = record { resolved_url = none; entity_tag = some "v1"; last_modified = none }

abbrev retagged : HttpResourceIdentity
retagged = record { resolved_url = none; entity_tag = some "v2"; last_modified = some "Monday" }

abbrev digest : Digest
digest _ = ok "abc"

abbrev good : Checksum
good = record { algorithm = md5; value = some "abc"; verified = none; verified_at = none }

abbrev bad : Checksum
bad = record { algorithm = sha1; value = some "abd"; verified = none; verified_at = none }

-- The second checksum fails, so that the third is not looked at.
verdict : (verify_file_checksums digest 7 (good ∷ bad ∷ good ∷ [])).1 ≡ ok false
unfolding verify_file_checksums verify verify_expected
verdict = refl
