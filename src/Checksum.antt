-- ===== src/Checksum.antt =====
-- src/checksum.rs and src/payload/verifier.rs: the expected digests of a payload, checked one by
-- one. The digest of a file (md-5, sha1, sha2 and the file system) is a parameter, and so is the
-- time of the check.
pub mod Verdict
use paradown.Prelude.{
  ℕ, String, Bool, true, false, Option, some, none, List, [], ◌∷◌, str_eq, if◌then◌else◌,
}
use paradown.Failure.{Result, ok, err}

pub data ChecksumAlgorithm : Type 0 where
  md5 sha1 sha256 none_algorithm : ChecksumAlgorithm

-- FromStr; it never fails.
unfoldable pub algorithm_from_str : String → ChecksumAlgorithm
algorithm_from_str s =
    if str_eq s "MD5"
    then md5
    else if str_eq s "SHA1"
    then sha1
    else if str_eq s "SHA256"
    then sha256
    else none_algorithm

pub record Checksum : Type 0 where
  pub algorithm : ChecksumAlgorithm
  pub value : Option String
  pub verified : Option Bool
  pub verified_at : Option ℕ

-- The digest of the file under an algorithm other than NONE.
abbrev pub Digest : Type 0
Digest = ChecksumAlgorithm → Result String

-- `&actual == expected`, where the digest could be computed.
abbrev matches_digest : String → Result String → Result Bool
matches_digest expected (ok actual) = ok (str_eq actual expected)
matches_digest expected (err e) = err e

unfoldable pub verify_expected : Digest → ChecksumAlgorithm → String → Result Bool
verify_expected digest none_algorithm expected = ok true
verify_expected digest md5 expected = matches_digest expected (digest md5)
verify_expected digest sha1 expected = matches_digest expected (digest sha1)
verify_expected digest sha256 expected = matches_digest expected (digest sha256)

unfoldable pub verify : Digest → Checksum → Result Bool
verify digest checksum = elim checksum.value [
  | none ↦ ok true
  | some expected ↦ verify_expected digest checksum.algorithm expected
]

abbrev pub mark_verified : Bool → ℕ → Checksum → Checksum
mark_verified b now checksum = record checksum { verified = some b; verified_at = some now }

-- The loop of `verify_file_checksums`: one `match` on the outcome of `verify`, the rest being the
-- loop's next rounds. The checksums are updated in place.
unfoldable pub verify_file_checksums : Digest → ℕ → List Checksum → List Checksum × Result Bool
verify_file_checksums digest now [] = ([], ok true)
verify_file_checksums digest now (checksum ∷ checksums) =
    let (rest, result) = verify_file_checksums digest now checksums in
    elim (verify digest checksum) [
      | ok true ↦ (mark_verified true now checksum ∷ rest, result)
      | ok false ↦ (mark_verified false now checksum ∷ checksums, ok false)
      | err e ↦ (mark_verified false now checksum ∷ checksums, err e)
    ]
