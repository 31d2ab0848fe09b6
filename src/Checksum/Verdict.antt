-- ===== src/Checksum/Verdict.antt =====
-- What the verdict of src/payload/verifier.rs says of the single checksums.
use paradown.Prelude.{ℕ, ◌≡◌, ◌≢◌, refl, ◌⊎◌, Bool, true, false, List, [], ◌∷◌, arith}
use paradown.Failure.{Result, ok, err}
use paradown.Checksum.{Checksum, Digest, verify, verify_file_checksums, mark_verified}

-- The first outcome that is not a success, or success.
abbrev pub first_failure : Digest → List Checksum → Result Bool
first_failure digest [] = ok true
first_failure digest (c ∷ cs) = elim (verify digest c) [
  | ok true ↦ first_failure digest cs
  | ok false ↦ ok false
  | err e ↦ err e
]

-- What becomes of the checksums: those before the first failure are marked as verified, the one
-- that fails as not verified, and those behind it stay as they were.
abbrev pub Marked : Digest → ℕ → List Checksum → List Checksum → Type 0
Marked digest now [] [] = Unit
Marked digest now (c ∷ cs) (d ∷ ds) =
    ((verify digest c ≡ ok true) × (d ≡ mark_verified true now c) × Marked digest now cs ds)
    ⊎ ((verify digest c ≢ ok true) × (d ≡ mark_verified false now c) × (ds ≡ cs))
Marked digest now [] (d ∷ ds) = ⊥
Marked digest now (c ∷ cs) [] = ⊥

-- The verdict is the first failure, and the marks say which checksums were tried and how.
pub verify_file_checksums_lem :
    (digest : Digest) (now : ℕ) (cs : List Checksum)
    → ((verify_file_checksums digest now cs).1 ≡ first_failure digest cs)
      × Marked digest now cs (verify_file_checksums digest now cs).0
unfolding verify_file_checksums
verify_file_checksums_lem digest now [] = (refl, tt)
verify_file_checksums_lem digest now (c ∷ cs) =
    ground (arith, verify_file_checksums_lem digest now cs)
