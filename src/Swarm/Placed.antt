-- ===== src/Swarm/Placed.antt =====
-- Where the files of a torrent go by src/p2p/manifest.rs.
use Prim.Native.String.{◌++◌ as ◌+++◌}
use text.Mathlib.TextLemmas.{nil-append, cons-append}
use paradown.Prelude.{
  String, false, ◌≡◌, refl, ap, subst, Option, List, [], ◌∷◌, arith, is_empty, All, Bool-cases, inl,
  inr, ◌||◌, str_eq, ltb, length, unwrap_or, if◌then◌else◌,
}
use paradown.Failure.{Result, ok, err, >>=-eq-ok}
use paradown.Domain.Spec.{ends_with}
use paradown.Manifest.{FileManifest}
use paradown.Requests.{TorrentFileEntry, TorrentMetadata}
use paradown.Swarm.Paths.{slashed, safe-is_absolute, push_components-slashed}
use paradown.Swarm.Files.{
  is_unsafe, is_absolute, join, push_components, sanitized_relative_path, file_path, file_manifest,
  files_loop, build_file_manifests, is_multi_file,
}

-- A file whose path has safe components only, at the path of the components with slashes between
-- them: on top of the download directory and the torrent's name, if there are several files, and
-- else where it was asked for, or in the download directory.
abbrev pub PlacedFile :
    TorrentMetadata → String → Option String → TorrentFileEntry → FileManifest → Type 0
PlacedFile metadata download_dir requested file placed =
    All (λ component. is_unsafe component ≡ false) file.path_components
    × (placed.path ≡ (
        if ltb 1 (length metadata.files)
        then join (join download_dir metadata.name) (slashed file.path_components)
        else unwrap_or requested (join download_dir (slashed file.path_components))))
    × (is_absolute (slashed file.path_components) ≡ false)
    × (placed.offset ≡ file.offset)
    × (placed.length ≡ file.length)

abbrev pub Placed :
    TorrentMetadata → String → Option String → List TorrentFileEntry → List FileManifest → Type 0
Placed metadata download_dir requested [] [] = Unit
Placed metadata download_dir requested (f ∷ fs) (g ∷ gs) =
    PlacedFile metadata download_dir requested f g × Placed metadata download_dir requested fs gs
Placed metadata download_dir requested [] (g ∷ gs) = ⊥
Placed metadata download_dir requested (f ∷ fs) [] = ⊥

is_absolute-append :
    (s t : String) → is_absolute s ≡ false → is_absolute t ≡ false → is_absolute (s +++ t) ≡ false
is_absolute-append String.[] t h k = rw (nil-append t) k
is_absolute-append (String.◌∷◌ ch s) t h k = rw (cons-append ch s t) h

is_absolute-slash :
    (s t : String) → str_eq s "" ≡ false → is_absolute s ≡ false → is_absolute (s +++ t) ≡ false
is_absolute-slash String.[] t h k = cc
is_absolute-slash (String.◌∷◌ ch s) t h k = rw (cons-append ch s t) k

is_absolute-join :
    (path c : String)
    → is_absolute path ≡ false
    → is_absolute c ≡ false
    → is_absolute (join path c) ≡ false
unfolding join
is_absolute-join path c h k = rw k (elim (Bool-cases (str_eq path "" || ends_with path "/")) [
  | inl e ↦ rw e (is_absolute-append path c h k)
  | inr e ↦ rw e (is_absolute-slash path _ (ground (arith, e)) h)
])

push_components_lem :
    (cs : List String) (path relative : String)
    → is_absolute path ≡ false
    → push_components cs path ≡ ok relative
    → All (λ c. is_unsafe c ≡ false) cs × (is_absolute relative ≡ false)
unfolding push_components
push_components_lem [] path relative h e = (tt, ground (arith, h, e))
push_components_lem (c ∷ cs) path relative h e = elim (Bool-cases (is_unsafe c)) [
  | inl k ↦ let failed = rw k at e in cc
  | inr k ↦
      let rest = rw k at e in
      let r =
        push_components_lem cs (join path c) relative
          (is_absolute-join path c h (safe-is_absolute c k)) rest in
      ((k, r.0), r.1)
]

sanitized_relative_path_lem :
    (cs : List String) (relative : String)
    → sanitized_relative_path cs ≡ ok relative
    → All (λ c. is_unsafe c ≡ false) cs
      × (is_absolute (slashed cs) ≡ false)
      × (relative ≡ slashed cs)
unfolding sanitized_relative_path
sanitized_relative_path_lem [] relative e = cc
sanitized_relative_path_lem (c ∷ cs) relative e =
    let safe = push_components_lem (c ∷ cs) "" relative refl e in
    let same = push_components-slashed c cs relative safe.0 e in (safe.0, rw⁻¹ same safe.1, same)

module _ (metadata : TorrentMetadata) (download_dir : String) (requested : Option String) where
  files_loop-Placed :
      (files : List TorrentFileEntry) (placed : List FileManifest)
      → files_loop metadata download_dir requested files ≡ ok placed
      → Placed metadata download_dir requested files placed
  unfolding files_loop file_path is_multi_file
  files_loop-Placed [] placed e = nothing placed e
    where
      nothing :
          (placed : List FileManifest)
          → files_loop metadata download_dir requested [] ≡ ok placed
          → Placed metadata download_dir requested [] placed
      nothing [] e = tt
      nothing (g ∷ gs) e = ground (arith, e)
  files_loop-Placed (f ∷ fs) placed e =
      let (relative, found, rest) =
        >>=-eq-ok (sanitized_relative_path f.path_components) _ placed e in
      let (others, loaded, made) =
        >>=-eq-ok (files_loop metadata download_dir requested fs) _ placed rest in
      let safe = sanitized_relative_path_lem f.path_components relative found in
      let first = file_manifest (file_path metadata download_dir requested relative) f in
      let same : first ∷ others ≡ placed = ap list_or made in
      subst (λ gs. Placed metadata download_dir requested (f ∷ fs) gs) same
        (
          (safe.0, ap (file_path metadata download_dir requested) safe.2, safe.1, refl, refl),
          files_loop-Placed fs others loaded,
        )
    where
      list_or : Result (List FileManifest) → List FileManifest
      list_or (ok gs) = gs
      list_or (err e) = []

-- If the files of a torrent are accepted, then no component of their paths is empty, a dot, two
-- dots, or has a slash or a backslash. Each file then is placed at its components with slashes
-- between them, which is a relative path, and keeps its offset and length. For several files that
-- path is joined to the download directory joined with the torrent's name, which is not checked;
-- for a single one it is joined to the download directory, unless a path was asked for.
pub build_file_manifests-Placed :
    (metadata : TorrentMetadata) (download_dir : String) (requested : Option String)
    (placed : List FileManifest)
    → build_file_manifests metadata download_dir requested ≡ ok placed
    → Placed metadata download_dir requested metadata.files placed
unfolding build_file_manifests
build_file_manifests-Placed metadata download_dir requested placed e =
    elim (Bool-cases (is_empty metadata.files)) [
      | inl k ↦ let failed = rw k at e in cc
      | inr k ↦
          let loaded = rw k at e in
          files_loop-Placed metadata download_dir requested metadata.files placed loaded
    ]
