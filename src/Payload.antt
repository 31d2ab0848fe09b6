-- ===== src/Payload.antt =====
-- src/payload/file_map.rs and src/payload/store.rs: where the bytes of a payload go.
pub mod Slices
pub mod Effects
pub mod ReadBack
use paradown.Prelude.{
  ℕ, ◌+◌, ◌-◌, String, Bool, true, false, ◌&&◌, ◌||◌, Option, some, none, List, [], ◌∷◌, map, min,
  max, ltb, leb, ◌==◌, str_eq, if◌then◌else◌, unwrap_or, length, get_elem?, add_u64,
  saturating_add_u64,
}
use paradown.Failure.{Error, other, Result, ok, err}
use paradown.Manifest.{FileManifest, SessionManifest}

pub record FileSegment : Type 0 where
  pub path : String
  pub offset : ℕ
  pub length : ℕ

-- `buffer_range` is `buffer_start..buffer_end`.
pub record WriteSlice : Type 0 where
  pub path : String
  pub file_offset : ℕ
  pub buffer_start : ℕ
  pub buffer_end : ℕ

pub record FileMap : Type 0 where
  pub segments : List FileSegment
  pub total_size : ℕ
  pub bounded : Bool

unfoldable pub segment_of : FileManifest → FileSegment
segment_of file = record { path = file.path; offset = file.offset; length = file.length }

unfoldable pub from_manifest : SessionManifest → FileMap
unfolding segment_of
from_manifest manifest = record {
  segments = map segment_of manifest.files;
  total_size = manifest.total_size;
  bounded = ltb 0 manifest.piece_count || ltb 0 manifest.total_size;
}

-- `for segment in &self.segments`: the slices that are pushed, and the final `remaining_len`.
unfoldable pub resolve_loop : ℕ → List FileSegment → ℕ → ℕ → ℕ → List WriteSlice × ℕ
resolve_loop offset [] remaining_start buffer_offset remaining_len = ([], remaining_len)
resolve_loop offset (segment ∷ segments) remaining_start buffer_offset remaining_len =
    let segment_end = saturating_add_u64 segment.offset segment.length in
    let write_start = max remaining_start segment.offset in
    let writable = min (segment_end - write_start) remaining_len in
    let next_buffer_offset = add_u64 buffer_offset writable in
    let skipped = resolve_loop offset segments remaining_start buffer_offset remaining_len in
    let (slices, rest) =
      resolve_loop offset segments (add_u64 write_start writable) next_buffer_offset
        (remaining_len - writable) in
    if remaining_len == 0
    then ([], remaining_len)
    else if leb segment_end remaining_start
        || ltb remaining_start segment.offset && leb segment_end offset
    then skipped
    else if leb segment_end write_start
    then skipped
    else (
      record {
        path = segment.path;
        file_offset = write_start - segment.offset;
        buffer_start = buffer_offset;
        buffer_end = next_buffer_offset;
      }
          ∷ slices,
      rest,
    )

-- The end of `resolve_writes`, from what the loop leaves.
abbrev pub resolved : List WriteSlice × ℕ → Result (List WriteSlice)
resolved (slices, remaining_len) =
    if remaining_len == 0 then ok slices else err (other "payload write could not be resolved")

unfoldable pub resolve_writes : FileMap → ℕ → ℕ → Result (List WriteSlice)
unfolding resolve_loop
resolve_writes file_map offset len =
    if file_map.bounded
    then if ltb file_map.total_size (saturating_add_u64 offset len)
      then err (other "payload write out of bounds")
      else resolved (resolve_loop offset file_map.segments offset 0 len)
    else elim file_map.segments [
      | [] ↦ err (other "payload store has no file segments")
      | segment ∷ segments ↦ ok (
          record { path = segment.path; file_offset = offset; buffer_start = 0; buffer_end = len }
          ∷ [])
    ]

-- The files, as the byte at each position; and what the operating system answers to opening a
-- file, seeking and writing in it.
abbrev pub Disk : Type 0
Disk = String → ℕ → ℕ

abbrev pub Access : Type 0
Access = String → Result (Unit {0})

unfoldable pub write_slice : List ℕ → WriteSlice → Disk → Disk
write_slice buffer write disk path position =
    let width = write.buffer_end - write.buffer_start in
    if str_eq path write.path
      && leb write.file_offset position
      && ltb position (write.file_offset + width)
    then unwrap_or (get_elem? buffer (write.buffer_start + (position - write.file_offset))) 0
    else disk path position

-- `for write in writes`: an error ends the loop, and what was written stays.
unfoldable pub write_slices : Access → List ℕ → List WriteSlice → Disk → Disk × Result (Unit {0})
unfolding write_slice
write_slices access buffer [] disk = (disk, ok tt)
write_slices access buffer (write ∷ writes) disk =
    let rest = write_slices access buffer writes (write_slice buffer write disk) in
    elim (access write.path) [ err e ↦ (disk, err e) | ok _ ↦ rest ]

unfoldable pub write_at : Access → FileMap → ℕ → List ℕ → Disk → Disk × Result (Unit {0})
unfolding write_slices resolve_writes
write_at access file_map offset buffer disk =
    elim (resolve_writes file_map offset (length buffer)) [
      | err e ↦ (disk, err e)
      | ok writes ↦ write_slices access buffer writes disk
    ]
