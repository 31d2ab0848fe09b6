-- ===== src/Payload/Effects.antt =====
-- What a write of src/payload/store.rs does to the files, read back as the payload that they hold.
use paradown.Prelude.{
  ℕ, ◌+◌, ◌-◌, ◌≤◌, ◌<◌, String, Bool, true, false, ◌&&◌, ◌≡◌, refl, ◌∙◌, Option, some, none, List,
  [], ◌∷◌, arith, ltb, leb, str_eq, eq_iff, any, if◌then◌else◌, unwrap_or, get_elem?,
}
use paradown.Failure.{ok}
use paradown.Payload.{FileSegment, WriteSlice, Disk, write_slice, write_slices}
use paradown.Payload.Slices.{taken}

abbrev pub has_path : String → FileSegment → Bool
has_path path s = str_eq s.path path

-- No two files have one path.
abbrev pub DistinctPaths : List FileSegment → Type 0
DistinctPaths [] = Unit
DistinctPaths (s ∷ ss) = (any (has_path s.path) ss ≡ false) × DistinctPaths ss

-- The byte at a position of the payload, from the file that holds the position.
abbrev pub payload_byte : List FileSegment → Disk → ℕ → Option ℕ
payload_byte [] disk k = none
payload_byte (s ∷ ss) disk k =
    if leb s.offset k && ltb k (s.offset + s.length)
    then some (disk s.path (k - s.offset))
    else payload_byte ss disk k

-- The files after all slices were written.
abbrev pub written : List ℕ → List WriteSlice → Disk → Disk
written buffer [] disk = disk
written buffer (w ∷ ws) disk = written buffer ws (write_slice buffer w disk)

pub write_slices-written :
    (buffer : List ℕ) (ws : List WriteSlice) (disk : Disk)
    → write_slices (λ _. ok tt) buffer ws disk ≡ (written buffer ws disk, ok tt)
unfolding write_slices
write_slices-written buffer [] disk = refl
write_slices-written buffer (w ∷ ws) disk =
    write_slices-written buffer ws (write_slice buffer w disk)

write_slice_other :
    (buffer : List ℕ) (w : WriteSlice) (disk : Disk) (path : String) (position : ℕ)
    → str_eq path w.path ≡ false
    → write_slice buffer w disk path position ≡ disk path position
unfolding write_slice
write_slice_other buffer w disk path position h = rw h

-- Files that differ only in a file that is not of the payload show the same payload.
payload_byte_other :
    (ss : List FileSegment) (buffer : List ℕ) (w : WriteSlice) (disk : Disk) (k : ℕ)
    → any (has_path w.path) ss ≡ false
    → payload_byte ss (write_slice buffer w disk) k ≡ payload_byte ss disk k
payload_byte_other [] buffer w disk k h = refl
payload_byte_other (s ∷ ss) buffer w disk k h =
    let e : str_eq s.path w.path ≡ false = ground arith in
    rw (
      write_slice_other buffer w disk s.path (k - s.offset) e,
      payload_byte_other ss buffer w disk k (ground arith),
    )

abbrev pub byte_or_zero : List ℕ → ℕ → ℕ
byte_or_zero buffer i = unwrap_or (get_elem? buffer i) 0

-- What a loop that writes `len` bytes at `start`, from byte `bo` of the buffer on, does to the
-- payload, and to the files that are not of the payload.
abbrev pub Effect : List FileSegment → List ℕ → ℕ → ℕ → ℕ → Disk → Disk → Type 0
Effect ss buffer start bo len disk disk' =
    ((path : String) (position : ℕ)
      → any (has_path path) ss ≡ false
      → disk' path position ≡ disk path position)
    × ((k : ℕ)
        → payload_byte ss disk' k ≡ (
            if leb start k && ltb k (start + len)
            then some (byte_or_zero buffer (bo + (k - start)))
            else payload_byte ss disk k))

pub Effect-none :
    (ss : List FileSegment) (buffer : List ℕ) (start bo : ℕ) (disk : Disk)
    → Effect ss buffer start bo 0 disk disk
Effect-none ss buffer start bo disk = (λ path position h. refl, λ k. ground arith)

-- A file that lies before the write.
pub Effect-past :
    (s : FileSegment) (ss : List FileSegment) (buffer : List ℕ) (start bo len : ℕ)
    (disk disk' : Disk)
    → any (has_path s.path) ss ≡ false
    → s.offset + s.length ≤ start
    → Effect ss buffer start bo len disk disk'
    → Effect (s ∷ ss) buffer start bo len disk disk'
Effect-past s ss buffer start bo len disk disk' apart past h = (
  λ path position k. h.0 path position (ground arith),
  λ k. ground (arith, h.0 s.path (k - s.offset) apart, h.1 k),
)

-- The slice that the loop makes of a write that starts in a file.
abbrev pub slice_at : FileSegment → ℕ → ℕ → ℕ → WriteSlice
slice_at s start bo len = record {
  path = s.path;
  file_offset = start - s.offset;
  buffer_start = bo;
  buffer_end = bo + taken s start len;
}

write_slice_here :
    (s : FileSegment) (buffer : List ℕ) (start bo len k : ℕ) (disk : Disk)
    → s.offset ≤ start
    → s.offset ≤ k
    → k < s.offset + s.length
    → write_slice buffer (slice_at s start bo len) disk s.path (k - s.offset) ≡ (
        if leb start k && ltb k (start + len)
        then byte_or_zero buffer (bo + (k - start))
        else disk s.path (k - s.offset))
unfolding write_slice
write_slice_here s buffer start bo len k disk above low high =
    let place : k - s.offset - (start - s.offset) ≡ k - start = omega arith in
    let same : str_eq s.path s.path ≡ true = (eq_iff s.path s.path).1 refl in
    rw (same, place) (ground arith)

-- A file that takes the first `taken s start len` bytes of the write.
pub Effect-write :
    (s : FileSegment) (ss : List FileSegment) (buffer : List ℕ) (start bo len : ℕ)
    (disk disk' : Disk)
    → any (has_path s.path) ss ≡ false
    → s.offset ≤ start
    → start < s.offset + s.length
    → let n = taken s start len in
      Effect ss buffer
        (start + n)
        (bo + n)
        (len - n)
        (write_slice buffer (slice_at s start bo len) disk)
        disk'
      → Effect (s ∷ ss) buffer start bo len disk disk'
Effect-write s ss buffer start bo len disk disk' apart above below h =
    (λ path position k. outside path position k, λ k. inside k)
  where
    outside :
        (path : String) (position : ℕ)
        → any (has_path path) (s ∷ ss) ≡ false
        → disk' path position ≡ disk path position
    outside path position k =
        h.0 path position (ground arith)
        ∙ write_slice_other buffer (slice_at s start bo len) disk path position
            (ground (arith, eq_iff path s.path, eq_iff s.path path))

    inside :
        (k : ℕ)
        → payload_byte (s ∷ ss) disk' k ≡ (
            if leb start k && ltb k (start + len)
            then some (byte_or_zero buffer (bo + (k - start)))
            else payload_byte (s ∷ ss) disk k)
    inside k = ground (
      arith,
      h.0 s.path (k - s.offset) apart,
      write_slice_here s buffer start bo len k disk above,
      h.1 k,
      payload_byte_other ss buffer (slice_at s start bo len) disk k apart,
      place k,
    )
      where
        place :
            (k : ℕ)
            → start + taken s start len ≤ k
            → bo + taken s start len + (k - (start + taken s start len)) ≡ bo + (k - start)
        place k h = omega arith
