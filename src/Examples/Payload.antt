-- ===== src/Examples/Payload.antt =====
-- src/payload at the files of its unit tests: two files of four bytes, a write across them.
use paradown.Prelude.{
  ℕ, ◌+◌, ◌<◌, ◌≤◌, ◌≡◌, ◌⊎◌, refl, true, List, [], ◌∷◌, arith, get_elem?, leb, ltb, ◌&&◌,
  if◌then◌else◌, String,
}
use paradown.Failure.{ok, err, other}
use paradown.Payload.{
  WriteSlice, FileMap, Disk, resolve_writes, resolve_loop, write_at, write_slices, write_slice,
}
use paradown.Payload.Slices.{SliceTiles, InFile, resolve_writes-Tiles}
use paradown.Payload.Effects.{payload_byte, has_path}
use paradown.Payload.ReadBack.{write_at-payload_byte}
use paradown.Prelude.{All, any, ◌-◌}

abbrev pub map : FileMap
map = record {
  segments =
      record { path = "left"; offset = 0; length = 4 }
      ∷ record { path = "right"; offset = 4; length = 4 }
      ∷ [];
  total_size = 8;
  bounded = true;
}

abbrev pub empty_disk : Disk
empty_disk path position = 0

abbrev buffer : List ℕ
buffer = 65 ∷ 66 ∷ 67 ∷ 68 ∷ []

resolve_writes-Tiles_example :
    ((2 + 4 ≤ 8)
      × ((ws : List WriteSlice) × (resolve_writes map 2 4 ≡ ok ws)
          × SliceTiles 0 ws 4
          × All (InFile 2 map.segments) ws))
    ⊎ ((8 < 2 + 4) × (resolve_writes map 2 4 ≡ err (other "payload write out of bounds")))
resolve_writes-Tiles_example = resolve_writes-Tiles map 2 4 refl (omega arith) (omega arith)

write_at-payload_byte_example :
    let r = write_at (λ _. ok tt) map 2 buffer empty_disk in
    (r.1 ≡ ok tt)
    × ((k : ℕ)
        → payload_byte map.segments r.0 k ≡ (
            if leb 2 k && ltb k (2 + 4)
            then get_elem? buffer (k - 2)
            else payload_byte map.segments empty_disk k))
    × ((path : String) (position : ℕ)
        → (any (has_path path) map.segments ≡ true)
          ⊎ (r.0 path position ≡ empty_disk path position))
write_at-payload_byte_example =
    write_at-payload_byte map 2 buffer empty_disk refl (omega arith) (omega arith)
      (refl, (refl, tt)) (omega arith)

-- The second file starts with the last two bytes of the write.
second_file :
    let disk = (write_at (λ _. ok tt) map 2 buffer empty_disk).0 in
    (disk "right" 0 ≡ 67) × (disk "right" 1 ≡ 68) × (disk "right" 2 ≡ 0) × (disk "left" 2 ≡ 65)
unfolding write_at resolve_writes resolve_loop write_slices write_slice
second_file = (refl, refl, refl, refl)
