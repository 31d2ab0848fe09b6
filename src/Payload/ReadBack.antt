-- ===== src/Payload/ReadBack.antt =====
-- The payload after a write of src/payload/store.rs, read back from the files.
use paradown.Prelude.{
  ℕ, zero, suc, ◌+◌, ◌-◌, ◌≤◌, ◌<◌, String, Bool, true, false, ◌&&◌, ◌≡◌, refl, ◌∙◌, ◌⊎◌, inl, inr,
  some, List, [], ◌∷◌, arith, ltb, leb, leb→le, any, if◌then◌else◌, Bool-cases, length, get_elem?,
  u64_mod,
}
use paradown.Failure.{ok}
use paradown.Payload.{
  resolve_writes, FileSegment, WriteSlice, FileMap, Disk, resolve_loop, write_slice, write_at,
}
use paradown.Payload.Slices.{Consecutive, Consecutive-le, loop_done, loop_past, loop_write, taken}
use paradown.Payload.Effects.{
  has_path, DistinctPaths, payload_byte, written, byte_or_zero, Effect, slice_at,
  write_slices-written, Effect-none, Effect-past, Effect-write,
}

reaches :
    (a : ℕ) (s : FileSegment) (start k : ℕ)
    → s.offset ≡ a
    → start < s.offset + s.length
    → let n = taken s start (suc k) in (suc k - n ≡ 0) ⊎ (a + s.length ≤ start + n)
reaches a s start k at_a below = ground arith

resolve_loop-Effect :
    (offset a b : ℕ) (ss : List FileSegment) (buffer : List ℕ) (start bo len : ℕ) (disk : Disk)
    → b < u64_mod
    → Consecutive a ss b
    → DistinctPaths ss
    → (len ≡ 0) ⊎ (a ≤ start)
    → start + len ≤ b
    → bo + len < u64_mod
    → Effect ss buffer start bo len disk
        (written buffer (resolve_loop offset ss start bo len).0 disk)
resolve_loop-Effect offset a b ss buffer start bo zero disk hb c d h le room =
    rw (loop_done offset start bo ss) (Effect-none ss buffer start bo disk)
resolve_loop-Effect offset a b [] buffer start bo (suc k) disk hb c d h le room =
    absurd (omega arith)
resolve_loop-Effect offset a b (s ∷ ss) buffer start bo (suc k) disk hb c d h le room =
    let le_end = Consecutive-le (a + s.length) b ss c.1 in
    let fits : s.offset + s.length < u64_mod = omega arith in
    elim (Bool-cases (leb (s.offset + s.length) start)) [
      | inl e ↦ rw (loop_past offset start bo (suc k) s ss fits (omega arith) (leb→le _ _ e)) (
          Effect-past s ss buffer start bo (suc k) disk _ d.0 (leb→le _ _ e) (
            resolve_loop-Effect offset (a + s.length) b ss buffer start bo (suc k) disk hb c.1 d.1
              (inr (ground arith)) le room))
      | inr e ↦
          let below : start < s.offset + s.length = ground arith in
          let n = taken s start (suc k) in
          rw (loop_write offset start bo (suc k) s ss fits room (omega arith) (omega arith) below) (
            Effect-write s ss buffer start bo (suc k) disk _ d.0 (omega arith) below (
              resolve_loop-Effect offset (a + s.length) b ss buffer (start + n) (bo + n) (suc k - n)
                (write_slice buffer (slice_at s start bo (suc k)) disk) hb c.1 d.1
                (reaches a s start k c.0 below) (omega arith) (omega arith)))
    ]

get_elem?-in :
    (buffer : List ℕ) (i : ℕ)
    → i < length buffer
    → some (byte_or_zero buffer i) ≡ get_elem? buffer i
get_elem?-in [] i h = absurd (omega arith)
get_elem?-in (x ∷ xs) zero h = refl
get_elem?-in (x ∷ xs) (suc i) h = get_elem?-in xs i (omega arith)

-- The loop leaves nothing of a write within the payload.
resolve_loop-rest :
    (offset a b : ℕ) (ss : List FileSegment) (start bo len : ℕ)
    → b < u64_mod
    → Consecutive a ss b
    → (len ≡ 0) ⊎ (a ≤ start)
    → start + len ≤ b
    → bo + len < u64_mod
    → (resolve_loop offset ss start bo len).1 ≡ 0
resolve_loop-rest offset a b ss start bo zero hb c h le room = rw (loop_done offset start bo ss)
resolve_loop-rest offset a b [] start bo (suc k) hb c h le room = absurd (omega arith)
resolve_loop-rest offset a b (s ∷ ss) start bo (suc k) hb c h le room =
    let le_end = Consecutive-le (a + s.length) b ss c.1 in
    let fits : s.offset + s.length < u64_mod = omega arith in
    elim (Bool-cases (leb (s.offset + s.length) start)) [
      | inl e ↦ rw (loop_past offset start bo (suc k) s ss fits (omega arith) (leb→le _ _ e)) (
          resolve_loop-rest offset (a + s.length) b ss start bo (suc k) hb c.1 (inr (ground arith))
            le room)
      | inr e ↦
          let below : start < s.offset + s.length = ground arith in
          let n = taken s start (suc k) in
          rw (loop_write offset start bo (suc k) s ss fits room (omega arith) (omega arith) below) (
            resolve_loop-rest offset (a + s.length) b ss (start + n) (bo + n) (suc k - n) hb c.1
              (reaches a s start k c.0 below) (omega arith) (omega arith))
    ]

write_at_lem :
    (m : FileMap) (offset : ℕ) (buffer : List ℕ) (disk : Disk) (ws : List WriteSlice)
    → resolve_writes m offset (length buffer) ≡ ok ws
    → write_at (λ _. ok tt) m offset buffer disk ≡ (written buffer ws disk, ok tt)
unfolding write_at
write_at_lem m offset buffer disk ws h = rw (h, write_at) (write_slices-written buffer ws disk)

resolve_writes_lem :
    (m : FileMap) (offset len : ℕ)
    → m.bounded ≡ true
    → m.total_size < u64_mod
    → offset + len ≤ m.total_size
    → (resolve_loop offset m.segments offset 0 len).1 ≡ 0
    → resolve_writes m offset len ≡ ok (resolve_loop offset m.segments offset 0 len).0
unfolding resolve_writes
resolve_writes_lem m offset len b ht le rest = ground arith

unless {ℓ} : {P : Type ℓ} (b : Bool) → (b ≡ false → P) → (b ≡ true) ⊎ P
unless true h = inl refl
unless false h = inr (h refl)

-- If a payload is bounded, its size fits into 64 bits, its files follow one another from byte 0
-- to that size and have distinct paths, and every file can be accessed, then a write within the
-- payload succeeds. The payload then shows the buffer where it was written, and everywhere else
-- the byte that it showed before; a file that is not of the payload is unchanged.
pub write_at-payload_byte :
    (m : FileMap) (offset : ℕ) (buffer : List ℕ) (disk : Disk)
    → m.bounded ≡ true
    → m.total_size < u64_mod
    → Consecutive 0 m.segments m.total_size
    → DistinctPaths m.segments
    → offset + length buffer ≤ m.total_size
    → let r = write_at (λ _. ok tt) m offset buffer disk in
      (r.1 ≡ ok tt)
      × ((k : ℕ)
          → payload_byte m.segments r.0 k ≡ (
              if leb offset k && ltb k (offset + length buffer)
              then get_elem? buffer (k - offset)
              else payload_byte m.segments disk k))
      × ((path : String) (position : ℕ)
          → (any (has_path path) m.segments ≡ true) ⊎ (r.0 path position ≡ disk path position))
write_at-payload_byte m offset buffer disk b ht c d le =
    let rest =
      resolve_loop-rest offset 0 m.total_size m.segments offset 0 (length buffer) ht c
        (inr (omega arith)) le (omega arith) in
    let effect =
      resolve_loop-Effect offset 0 m.total_size m.segments buffer offset 0 (length buffer) disk ht c
        d (inr (omega arith)) le (omega arith) in
    rw
      (write_at_lem m offset buffer disk _
        (resolve_writes_lem m offset (length buffer) b ht le rest))
      (refl, λ k. effect.1 k ∙ in_buffer k, λ path position. unless _ (effect.0 path position))
  where
    in_buffer :
        (k : ℕ)
        → (if leb offset k && ltb k (offset + length buffer)
            then some (byte_or_zero buffer (0 + (k - offset)))
            else payload_byte m.segments disk k)
          ≡ (if leb offset k && ltb k (offset + length buffer)
              then get_elem? buffer (k - offset)
              else payload_byte m.segments disk k)
    in_buffer k =
        let e : 0 + (k - offset) ≡ k - offset = omega arith in
        rw e (ground (arith, get_elem?-in buffer (k - offset)))
