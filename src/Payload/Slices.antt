-- ===== src/Payload/Slices.antt =====
-- The slices that src/payload/file_map.rs resolves a write to.
use paradown.Prelude.{
  ℕ, ◌+◌, ◌-◌, ◌≤◌, ◌<◌, true, false, ◌≡◌, refl, ◌⊎◌, inl, inr, List, [], ◌∷◌, arith, All, All-map,
  ltb, leb, ◌==◌, Bool-cases, min, max, leb→le, zero, suc, ◌%◌, Tiles, u64_mod,
}
use native.Mathlib.Nat.{zero-add}
use paradown.Failure.{ok, err, other}
use paradown.Payload.{FileSegment, WriteSlice, FileMap, resolve_loop, resolve_writes}

-- The files of a payload follow one another; a file may be empty.
abbrev pub Consecutive : ℕ → List FileSegment → ℕ → Type 0
Consecutive a [] b = a ≡ b
Consecutive a (s ∷ ss) b = (s.offset ≡ a) × Consecutive (a + s.length) ss b

pub Consecutive-le : (a b : ℕ) (ss : List FileSegment) → Consecutive a ss b → a ≤ b
Consecutive-le a b [] c = omega arith
Consecutive-le a b (s ∷ ss) c = omega (arith, Consecutive-le (a + s.length) b ss c.1)

abbrev pub SliceTiles : ℕ → List WriteSlice → ℕ → Type 0
SliceTiles = Tiles (λ (w : WriteSlice). w.buffer_start) (λ (w : WriteSlice). w.buffer_end)

-- A slice of a write at `offset` lies in one of the files, at the place that its bytes have in the
-- payload.
abbrev pub InFile : ℕ → List FileSegment → WriteSlice → Type 0
InFile offset [] w = ⊥
InFile offset (s ∷ ss) w =
    ((w.path ≡ s.path)
      × (s.offset + w.file_offset ≡ offset + w.buffer_start)
      × (w.file_offset + (w.buffer_end - w.buffer_start) ≤ s.length))
    ⊎ InFile offset ss w

abbrev Resolves : ℕ → List FileSegment → ℕ → ℕ → List WriteSlice × ℕ → Type 0
Resolves offset segments start len r =
    SliceTiles start r.0 (start + len) × All (InFile offset segments) r.0 × (r.1 ≡ 0)

All-next :
    (offset : ℕ) (s : FileSegment) (ss : List FileSegment) (ws : List WriteSlice)
    → All (InFile offset ss) ws
    → All (InFile offset (s ∷ ss)) ws
All-next offset s ss ws h = All-map _ _ ws (λ w k. inr k) h

-- A loop that skips a file, and one that writes to it.
skip-Resolves :
    (offset start len : ℕ) (s : FileSegment) (ss : List FileSegment) (r : List WriteSlice × ℕ)
    → Resolves offset ss start len r
    → Resolves offset (s ∷ ss) start len r
skip-Resolves offset start len s ss r h = (h.0, All-next offset s ss r.0 h.1, h.2)

-- One round of the loop: the write is done, the file lies before its rest, or it takes some of it.
pub loop_done :
    (offset start bo : ℕ) (ss : List FileSegment) → resolve_loop offset ss start bo 0 ≡ ([], 0)
unfolding resolve_loop
loop_done offset start bo [] = refl
loop_done offset start bo (s ∷ ss) = refl

pub loop_past :
    (offset start bo len : ℕ) (s : FileSegment) (ss : List FileSegment)
    → s.offset + s.length < u64_mod
    → 0 < len
    → s.offset + s.length ≤ start
    → resolve_loop offset (s ∷ ss) start bo len ≡ resolve_loop offset ss start bo len
unfolding resolve_loop
loop_past offset start bo len s ss fits some_left past =
    let e : min (s.offset + s.length) (u64_mod - 1) ≡ s.offset + s.length = omega arith in
    let more : (len == 0) ≡ false = ground arith in
    let behind : leb (s.offset + s.length) start ≡ true = ground arith in rw (e, more, behind)

-- How much of the write the file takes.
abbrev pub taken : FileSegment → ℕ → ℕ → ℕ
taken s start len = min (s.offset + s.length - start) len

pub loop_write :
    (offset start bo len : ℕ) (s : FileSegment) (ss : List FileSegment)
    → s.offset + s.length < u64_mod
    → bo + len < u64_mod
    → 0 < len
    → s.offset ≤ start
    → start < s.offset + s.length
    → let n = taken s start len in
      let r = resolve_loop offset ss (start + n) (bo + n) (len - n) in
      resolve_loop offset (s ∷ ss) start bo len ≡ (
        record {
          path = s.path;
          file_offset = start - s.offset;
          buffer_start = bo;
          buffer_end = bo + n;
        }
            ∷ r.0,
        r.1,
      )
unfolding resolve_loop
loop_write offset start bo len s ss fits room some_left above below =
    let e : min (s.offset + s.length) (u64_mod - 1) ≡ s.offset + s.length = omega arith in
    let more : (len == 0) ≡ false = ground arith in
    let here : leb (s.offset + s.length) start ≡ false = ground arith in
    let inside : ltb start s.offset ≡ false = ground arith in
    let at_start : max start s.offset ≡ start = omega arith in
    let next : (start + taken s start len) % u64_mod ≡ start + taken s start len = omega arith in
    let next_bo : (bo + taken s start len) % u64_mod ≡ bo + taken s start len = omega arith in
    rw (e, more, here, inside, at_start, here, next, next_bo)

reach :
    (a : ℕ) (s : FileSegment) (offset start k : ℕ)
    → s.offset ≡ a
    → offset + start < s.offset + s.length
    → let n = taken s (offset + start) (suc k) in
      (suc k - n ≡ 0) ⊎ (a + s.length ≤ offset + (start + n))
reach a s offset start k at below = ground arith

resolve_loop-Resolves :
    (offset a b : ℕ) (segments : List FileSegment) (start len : ℕ)
    → b < u64_mod
    → Consecutive a segments b
    → (len ≡ 0) ⊎ (a ≤ offset + start)
    → offset + start + len ≤ b
    → Resolves offset segments start len (resolve_loop offset segments (offset + start) start len)
resolve_loop-Resolves offset a b ss start zero hb c h le =
    rw (loop_done offset (offset + start) start ss) (omega arith, tt, refl)
resolve_loop-Resolves offset a b [] start (suc k) hb c h le = absurd (omega arith)
resolve_loop-Resolves offset a b (s ∷ ss) start (suc k) hb c h le =
    let le_end = Consecutive-le (a + s.length) b ss c.1 in
    let fits : s.offset + s.length < u64_mod = omega arith in
    elim (Bool-cases (leb (s.offset + s.length) (offset + start))) [
      | inl e ↦
          rw
            (loop_past offset (offset + start) start (suc k) s ss fits (omega arith) (leb→le _ _ e))
            (skip-Resolves offset start (suc k) s ss _ (
              resolve_loop-Resolves offset (a + s.length) b ss start (suc k) hb c.1
                (inr (ground arith)) le))
      | inr e ↦
          let below : offset + start < s.offset + s.length = ground arith in
          let n = taken s (offset + start) (suc k) in
          let move : offset + start + n ≡ offset + (start + n) = omega arith in
          let all : start + n + (suc k - n) ≡ start + suc k = omega arith in
          let ih =
            resolve_loop-Resolves offset (a + s.length) b ss (start + n) (suc k - n) hb c.1
              (reach a s offset start k c.0 below) (omega arith) in
          rw
            (
              loop_write offset (offset + start) start (suc k) s ss fits (omega arith) (omega arith)
                  (omega arith) below,
              move,
            )
            (
              (refl, omega arith, rw all at ih.0),
              (inl (refl, omega arith, omega arith), All-next offset s ss _ ih.1),
              ih.2,
            )
    ]

-- Let a payload be bounded, its size and the number after it fit into 64 bits, and its files
-- follow one another from byte 0 to that size. A write within the payload is resolved to slices
-- that tile the buffer and each lie in a file at the place of its bytes; one that reaches beyond
-- the payload is refused.
pub resolve_writes-Tiles :
    (m : FileMap) (offset len : ℕ)
    → m.bounded ≡ true
    → m.total_size + 1 < u64_mod
    → Consecutive 0 m.segments m.total_size
    → ((offset + len ≤ m.total_size)
        × ((ws : List WriteSlice) × (resolve_writes m offset len ≡ ok ws)
            × SliceTiles 0 ws len
            × All (InFile offset m.segments) ws))
      ⊎ ((m.total_size < offset + len)
          × (resolve_writes m offset len ≡ err (other "payload write out of bounds")))
unfolding resolve_writes
resolve_writes-Tiles m offset len b ht c =
    elim (Bool-cases (ltb m.total_size (min (offset + len) (u64_mod - 1)))) [
      | inl e ↦ inr (ground arith, rw (b, e))
      | inr e ↦
          let le : offset + len ≤ m.total_size = ground arith in
          let zero_start : offset + 0 ≡ offset = omega arith in
          let r =
            resolve_loop-Resolves offset 0 m.total_size m.segments 0 len (omega arith) c
              (inr (omega arith)) (omega arith) in
          let r' = rw zero_start at r in inl (le, (_, rw (b, e, r'.2), rw zero-add at r'.0, r'.1))
    ]
