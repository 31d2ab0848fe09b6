-- ===== src/Piece/Numbering.antt =====
-- Which piece of a plan of src/domain/piece.rs has which number, offset and length.
use paradown.Prelude.{
  ℕ, zero, suc, ◌+◌, ◌-◌, ◌*◌, ◌≤◌, ◌<◌, min, max, ◌≡◌, refl, List, [], ◌∷◌, arith, ltb,
  if◌then◌else◌, u32_mod, u64_mod, le→ltb, Bool-cases, inl, inr, add_u32, Option, some, none,
  get_elem?, add_u64, as_u32,
}
use paradown.Piece.{PieceLayout, piece_loop, plan_piece_layouts}

-- The piece with number `i` of a plan that starts at byte `offset` with number `index`.
abbrev pub planned_piece : ℕ → ℕ → ℕ → ℕ → ℕ → Option PieceLayout
planned_piece total piece_size index offset i =
    if ltb (offset + i * piece_size) total
    then some (record {
      piece_index = as_u32 (index + i);
      offset = offset + i * piece_size;
      length = min (total - (offset + i * piece_size)) piece_size;
    })
    else none

piece_loop-get :
    (fuel total piece_size index offset i : ℕ)
    → total < u64_mod
    → 0 < piece_size
    → piece_size < u32_mod
    → index < u32_mod
    → total ≤ offset + fuel
    → get_elem? (piece_loop fuel total piece_size index offset) i
      ≡ planned_piece total piece_size index offset i
unfolding piece_loop
piece_loop-get zero total piece_size index offset i ht h0 h32 hi fuel_ok = ground arith
piece_loop-get (suc fuel) total piece_size index offset zero ht h0 h32 hi fuel_ok = ground arith
piece_loop-get (suc fuel) total piece_size index offset (suc i) ht h0 h32 hi fuel_ok =
    elim (Bool-cases (ltb offset total)) [
      | inl more ↦ rw more (
          ground (
            arith,
            piece_loop-get fuel total piece_size (add_u32 index 1)
                (add_u64 offset (as_u32 (min (total - offset) piece_size))) i ht h0 h32,
          ))
      | inr done ↦ rw done (ground arith)
    ]

-- For a payload size of 64 bits and a piece size of 32 bits: piece `i` of the plan starts at byte
-- `i * piece_size` and is `piece_size` long, but for the last, which ends with the payload.
pub plan_piece_layouts-get :
    (total piece_size i : ℕ)
    → total < u64_mod
    → piece_size < u32_mod
    → get_elem? (plan_piece_layouts total piece_size) i
      ≡ planned_piece total (max piece_size 1) 0 0 i
unfolding plan_piece_layouts
plan_piece_layouts-get total piece_size i ht h32 =
    ground (arith, piece_loop-get total total (max piece_size 1) 0 0 i)

-- The pieces carry the numbers `n`, `n + 1`, and so on.
abbrev pub Numbered : ℕ → List PieceLayout → Type 0
Numbered n [] = Unit
Numbered n (p ∷ ps) = (p.piece_index ≡ n) × Numbered (n + 1) ps

piece_loop_done :
    (fuel total piece_size index offset : ℕ)
    → total ≤ offset
    → piece_loop fuel total piece_size index offset ≡ []
unfolding piece_loop
piece_loop_done zero total piece_size index offset h = refl
piece_loop_done (suc fuel) total piece_size index offset h = rw (le→ltb offset total h)

piece_loop-Numbered :
    (fuel total piece_size index offset room : ℕ)
    → total < u64_mod
    → 0 < piece_size
    → piece_size < u32_mod
    → index + room ≡ u32_mod
    → total ≤ offset + room * piece_size
    → Numbered index (piece_loop fuel total piece_size index offset)
unfolding piece_loop
piece_loop-Numbered zero total piece_size index offset room ht h0 h32 hr fits = tt
piece_loop-Numbered (suc fuel) total piece_size index offset zero ht h0 h32 hr fits =
    rw (le→ltb offset total (omega arith)) tt
piece_loop-Numbered (suc fuel) total piece_size index offset (suc zero) ht h0 h32 hr fits =
    elim (Bool-cases (ltb offset total)) [
      | inr done ↦ rw done tt
      | inl more ↦
          rw
            (
              more,
              piece_loop_done fuel total piece_size (add_u32 index 1)
                  (add_u64 offset (as_u32 (min (total - offset) piece_size))) (ground arith),
            )
            (refl, tt)
    ]
piece_loop-Numbered (suc fuel) total piece_size index offset (suc (suc room)) ht h0 h32 hr fits =
    let next : add_u32 index 1 ≡ index + 1 = omega arith in
    let ih =
      piece_loop-Numbered fuel total piece_size (index + 1)
        (add_u64 offset (as_u32 (min (total - offset) piece_size))) (suc room) ht h0 h32
        (omega arith) in
    elim (Bool-cases (ltb offset total)) [
      | inr done ↦ rw done tt
      | inl more ↦ rw (more, next) (refl, ih (ground arith))
    ]

-- The pieces of a plan are numbered from 0, if the numbers fit.
pub plan_piece_layouts-Numbered :
    (total piece_size : ℕ)
    → total < u64_mod
    → piece_size < u32_mod
    → total ≤ u32_mod * max piece_size 1
    → Numbered 0 (plan_piece_layouts total piece_size)
unfolding plan_piece_layouts
plan_piece_layouts-Numbered total piece_size ht h32 fits = ground (
  arith,
  piece_loop-Numbered total total (max piece_size 1) 0 0 u32_mod ht (omega arith) (omega arith),
)
