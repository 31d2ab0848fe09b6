-- ===== src/Planner/Lanes.antt =====
-- The lanes that src/scheduler/planner.rs plans: they tile the payload, whatever the sources.
use paradown.Prelude.{
  ℕ, zero, suc, ◌+◌, ◌-◌, ◌*◌, ◌/◌, ◌≤◌, ◌<◌, String, false, ◌≡◌, subst, ap, ◌∙◌, Option, some,
  none, List, [], ◌∷◌, arith, ◌==◌, take, drop, drop-drop, drop-length, ◌%◌, length, length-take,
  length-drop, u32_mod, u64_mod, Tiles, Tiles-split, Tiles-last, Tiles-le, cut, cut_last,
  cut_strict,
}
use native.Mathlib.Nat.{div-le_of_le-mul}
use paradown.Piece.{PieceLayout, PieceBlock}
use paradown.Piece.Layout.{piece_from, piece_to, PieceTiles}
use paradown.Domain.Source.{SourceDescriptor}
use paradown.Planner.{
  ExecutionLaneAssignment, assignment_from_piece_slice, cut_point, push_some, lane_loop,
}

-- The bytes of a lane: its `end` is its last byte.
abbrev pub lane_from : ExecutionLaneAssignment → ℕ
lane_from l = l.start

abbrev pub lane_to : ExecutionLaneAssignment → ℕ
lane_to l = l.end + 1

abbrev pub LaneTiles : ℕ → List ExecutionLaneAssignment → ℕ → Type 0
LaneTiles = Tiles lane_from lane_to

-- A non-empty slice of pieces gives one lane, over the same bytes.
pub assignment-Tiles :
    (lane_id : ℕ) (source_id : String) (a b : ℕ) (pieces : List PieceLayout)
    (blocks : List PieceBlock)
    → b < u64_mod
    → 0 < length pieces
    → PieceTiles a pieces b
    → LaneTiles a (push_some (assignment_from_piece_slice lane_id source_id pieces blocks) []) b
unfolding assignment_from_piece_slice
assignment-Tiles lane_id source_id a b [] blocks hb h t = absurd (omega arith)
assignment-Tiles lane_id source_id a b (p ∷ ps) blocks hb h t =
    let e = Tiles-last piece_from piece_to a b p ps t in
    let le = Tiles-le piece_from piece_to (piece_to p) b ps t.2 in (t.0, omega arith, omega arith)

product_fits : (n k i : ℕ) → n < u32_mod → k ≤ n → i ≤ k → i * n < u64_mod
product_fits n k i hn hk hi = grind arith

cut_point_lem : (n k i : ℕ) → n < u32_mod → k ≤ n → i ≤ k → cut_point n k i ≡ i * n / k
unfolding cut_point
cut_point_lem n k i hn hk hi =
    let e : i * n % u64_mod ≡ i * n = omega (arith, product_fits n k i hn hk hi) in rw e

push_some-Tiles :
    (a m b : ℕ) (o : Option ExecutionLaneAssignment) (xs : List ExecutionLaneAssignment)
    → LaneTiles a (push_some o []) m
    → LaneTiles m xs b
    → LaneTiles a (push_some o xs) b
push_some-Tiles a m b none xs t u = rw t u
push_some-Tiles a m b (some x) xs t u = (t.0, t.1, rw t.2 u)

-- What the cut points of a plan for `k` workers are good for.
abbrev Cuts : ℕ → ℕ → ℕ → Type 0
Cuts n k i = (cut_point n k i < cut_point n k (i + 1)) × (cut_point n k (i + 1) ≤ n)

cut_point-Cuts : (n k i : ℕ) → n < u32_mod → k ≤ n → i < k → Cuts n k i
cut_point-Cuts n k i hn hk hi =
    let next : i + 1 ≤ k = omega arith in
    rw (cut_point_lem n k i hn hk (omega arith), cut_point_lem n k (i + 1) hn hk next)
      (cut_strict n k i (omega arith) hk, div-le_of_le-mul k (grind arith))

-- The lanes from number `index` on tile the pieces that are left.
pub lane_loop-Tiles :
    (source : SourceDescriptor) (sources : List SourceDescriptor) (pieces : List PieceLayout)
    (blocks : List PieceBlock) (k rounds index a b : ℕ)
    → b < u64_mod
    → length pieces < u32_mod
    → 0 < k
    → k ≤ length pieces
    → index + rounds ≡ k
    → PieceTiles a (drop (cut_point (length pieces) k index) pieces) b
    → LaneTiles a (lane_loop source sources pieces blocks k rounds index) b
unfolding lane_loop
lane_loop-Tiles source sources pieces blocks k zero index a b hb hn hk le e t =
    let i_eq : index ≡ k = omega arith in
    let at_end : cut_point (length pieces) k index ≡ length pieces =
      cut_point_lem (length pieces) k index hn le (omega arith)
      ∙ rw i_eq (cut_last (length pieces) k hk) in
    subst (λ xs. PieceTiles a xs b) (ap (λ j. drop j pieces) at_end ∙ drop-length pieces) t
lane_loop-Tiles source sources pieces blocks k (suc rounds) index a b hb hn hk le e t =
    let n = length pieces in
    let cuts = cut_point-Cuts n k index hn le (omega arith) in
    let c = cut_point n k index in
    let d = cut_point n k (index + 1) in
    let slice = take (d - c) (drop c pieces) in
    let m = cut piece_from piece_to (d - c) a (drop c pieces) in
    let split = Tiles-split piece_from piece_to (d - c) a b (drop c pieces) t in
    let apart : (c == d) ≡ false = ground arith in
    let sum : c + (d - c) ≡ d = omega arith in
    let rest : PieceTiles m (drop d pieces) b =
      subst (λ xs. PieceTiles m xs b) (drop-drop (d - c) c pieces ∙ ap (λ j. drop j pieces) sum)
        split.1 in
    let m_le = Tiles-le piece_from piece_to m b (drop d pieces) rest in
    rw apart (
      push_some-Tiles a m b _ _
        (assignment-Tiles _ _ a m slice blocks (omega arith)
          (omega (arith, length-take (d - c) (drop c pieces), length-drop c pieces)) split.0)
        (lane_loop-Tiles source sources pieces blocks k rounds (index + 1) m b hb hn hk le
          (omega arith) rest))

pub cut_point_zero : (n k : ℕ) → cut_point n k 0 ≡ 0
unfolding cut_point
cut_point_zero n k = omega arith
