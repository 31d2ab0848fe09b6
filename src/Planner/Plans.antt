-- ===== src/Planner/Plans.antt =====
-- The plan of src/scheduler/planner.rs for a well-formed manifest.
use paradown.Prelude.{
  ℕ, ◌<◌, String, Bool, true, false, ◌≡◌, refl, sym, subst, ◌∙◌, Option, List, [], ◌∷◌, arith, min,
  max, if◌then◌else◌, is_empty, length, u32_mod, is_empty-sort_by, drop,
}
use paradown.Piece.{PieceLayout}
use paradown.Piece.Layout.{PieceTiles}
use paradown.Domain.Source.{SourceDescriptor, active_transfer_sources}
use paradown.Manifest.{SessionManifest}
use paradown.Manifest.WellFormed.{IsWellFormed}
use paradown.Planner.{
  primary_only, availability_aware, plan_with_sources, plan_execution_lanes_with_source_order,
  sort_sources,
}
use paradown.Planner.Lanes.{LaneTiles, assignment-Tiles, lane_loop-Tiles, cut_point_zero}

pieces_exist :
    (total : ℕ) (pieces : List PieceLayout)
    → 0 < total
    → PieceTiles 0 pieces total
    → 0 < length pieces
pieces_exist total [] h t = omega arith
pieces_exist total (p ∷ ps) h t = omega arith

pieces_nonempty :
    (total : ℕ) (pieces : List PieceLayout)
    → 0 < total
    → PieceTiles 0 pieces total
    → is_empty pieces ≡ false
pieces_nonempty total [] h t = absurd (omega arith)
pieces_nonempty total (p ∷ ps) h t = refl

parallel-Tiles :
    (m : SessionManifest) (requested : ℕ) (source : SourceDescriptor)
    (sources : List SourceDescriptor)
    → IsWellFormed m
    → 0 < m.total_size
    → length m.pieces < u32_mod
    → LaneTiles 0 (plan_with_sources m requested availability_aware (source ∷ sources)) m.total_size
unfolding plan_with_sources
parallel-Tiles m requested source sources w h0 hn =
    let some_pieces = pieces_exist m.total_size m.pieces h0 w.piece_tiles in
    lane_loop-Tiles source sources m.pieces m.blocks _ _ 0 0 m.total_size w.total_fits hn
      (omega arith) (omega arith) (omega arith)
      (subst (λ j. PieceTiles 0 (drop j m.pieces) m.total_size)
        (sym (cut_point_zero (length m.pieces) (min (max requested 1) (length m.pieces))))
        w.piece_tiles)

serial-Tiles :
    (m : SessionManifest) (requested : ℕ) (source : SourceDescriptor)
    (sources : List SourceDescriptor)
    → IsWellFormed m
    → 0 < m.total_size
    → LaneTiles 0 (plan_with_sources m requested primary_only (source ∷ sources)) m.total_size
unfolding plan_with_sources
serial-Tiles m requested source sources w h0 =
    assignment-Tiles 0 source.id 0 m.total_size m.pieces m.blocks w.total_fits
      (pieces_exist m.total_size m.pieces h0 w.piece_tiles) w.piece_tiles

plan_with_sources-Tiles :
    (m : SessionManifest) (requested : ℕ) (parallel : Bool) (sources : List SourceDescriptor)
    → IsWellFormed m
    → 0 < m.total_size
    → length m.pieces < u32_mod
    → is_empty sources ≡ false
    → LaneTiles 0
        (plan_with_sources m requested
          (if parallel then availability_aware else primary_only)
          sources)
        m.total_size
plan_with_sources-Tiles m requested true (s ∷ ss) w h0 hn e =
    parallel-Tiles m requested s ss w h0 hn
plan_with_sources-Tiles m requested false (s ∷ ss) w h0 hn e = serial-Tiles m requested s ss w h0
plan_with_sources-Tiles m requested _ [] w h0 hn e = cc

is_empty-sort_sources :
    (preferred : List String) (primary_id : Option String) (sources : List SourceDescriptor)
    → is_empty (sort_sources preferred primary_id sources) ≡ is_empty sources
unfolding sort_sources
is_empty-sort_sources preferred primary_id sources = is_empty-sort_by _ sources

-- Whatever the workers asked for, the policy and the preferred sources: the lanes planned for a
-- well-formed manifest that is not empty, has fewer than 2^32 pieces and has a source to transfer
-- from tile the payload.
pub plan_execution_lanes-Tiles :
    (m : SessionManifest) (requested : ℕ) (parallel : Bool) (preferred : List String)
    → IsWellFormed m
    → 0 < m.total_size
    → length m.pieces < u32_mod
    → is_empty (active_transfer_sources m.sources) ≡ false
    → LaneTiles 0
        (plan_execution_lanes_with_source_order m requested parallel preferred)
        m.total_size
unfolding plan_execution_lanes_with_source_order
plan_execution_lanes-Tiles m requested parallel preferred w h0 hn e =
    rw (pieces_nonempty m.total_size m.pieces h0 w.piece_tiles) (
      plan_with_sources-Tiles m requested parallel _ w h0 hn
        (is_empty-sort_sources preferred _ (active_transfer_sources m.sources) ∙ e))
