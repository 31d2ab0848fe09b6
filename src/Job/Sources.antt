-- ===== src/Job/Sources.antt =====
-- src/job/mod.rs: how often a source failed, and which source a task turns to. The map from
-- identifiers to counters is a function: an identifier without an entry has the default counters.
pub mod Retry
use Prim.Native.String.{compare as str_compare}
use paradown.Prelude.{
  ℕ, ◌≤◌, String, Bool, true, false, not, ◌≡◌, refl, ◌⊎◌, inl, inr, Option, some, none, List, [],
  ◌∷◌, map, arith, compare, Ordering, str_eq, eq_iff, ◌==◌, ltb, if◌then◌else◌, find, sort_by,
  insert_sorted, All, All-filter, Bool-cases, option_map, saturating_add_u32,
}
use paradown.Domain.Source.{
  SourceDescriptor, SourceSet, active_transfer_sources, can_transfer_payload, primary,
}
use paradown.Planner.{then_with, is_gt, is_primary}

pub record SourceRuntimeState : Type 0 where
  pub consecutive_failures : ℕ
  pub successful_transfers : ℕ

abbrev pub no_transfers : SourceRuntimeState
no_transfers = record { consecutive_failures = 0; successful_transfers = 0 }

abbrev pub SourceRuntime : Type 0
SourceRuntime = String → SourceRuntimeState

unfoldable pub record_source_success : String → SourceRuntime → SourceRuntime
record_source_success source_id runtime id =
    if str_eq source_id id
    then record {
      consecutive_failures = 0;
      successful_transfers = saturating_add_u32 (runtime id).successful_transfers 1;
    }
    else runtime id

unfoldable pub record_source_failure : String → SourceRuntime → SourceRuntime
record_source_failure source_id runtime id =
    if str_eq source_id id
    then record (runtime id) {
      consecutive_failures = saturating_add_u32 (runtime id).consecutive_failures 1;
    }
    else runtime id

-- bool::cmp of `right_is_primary` with `left_is_primary`.
abbrev pub compare_bool : Bool → Bool → Ordering
compare_bool false true = Ordering.lt
compare_bool true false = Ordering.gt
compare_bool _ _ = Ordering.eq

unfoldable pub compare_ranks :
    SourceRuntime → Option String → SourceDescriptor → SourceDescriptor → Ordering
compare_ranks runtime primary_id left right =
    then_with
      (then_with
        (then_with
          (compare (runtime left.id).consecutive_failures (runtime right.id).consecutive_failures)
          (compare (runtime right.id).successful_transfers (runtime left.id).successful_transfers))
        (compare_bool (is_primary primary_id right.id) (is_primary primary_id left.id)))
      (str_compare left.id right.id)

unfoldable pub ranked_transfer_sources : SourceSet → SourceRuntime → List SourceDescriptor
unfolding compare_ranks sort_by active_transfer_sources
ranked_transfer_sources set runtime =
    sort_by (λ left right. is_gt (compare_ranks runtime primary_id left right))
      (active_transfer_sources set)
  where
    primary_id : Option String
    primary_id = option_map (λ (s : SourceDescriptor). s.id) (primary set)

unfoldable pub preferred_transfer_source_ids : SourceSet → SourceRuntime → List String
unfolding ranked_transfer_sources
preferred_transfer_source_ids set runtime =
    map (λ (s : SourceDescriptor). s.id) (ranked_transfer_sources set runtime)

unfoldable pub select_retry_source : SourceSet → SourceRuntime → String → Option SourceDescriptor
unfolding ranked_transfer_sources
select_retry_source set runtime current =
    if (runtime current).consecutive_failures == 0
    then none
    else find (λ (s : SourceDescriptor). not (str_eq s.id current))
        (ranked_transfer_sources set runtime)
