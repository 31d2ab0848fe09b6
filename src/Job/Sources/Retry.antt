-- ===== src/Job/Sources/Retry.antt =====
-- The source that src/job/mod.rs turns to when a transfer fails.
use paradown.Prelude.{
  ℕ, ◌≤◌, String, Bool, true, false, not, ◌≡◌, ◌≢◌, ◌⊎◌, inl, inr, Option, some, List, [], ◌∷◌,
  arith, subst, ◌<◌, str_eq, eq_iff, ◌==◌, find, filter, All, All-map, Bool-cases, All-sort_by,
  All-sort_by_inv, Ascending-find, Respects, sort_by-Ascending,
}
use paradown.Domain.Source.{
  SourceDescriptor, SourceSet, active_transfer_sources, can_transfer_payload,
}
use paradown.Planner.{is_gt}
use paradown.Job.Sources.{
  SourceRuntime, compare_ranks, ranked_transfer_sources, select_retry_source,
}

abbrev pub failures : SourceRuntime → SourceDescriptor → ℕ
failures runtime s = (runtime s.id).consecutive_failures

compare_ranks-Respects :
    (runtime : SourceRuntime) (primary_id : Option String)
    → Respects
        (λ left right. is_gt (compare_ranks runtime primary_id left right))
        (failures runtime)
unfolding compare_ranks
compare_ranks-Respects runtime primary_id x y = ground arith

find_lem {ℓ} : {A : Type ℓ} (p : A → Bool) (xs : List A) (s : A) → find p xs ≡ some s → p s ≡ true
find_lem p [] s h = cc
find_lem p (x ∷ xs) s h = elim (Bool-cases (p x)) [
  | inl e ↦ ground arith
  | inr e ↦ find_lem p xs s (rw e at h)
]

find-All {ℓ κ} :
    {A : Type ℓ} (P : A → Type κ) (p : A → Bool) (xs : List A) (s : A)
    → All P xs
    → find p xs ≡ some s
    → P s
find-All P p [] s a h = cc
find-All P p (x ∷ xs) s a h = elim (Bool-cases (p x)) [
  | inl e ↦ let same : x ≡ s = ground arith in subst P same a.0
  | inr e ↦ find-All P p xs s a.1 (rw e at h)
]

filter-true {ℓ} : {A : Type ℓ} (p : A → Bool) (xs : List A) → All (λ x. p x ≡ true) (filter p xs)
filter-true p [] = tt
filter-true p (x ∷ xs) = elim (Bool-cases (p x)) [
  | inl e ↦ rw e (e, filter-true p xs)
  | inr e ↦ rw e (filter-true p xs)
]

-- If a source is selected for a retry, the current one has failed. The new source is another one,
-- can transfer the payload, and has failed no more often in a row than any other such source.
pub select_retry_source_lem :
    (set : SourceSet) (runtime : SourceRuntime) (current : String) (s : SourceDescriptor)
    → select_retry_source set runtime current ≡ some s
    → (0 < (runtime current).consecutive_failures)
      × (s.id ≢ current)
      × (can_transfer_payload s ≡ true)
      × All
          (λ other. (other.id ≡ current) ⊎ (failures runtime s ≤ failures runtime other))
          (active_transfer_sources set)
unfolding select_retry_source ranked_transfer_sources active_transfer_sources
select_retry_source_lem set runtime current s h =
    let failed : ((runtime current).consecutive_failures == 0) ≡ false = ground arith in
    let found : find other (ranked_transfer_sources set runtime) ≡ some s = ground arith in
    let not_current = find_lem other (ranked_transfer_sources set runtime) s found in
    (
      ground arith,
      λ e. ground (arith, eq_iff s.id current),
      find-All (λ x. can_transfer_payload x ≡ true) other (ranked_transfer_sources set runtime) s
          (All-sort_by _ _ (active_transfer_sources set)
            (filter-true can_transfer_payload set.sources))
          found,
      All-map _ _ (active_transfer_sources set) pick (
          All-sort_by_inv _ _ (active_transfer_sources set) (
            Ascending-find (failures runtime) other (ranked_transfer_sources set runtime) s
              (sort_by-Ascending _ (failures runtime) (compare_ranks-Respects runtime _)
                (active_transfer_sources set))
              found)),
    )
  where
    other : SourceDescriptor → Bool
    other x = not (str_eq x.id current)

    pick :
        (x : SourceDescriptor)
        → (other x ≡ false) ⊎ (failures runtime s ≤ failures runtime x)
        → (x.id ≡ current) ⊎ (failures runtime s ≤ failures runtime x)
    pick x (inl e) = inl (ground (arith, eq_iff x.id current))
    pick x (inr le) = inr le
