-- ===== src/Domain/Source/Laws.antt =====
-- A source set, src/domain/source.rs, as a map from identifiers to sources.
use paradown.Prelude.{
  String, true, false, ◌≡◌, refl, sym, ◌∙◌, inl, inr, ◌||◌, some, none, List, [], ◌∷◌, ◌++◌, arith,
  str_eq, eq_iff, if◌then◌else◌, or_else, any, find, Bool-cases,
}
use paradown.Domain.Source.{
  SourceDescriptor, SourceSet, has_id, push_unique, get, primary, update_first, replace_primary,
}

any-find :
    (id : String) (xs : List SourceDescriptor)
    → any (has_id id) xs ≡ false
    → find (has_id id) xs ≡ none
any-find id [] h = refl
any-find id (x ∷ xs) h = ground (arith, any-find id xs)

any-true-find :
    (id : String) (xs : List SourceDescriptor)
    → any (has_id id) xs ≡ true
    → (x : SourceDescriptor) × (find (has_id id) xs ≡ some x)
any-true-find id [] h = cc
any-true-find id (x ∷ xs) h = elim (Bool-cases (has_id id x)) [
  | inl e ↦ (x, rw e)
  | inr e ↦ rw e (any-true-find id xs (rw e at h))
]

find-append :
    (id : String) (xs ys : List SourceDescriptor)
    → find (has_id id) (xs ++ ys) ≡ or_else (find (has_id id) xs) (find (has_id id) ys)
find-append id [] ys = refl
find-append id (x ∷ xs) ys = ground (arith, find-append id xs ys)

find-update_first :
    (s : SourceDescriptor) (id : String) (xs : List SourceDescriptor)
    → any (has_id s.id) xs ≡ true
    → find (has_id id) (update_first (has_id s.id) (λ _. s) xs)
      ≡ (if str_eq s.id id then some s else find (has_id id) xs)
unfolding update_first
find-update_first s id [] h = cc
find-update_first s id (x ∷ xs) h =
    ground (arith, find-update_first s id xs, eq_iff x.id s.id, eq_iff x.id id, eq_iff s.id id)

-- After `replace_primary` the given source is found under its identifier and is the primary one;
-- every other identifier finds what it found before.
pub replace_primary_lem :
    (set : SourceSet) (s : SourceDescriptor) (id : String)
    → (get (replace_primary set s) id ≡ (if str_eq s.id id then some s else get set id))
      × (primary (replace_primary set s) ≡ some s)
unfolding get primary replace_primary
replace_primary_lem set s id = (found id, rw here)
  where
    found :
        (j : String) → get (replace_primary set s) j ≡ (if str_eq s.id j then some s else get set j)
    found j = ground (arith, find-update_first s j set.sources)

    here : get (replace_primary set s) s.id ≡ some s
    here = found s.id ∙ rw ((eq_iff s.id s.id).1 refl)

-- `push_unique` adds a source under a new identifier, and changes no identifier that was there.
pub get-push_unique :
    (set : SourceSet) (s : SourceDescriptor) (id : String)
    → get (push_unique set s) id ≡ or_else (get set id) (if str_eq s.id id then some s else none)
unfolding get push_unique
get-push_unique set s id = ground (
  arith,
  find-append id set.sources (s ∷ []),
  any-find id set.sources,
  eq_iff s.id id,
  any-true-find id set.sources,
)

-- No two sources have one identifier.
abbrev pub DistinctIds : List SourceDescriptor → Type 0
DistinctIds [] = Unit
DistinctIds (x ∷ xs) = (any (has_id x.id) xs ≡ false) × DistinctIds xs

any-append :
    (id : String) (xs ys : List SourceDescriptor)
    → any (has_id id) (xs ++ ys) ≡ any (has_id id) xs || any (has_id id) ys
any-append id [] ys = refl
any-append id (x ∷ xs) ys = ground (arith, any-append id xs ys)

any-update_first :
    (s : SourceDescriptor) (id : String) (xs : List SourceDescriptor)
    → any (has_id id) (update_first (has_id s.id) (λ _. s) xs) ≡ any (has_id id) xs
unfolding update_first
any-update_first s id [] = refl
any-update_first s id (x ∷ xs) =
    ground (arith, any-update_first s id xs, eq_iff x.id s.id, eq_iff x.id id, eq_iff s.id id)

DistinctIds-append :
    (xs : List SourceDescriptor) (s : SourceDescriptor)
    → DistinctIds xs
    → any (has_id s.id) xs ≡ false
    → DistinctIds (xs ++ s ∷ [])
DistinctIds-append [] s d h = (refl, tt)
DistinctIds-append (x ∷ xs) s d h = (
  ground (arith, any-append x.id xs (s ∷ []), eq_iff x.id s.id, eq_iff s.id x.id),
  DistinctIds-append xs s d.1 (ground arith),
)

DistinctIds-update_first :
    (s : SourceDescriptor) (xs : List SourceDescriptor)
    → DistinctIds xs
    → DistinctIds (update_first (has_id s.id) (λ _. s) xs)
unfolding update_first
DistinctIds-update_first s [] d = d
DistinctIds-update_first s (x ∷ xs) d = elim (Bool-cases (str_eq x.id s.id)) [
  | inl e ↦ rw e (rw (sym ((eq_iff x.id s.id).0 e)) d.0, d.1)
  | inr e ↦ rw e (rw (any-update_first s x.id xs) d.0, DistinctIds-update_first s xs d.1)
]

-- `push_unique` and `replace_primary` keep the identifiers of a set distinct.
pub source_set-DistinctIds :
    (set : SourceSet) (s : SourceDescriptor)
    → DistinctIds set.sources
    → DistinctIds (push_unique set s).sources × DistinctIds (replace_primary set s).sources
unfolding push_unique replace_primary
source_set-DistinctIds set s d = elim (Bool-cases (any (has_id s.id) set.sources)) [
  | inl e ↦ rw e (d, DistinctIds-update_first s set.sources d)
  | inr e ↦ rw e (DistinctIds-append set.sources s d e, (e, d))
]
