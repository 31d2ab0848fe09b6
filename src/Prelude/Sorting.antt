-- ===== src/Prelude/Sorting.antt =====
-- slice::sort_by and sort_by_key, which are stable: insertion behind the equal elements.
use mathlib.Core.Path.{◌≡◌, refl, ap, subst}
use Prim.Native.Nat.{ℕ, ◌≤◌}
use mathlib.Core.Logic.{◌⊎◌, inl, inr}
use mathlib.Core.Option.{some}
use mathlib.Core.Bool.{Bool, false}
use mathlib.Core.List.{List, [], ◌∷◌}
use mathlib.Core.List.{Perm}
use mathlib.Core.List.Perm
use native.Mathlib.Omega.{arith}
use paradown.Prelude.Tests.{if◌then◌else◌, Bool-cases}
use paradown.Prelude.Lists.{is_empty, find, All, All-map}

-- `after x y`: y must stand before x, since it compares as less.
module _ {ℓ} {A : Type ℓ} (after : A → A → Bool) where
  unfoldable pub insert_sorted : A → List A → List A
  insert_sorted x [] = x ∷ []
  insert_sorted x (y ∷ ys) = if after x y then y ∷ insert_sorted x ys else x ∷ y ∷ ys

  -- The elements are inserted from the back, so that equal ones keep their order.
  unfoldable pub sort_by : List A → List A
  unfolding insert_sorted
  sort_by [] = []
  sort_by (x ∷ xs) = insert_sorted x (sort_by xs)

  insert_sorted-perm : (x : A) (xs : List A) → Perm (insert_sorted x xs) (x ∷ xs)
  unfolding insert_sorted
  insert_sorted-perm x [] = Perm.refl _
  insert_sorted-perm x (y ∷ ys) = elim (Bool-cases (after x y)) [
    | inl e ↦ rw e (Perm.trans (Perm.cons y (insert_sorted-perm x ys)) (Perm.swap x y ys))
    | inr e ↦ rw e (Perm.refl _)
  ]

  pub sort_by-perm : (xs : List A) → Perm (sort_by xs) xs
  unfolding sort_by
  sort_by-perm [] = Perm.refl _
  sort_by-perm (x ∷ xs) =
      Perm.trans (insert_sorted-perm x (sort_by xs)) (Perm.cons x (sort_by-perm xs))

  insert_sorted-nonempty : (x : A) (ys : List A) → is_empty (insert_sorted x ys) ≡ false
  unfolding insert_sorted
  insert_sorted-nonempty x [] = refl
  insert_sorted-nonempty x (y ∷ ys) = ground arith

  pub is_empty-sort_by : (xs : List A) → is_empty (sort_by xs) ≡ is_empty xs
  unfolding sort_by
  is_empty-sort_by [] = refl
  is_empty-sort_by (x ∷ xs) = insert_sorted-nonempty x (sort_by xs)

module _ {ℓ} {A : Type ℓ} (after : A → A → Bool) where
  -- No element must stand behind the next one.
  abbrev pub InOrder : List A → Type 0
  InOrder [] = Unit
  InOrder (x ∷ []) = Unit
  InOrder (x ∷ y ∷ ys) = (after x y ≡ false) × InOrder (y ∷ ys)

  -- Sorting changes nothing in a list that is in order.
  pub sort_by-InOrder : (xs : List A) → InOrder xs → sort_by after xs ≡ xs
  unfolding sort_by insert_sorted
  sort_by-InOrder [] h = refl
  sort_by-InOrder (x ∷ []) h = refl
  sort_by-InOrder (x ∷ y ∷ ys) h = let rest = sort_by-InOrder (y ∷ ys) h.1 in rw (rest, h.0)

module _ {ℓ κ} {A : Type ℓ} (after : A → A → Bool) (P : A → Type κ) where
  All-insert_sorted : (x : A) (xs : List A) → P x → All P xs → All P (insert_sorted after x xs)
  unfolding insert_sorted
  All-insert_sorted x [] hx h = (hx, tt)
  All-insert_sorted x (y ∷ ys) hx h = elim (Bool-cases (after x y)) [
    | inl e ↦ rw e (h.0, All-insert_sorted x ys hx h.1)
    | inr e ↦ rw e (hx, h)
  ]

  pub All-sort_by : (xs : List A) → All P xs → All P (sort_by after xs)
  unfolding sort_by
  All-sort_by [] h = tt
  All-sort_by (x ∷ xs) h = All-insert_sorted x (sort_by after xs) h.0 (All-sort_by xs h.1)

  All-insert_sorted_inv : (x : A) (xs : List A) → All P (insert_sorted after x xs) → P x × All P xs
  unfolding insert_sorted
  All-insert_sorted_inv x [] h = (h.0, tt)
  All-insert_sorted_inv x (y ∷ ys) h = elim (Bool-cases (after x y)) [
    | inl e ↦ let h' = rw e at h in let r = All-insert_sorted_inv x ys h'.1 in (r.0, (h'.0, r.1))
    | inr e ↦ rw e at h
  ]

  -- What holds of a sorted list's elements holds of the list's.
  pub All-sort_by_inv : (xs : List A) → All P (sort_by after xs) → All P xs
  unfolding sort_by
  All-sort_by_inv [] h = tt
  All-sort_by_inv (x ∷ xs) h =
      let r = All-insert_sorted_inv x (sort_by after xs) h in (r.0, All-sort_by_inv xs r.1)

module _ {ℓ} {A : Type ℓ} (rank : A → ℕ) where
  -- The ranks do not fall along the list.
  abbrev pub Ascending : List A → Type 0
  Ascending [] = Unit
  Ascending (x ∷ xs) = All (λ y. rank x ≤ rank y) xs × Ascending xs

  pub Ascending-find :
      (p : A → Bool) (xs : List A) (s : A)
      → Ascending xs
      → find p xs ≡ some s
      → All (λ y. (p y ≡ false) ⊎ (rank s ≤ rank y)) xs
  Ascending-find p [] s a h = tt
  Ascending-find p (x ∷ xs) s a h = elim (Bool-cases (p x)) [
    | inl e ↦
        let same : x ≡ s = ground arith in
        let a' = subst (λ z. All (λ y. rank z ≤ rank y) xs) same a.0 in
        (inr (omega (arith, ap rank same)), All-map (λ y. rank s ≤ rank y) _ xs (λ y le. inr le) a')
    | inr e ↦ (inl e, Ascending-find p xs s a.1 (rw e at h))
  ]

module _ {ℓ} {A : Type ℓ} (after : A → A → Bool) (rank : A → ℕ) where
  abbrev pub Respects : Type ℓ
  Respects = (x y : A) → if after x y then rank y ≤ rank x else rank x ≤ rank y

  insert_sorted-Ascending :
      Respects
      → (x : A) (xs : List A) → Ascending rank xs
      → Ascending rank (insert_sorted after x xs)
  unfolding insert_sorted
  insert_sorted-Ascending r x [] a = (tt, tt)
  insert_sorted-Ascending r x (y ∷ ys) a = elim (Bool-cases (after x y)) [
    | inl e ↦
        let le = rw e at (r x y) in
        rw e (
          All-insert_sorted after (λ z. rank y ≤ rank z) x ys le a.0,
          insert_sorted-Ascending r x ys a.1,
        )
    | inr e ↦ let le = rw e at (r x y) in rw e ((le, All-map _ _ ys (λ z h. omega arith) a.0), a)
  ]

  pub sort_by-Ascending : Respects → (xs : List A) → Ascending rank (sort_by after xs)
  unfolding sort_by
  sort_by-Ascending r [] = tt
  sort_by-Ascending r (x ∷ xs) =
      insert_sorted-Ascending r x (sort_by after xs) (sort_by-Ascending r xs)
