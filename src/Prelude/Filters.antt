-- ===== src/Prelude/Filters.antt =====
-- `filter`, `all` and `find` on lists of which something is known.
use mathlib.Core.Path.{◌≡◌, refl, ◌∙◌}
use mathlib.Core.Bool.{Bool, true, false}
use mathlib.Core.List.{List, [], ◌∷◌, ◌++◌}
use mathlib.Core.List.{append-nil}
use native.Mathlib.Omega.{arith}
use paradown.Prelude.Tests.{if◌then◌else◌}
use paradown.Prelude.Lists.{All, filter, all}

module _ {ℓ} {A : Type ℓ} (p : A → Bool) where
  pub filter-append : (xs ys : List A) → filter p (xs ++ ys) ≡ filter p xs ++ filter p ys
  filter-append [] ys = refl
  filter-append (x ∷ xs) ys = ground (arith, filter-append xs ys)

  pub filter-eq_self : (xs : List A) → All (λ x. p x ≡ true) xs → filter p xs ≡ xs
  filter-eq_self [] h = refl
  filter-eq_self (x ∷ xs) h = rw (h.0, filter-eq_self xs h.1)

  pub filter-eq-nil : (xs : List A) → All (λ x. p x ≡ false) xs → filter p xs ≡ []
  filter-eq-nil [] h = refl
  filter-eq-nil (x ∷ xs) h = rw (h.0, filter-eq-nil xs h.1)

  pub filter-append_left :
      (xs ys : List A)
      → All (λ x. p x ≡ true) xs
      → All (λ y. p y ≡ false) ys
      → filter p (xs ++ ys) ≡ xs
  filter-append_left xs ys h k =
      filter-append xs ys ∙ rw (filter-eq_self xs h, filter-eq-nil ys k) (append-nil xs)

  pub filter-append_right :
      (xs ys : List A) → All (λ x. p x ≡ false) xs → filter p (xs ++ ys) ≡ filter p ys
  filter-append_right xs ys h = filter-append xs ys ∙ rw (filter-eq-nil xs h)

  pub All-filter {κ} : (P : A → Type κ) (xs : List A) → All P xs → All P (filter p xs)
  All-filter P [] h = tt
  All-filter P (x ∷ xs) h = keep (p x) (All-filter P xs h.1)
    where
      keep : (b : Bool) → All P (filter p xs) → All P (if b then x ∷ filter p xs else filter p xs)
      keep true r = (h.0, r)
      keep false r = r

module _ {ℓ} {A : Type ℓ} (f g : A → Bool) where
  pub all_congr : (xs : List A) → All (λ x. f x ≡ g x) xs → all f xs ≡ all g xs
  all_congr [] h = refl
  all_congr (x ∷ xs) h = rw (h.0, all_congr xs h.1)
