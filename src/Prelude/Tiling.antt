-- ===== src/Prelude/Tiling.antt =====
-- A list of byte ranges that lie end to end. `from` and `to` give a range's first byte and the
-- byte behind its last.
use Prim.Native.Nat.{ℕ, zero, suc, ◌+◌, ◌≤◌, ◌<◌}
use mathlib.Core.Path.{◌≡◌, refl}
use mathlib.Core.Bool.{◌&&◌}
use mathlib.Core.List.{List, [], ◌∷◌, ◌++◌}
use native.Mathlib.Omega.{arith}
use paradown.Prelude.Tests.{ltb, leb, if◌then◌else◌}
use paradown.Prelude.Lists.{All, take, drop, last_or}

module _ {ℓ} {A : Type ℓ} (from to : A → ℕ) where
  -- Non-empty ranges that start at `a`, follow one another and end at `b`.
  abbrev pub Tiles : ℕ → List A → ℕ → Type 0
  Tiles a [] b = a ≡ b
  Tiles a (x ∷ xs) b = (from x ≡ a) × (a < to x) × Tiles (to x) xs b

  -- How many of the ranges hold byte `i`.
  abbrev pub holders : ℕ → List A → ℕ
  holders i [] = 0
  holders i (x ∷ xs) = (if leb (from x) i && ltb i (to x) then 1 else 0) + holders i xs

module _ {ℓ} {A : Type ℓ} (from to : A → ℕ) where
  pub Tiles-le : (a b : ℕ) (xs : List A) → Tiles from to a xs b → a ≤ b
  Tiles-le a b [] t = omega arith
  Tiles-le a b (x ∷ xs) t = omega (arith, Tiles-le (to x) b xs t.2)

  pub Tiles-append :
      (a b c : ℕ) (xs ys : List A)
      → Tiles from to a xs b
      → Tiles from to b ys c
      → Tiles from to a (xs ++ ys) c
  Tiles-append a b c [] ys t u = rw t u
  Tiles-append a b c (x ∷ xs) ys t u = (t.0, t.1, Tiles-append (to x) b c xs ys t.2 u)

  holders_before :
      (i a b : ℕ) (xs : List A) → Tiles from to a xs b → i < a → holders from to i xs ≡ 0
  holders_before i a b [] t h = refl
  holders_before i a b (x ∷ xs) t h = ground (arith, holders_before i (to x) b xs t.2)

  -- Each byte of the tiled range lies in exactly one tile, and no other byte in any.
  pub Tiles-holders :
      (i a b : ℕ) (xs : List A)
      → Tiles from to a xs b
      → holders from to i xs ≡ (if leb a i && ltb i b then 1 else 0)
  Tiles-holders i a b [] t = ground arith
  Tiles-holders i a b (x ∷ xs) t = ground (
    arith,
    Tiles-le (to x) b xs t.2,
    Tiles-holders i (to x) b xs t.2,
    holders_before i (to x) b xs t.2,
  )

  -- Every tile lies in the tiled range.
  pub Tiles-All :
      (a b : ℕ) (xs : List A)
      → Tiles from to a xs b
      → All (λ x. (a ≤ from x) × (from x < to x) × (to x ≤ b)) xs
  Tiles-All a b [] t = tt
  Tiles-All a b (x ∷ xs) t =
      ((omega arith, omega arith, Tiles-le (to x) b xs t.2), widen xs (Tiles-All (to x) b xs t.2))
    where
      widen :
          (ys : List A)
          → All (λ y. (to x ≤ from y) × (from y < to y) × (to y ≤ b)) ys
          → All (λ y. (a ≤ from y) × (from y < to y) × (to y ≤ b)) ys
      widen [] h = tt
      widen (y ∷ ys) h = ((omega arith, omega arith, omega arith), widen ys h.1)

module _ {ℓ} {A : Type ℓ} (from to : A → ℕ) where
  -- Where element `n` of a list of tiles from `a` on starts.
  pub cut : ℕ → ℕ → List A → ℕ
  cut zero a xs = a
  cut (suc n) a [] = a
  cut (suc n) a (x ∷ xs) = cut n (to x) xs

  -- A list of tiles falls into two.
  pub Tiles-split :
      (n a b : ℕ) (xs : List A)
      → Tiles from to a xs b
      → Tiles from to a (take n xs) (cut n a xs) × Tiles from to (cut n a xs) (drop n xs) b
  unfolding cut
  Tiles-split zero a b xs t = (refl, t)
  Tiles-split (suc n) a b [] t = (refl, t)
  Tiles-split (suc n) a b (x ∷ xs) t =
      let r = Tiles-split n (to x) b xs t.2 in ((t.0, t.1, r.0), r.1)

  -- The last of some tiles ends where they end.
  pub Tiles-last :
      (a b : ℕ) (x : A) (xs : List A) → Tiles from to a (x ∷ xs) b → to (last_or x xs) ≡ b
  Tiles-last a b x [] t = t.2
  Tiles-last a b x (y ∷ ys) t = Tiles-last (to x) b y ys t.2
