-- ===== src/Base/Sort.antt =====
-- `slice::sort_by` of the standard library: the stable sort of a list by a comparison.
use mathlib.Core.Path.{◌≡◌, refl}
use mathlib.Core.Bool.{Bool, false}
use mathlib.Core.List.{List, [], ◌∷◌}
use f4kvs_lsm.Base.Tests.{if◌then◌else◌}

module _ {ℓ} {A : Type ℓ} (before : A → A → Bool) where
  unfoldable pub insert_by : A → List A → List A
  insert_by x [] = x ∷ []
  insert_by x (y ∷ ys) = let rest = insert_by x ys in if before y x then y ∷ rest else x ∷ y ∷ ys

  unfoldable pub sort_by : List A → List A
  unfolding insert_by
  sort_by [] = []
  sort_by (x ∷ xs) = insert_by x (sort_by xs)

  -- No element comes before the one that it follows.
  abbrev pub IsOrdered : List A → Type 0
  IsOrdered [] = Unit {0}
  IsOrdered (x ∷ []) = Unit {0}
  IsOrdered (x ∷ y ∷ ys) = (before y x ≡ false) × IsOrdered (y ∷ ys)

  pub sort_by-IsOrdered : (xs : List A) → IsOrdered xs → sort_by xs ≡ xs
  unfolding sort_by
  sort_by-IsOrdered [] o = refl
  sort_by-IsOrdered (x ∷ []) o = refl
  sort_by-IsOrdered (x ∷ y ∷ ys) (n, o) = rw (sort_by-IsOrdered (y ∷ ys) o, n) refl
