-- ===== src/Base/BTreeMap.antt =====
-- `std::collections::BTreeMap<String, V>` as the list of its entries in key order.
pub mod Sorted
pub mod Range
pub mod Total
use Prim.Native.Nat.{Ordering}
use mathlib.Core.Path.{◌≡◌, refl}
use mathlib.Core.Option.{Option, none, some}
use mathlib.Core.List.{List, [], ◌∷◌}
use native.Mathlib.Omega.{arith}
use f4kvs_lsm.Base.Tests.{if◌then◌else◌}
use f4kvs_lsm.Base.Keys.{Key, cmp, key_eq, cmp_refl, eq_of_cmp}

abbrev pub BTreeMap {ℓ} : Type ℓ → Type ℓ
BTreeMap V = List (Key × V)

module _ {ℓ} {V : Type ℓ} where
  unfoldable pub get : BTreeMap V → Key → Option V
  get [] q = none
  get ((k, v) ∷ m) q = if key_eq k q then some v else get m q

  unfoldable pub insert : BTreeMap V → Key → V → BTreeMap V
  insert [] k v = (k, v) ∷ []
  insert ((j, w) ∷ m) k v = elim (cmp k j) [
    | Ordering.lt ↦ (k, v) ∷ (j, w) ∷ m
    | Ordering.eq ↦ (k, v) ∷ m
    | Ordering.gt ↦ (j, w) ∷ insert m k v
  ]

  unfoldable pub remove : BTreeMap V → Key → BTreeMap V
  remove [] k = []
  remove ((j, w) ∷ m) k = let rest = remove m k in if key_eq j k then rest else (j, w) ∷ rest

  pub get-insert :
      (m : BTreeMap V) (k q : Key) (v : V)
      → get (insert m k v) q ≡ (if key_eq k q then some v else get m q)
  unfolding get insert
  get-insert [] k q v = refl
  get-insert ((j, w) ∷ m) k q v = ground (
    arith,
    get-insert m k q v,
    eq_of_cmp k j,
    eq_of_cmp k q,
    eq_of_cmp j q,
    cmp_refl k,
    cmp_refl j,
    cmp_refl q,
  )

  pub get-remove :
      (m : BTreeMap V) (k q : Key) → get (remove m k) q ≡ (if key_eq k q then none else get m q)
  unfolding get remove
  get-remove [] k q = ground arith
  get-remove ((j, w) ∷ m) k q = ground (
    arith,
    get-remove m k q,
    eq_of_cmp j k,
    eq_of_cmp k q,
    eq_of_cmp j q,
    cmp_refl k,
    cmp_refl j,
    cmp_refl q,
  )
