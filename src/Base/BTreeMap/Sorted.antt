-- ===== src/Base/BTreeMap/Sorted.antt =====
-- The order of a map's entries, and the removal laws that rest on it.
use Prim.Native.Nat.{Ordering}
use mathlib.Core.Path.{◌≡◌, refl}
use mathlib.Core.Option.{none}
use mathlib.Core.List.{[], ◌∷◌}
use native.Mathlib.Omega.{arith}
use f4kvs_lsm.Base.Keys.{Key, cmp, cmp_refl, cmp_flip_gt, cmp_trans, eq_of_cmp}
use f4kvs_lsm.Base.BTreeMap.{BTreeMap, get, insert, remove}

module _ {ℓ} {V : Type ℓ} where
  abbrev pub AllAbove : Key → BTreeMap V → Type 0
  AllAbove k [] = Unit
  AllAbove k ((j, w) ∷ m) = (cmp k j ≡ Ordering.lt) × AllAbove k m

  abbrev pub IsSorted : BTreeMap V → Type 0
  IsSorted [] = Unit
  IsSorted ((k, v) ∷ m) = AllAbove k m × IsSorted m

  AllAbove-trans :
      (k j : Key) (m : BTreeMap V) → cmp k j ≡ Ordering.lt → AllAbove j m → AllAbove k m
  AllAbove-trans k j [] h a = tt
  AllAbove-trans k j ((i, w) ∷ m) h a = (cmp_trans k j i h a.0, AllAbove-trans k j m h a.1)

  AllAbove-insert :
      (i : Key) (m : BTreeMap V) (k : Key) (v : V)
      → cmp i k ≡ Ordering.lt
      → AllAbove i m
      → AllAbove i (insert m k v)
  unfolding insert
  AllAbove-insert i [] k v h a = (h, tt)
  AllAbove-insert i ((j, w) ∷ m) k v h a = ground (arith, AllAbove-insert i m k v h a.1)

  pub get-below :
      (k j : Key) (m : BTreeMap V) → cmp k j ≡ Ordering.lt → AllAbove j m → get m k ≡ none
  unfolding get
  get-below k j [] h a = refl
  get-below k j ((i, w) ∷ m) h a =
      ground (arith, get-below k j m h a.1, eq_of_cmp i k, cmp_trans k j i, cmp_refl k)

  pub insert-IsSorted : (m : BTreeMap V) (k : Key) (v : V) → IsSorted m → IsSorted (insert m k v)
  unfolding insert
  insert-IsSorted [] k v s = (tt, tt)
  insert-IsSorted ((j, w) ∷ m) k v s = ground (
    arith,
    insert-IsSorted m k v s.1,
    AllAbove-insert j m k v,
    AllAbove-trans k j m,
    cmp_flip_gt k j,
    eq_of_cmp k j,
  )

  AllAbove-remove : (i : Key) (m : BTreeMap V) (k : Key) → AllAbove i m → AllAbove i (remove m k)
  unfolding remove
  AllAbove-remove i [] k a = tt
  AllAbove-remove i ((j, w) ∷ m) k a = ground (arith, AllAbove-remove i m k a.1)

  pub remove-IsSorted : (m : BTreeMap V) (k : Key) → IsSorted m → IsSorted (remove m k)
  unfolding remove
  remove-IsSorted [] k s = tt
  remove-IsSorted ((j, w) ∷ m) k s =
      ground (arith, remove-IsSorted m k s.1, AllAbove-remove j m k s.0)

  pub get-AllAbove : (k : Key) (m : BTreeMap V) → AllAbove k m → get m k ≡ none
  unfolding get
  get-AllAbove k [] a = refl
  get-AllAbove k ((j, w) ∷ m) a = ground (arith, get-AllAbove k m a.1, eq_of_cmp j k, cmp_refl k)
