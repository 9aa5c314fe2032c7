-- ===== src/Base/BTreeMap/Total.antt =====
-- Sums over the entries of a map, and what the writes make of them.
use Prim.Native.Nat.{ℕ, ◌+◌, ◌≤◌}
use mathlib.Core.Path.{◌≡◌, refl}
use mathlib.Core.Option.{none, some}
use mathlib.Core.List.{[], ◌∷◌}
use native.Mathlib.Omega.{arith}
use f4kvs_lsm.Base.Lists.{length}
use f4kvs_lsm.Base.Keys.{Key, eq_of_cmp, cmp_refl}
use f4kvs_lsm.Base.BTreeMap.{BTreeMap, get, insert, remove}
use f4kvs_lsm.Base.BTreeMap.Sorted.{IsSorted, get-below, get-AllAbove}

-- The sum over the entries of a map.
unfoldable pub total {ℓ} : {V : Type ℓ} → (Key → V → ℕ) → BTreeMap V → ℕ
total f [] = 0
total f ((k, v) ∷ m) = f k v + total f m

pub total-insert_new {ℓ} :
    {V : Type ℓ} (f : Key → V → ℕ) (m : BTreeMap V) (k : Key) (v : V)
    → get m k ≡ none
    → total f (insert m k v) ≡ total f m + f k v
unfolding total get insert
total-insert_new f [] k v h = omega arith
total-insert_new f ((j, w) ∷ m) k v h =
    ground (arith, total-insert_new f m k v, eq_of_cmp k j, cmp_refl k)

pub total-insert_old {ℓ} :
    {V : Type ℓ} (f : Key → V → ℕ) (m : BTreeMap V) (k : Key) (v w : V)
    → IsSorted m
    → get m k ≡ some w
    → total f (insert m k v) + f k w ≡ total f m + f k v
unfolding total get insert
total-insert_old f [] k v w s h = cc
total-insert_old f ((j, x) ∷ m) k v w s h = ground (
  arith,
  total-insert_old f m k v w s.1,
  eq_of_cmp k j,
  eq_of_cmp j k,
  cmp_refl k,
  get-below k j m,
)

pub total-get {ℓ} :
    {V : Type ℓ} (f : Key → V → ℕ) (m : BTreeMap V) (k : Key) (w : V)
    → get m k ≡ some w
    → f k w ≤ total f m
unfolding total get
total-get f [] k w h = cc
total-get f ((j, x) ∷ m) k w h = ground (arith, total-get f m k w, eq_of_cmp j k)

pub length-total {ℓ} : {V : Type ℓ} (m : BTreeMap V) → length m ≡ total (λ _ _. 1) m
unfolding total
length-total [] = refl
length-total (e ∷ m) = omega (arith, length-total m)

pub remove-absent {ℓ} : {V : Type ℓ} (m : BTreeMap V) (k : Key) → get m k ≡ none → remove m k ≡ m
unfolding get remove
remove-absent [] k h = refl
remove-absent ((j, x) ∷ m) k h = ground (arith, remove-absent m k)

pub total-remove {ℓ} :
    {V : Type ℓ} (f : Key → V → ℕ) (m : BTreeMap V) (k : Key) (w : V)
    → IsSorted m
    → get m k ≡ some w
    → total f (remove m k) + f k w ≡ total f m
unfolding total get remove
total-remove f [] k w s h = cc
total-remove f ((j, x) ∷ m) k w s h =
    ground (arith, total-remove f m k w s.1, eq_of_cmp j k, remove-absent m k, get-AllAbove j m s.0)
