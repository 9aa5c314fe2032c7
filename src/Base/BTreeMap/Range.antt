-- ===== src/Base/BTreeMap/Range.antt =====
-- `BTreeMap::range` over the bounds that the engine uses.
use mathlib.Core.Path.{◌≡◌}
use mathlib.Core.Bool.{Bool, ◌&&◌}
use mathlib.Core.Option.{Option, none, some}
use mathlib.Core.List.{[], ◌∷◌}
use native.Mathlib.Omega.{arith}
use f4kvs_lsm.Base.Tests.{if◌then◌else◌}
use f4kvs_lsm.Base.Keys.{Key, key_lt, key_le, eq_of_cmp}
use f4kvs_lsm.Base.BTreeMap.{BTreeMap, get}

module _ {ℓ} {V : Type ℓ} where
  -- The entries whose keys pass a test, in key order.
  unfoldable pub keep : (Key → Bool) → BTreeMap V → BTreeMap V
  keep test [] = []
  keep test ((k, v) ∷ m) = let rest = keep test m in if test k then (k, v) ∷ rest else rest

  -- `range(lo..)`
  abbrev pub range_from : BTreeMap V → Key → BTreeMap V
  range_from m lo = keep (λ k. key_le lo k) m

  -- `range((Excluded(a), Unbounded))`
  abbrev pub range_after : BTreeMap V → Key → BTreeMap V
  range_after m a = keep (λ k. key_lt a k) m

  -- `range(lo..hi)`, which panics when `lo > hi`: `none` is the panic.
  unfoldable pub range : BTreeMap V → Key → Key → Option (BTreeMap V)
  range m lo hi = if key_lt hi lo then none else some (keep (λ k. key_le lo k && key_lt k hi) m)

  -- Keeping entries by key hides those that fail the test and shows the others.
  pub get-keep :
      (test : Key → Bool) (m : BTreeMap V) (q : Key)
      → get (keep test m) q ≡ (if test q then get m q else none)
  unfolding get keep
  get-keep test [] q = ground arith
  get-keep test ((k, v) ∷ m) q = ground (arith, get-keep test m q, eq_of_cmp k q)
