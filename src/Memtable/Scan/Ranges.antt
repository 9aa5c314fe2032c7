-- ===== src/Memtable/Scan/Ranges.antt =====
-- crates/f4kvs-lsm/src/storage/memtable.rs: which keys the scans return.
use f4kvs_lsm.Base.{
  contains, if◌then◌else◌, ◌≡◌, refl, Bool, true, false, not, ◌&&◌, Option, none, some, [], ◌∷◌,
  Key, starts_with, key_lt, key_le, arith, eq_of_cmp, ◌↔◌,
}
use mathlib.Core.Option
use f4kvs_lsm.Base.BTreeMap
use f4kvs_lsm.Base.BTreeMap.{BTreeMap}
use f4kvs_lsm.Base.BTreeMap.Sorted.{AllAbove, IsSorted, get-AllAbove}
use f4kvs_lsm.Base.BTreeMap.Range.{keep, range, get-keep}
use f4kvs_lsm.Base.Utf8.{Text, as_bytes}
use f4kvs_lsm.Value.{Value, is_null}
use f4kvs_lsm.Memtable.{Memtable, exists}
use f4kvs_lsm.Memtable.Scan.{
  layer_of, live_keys, scan_prefix, scan_range_layer, scan_range, exclusive_range_end,
}
use f4kvs_lsm.Memtable.Scan.Prefix.{while_prefix-range}

abbrev live : {J : Type 0} → Option (Value J) → Bool
live none = false
live (some v) = not (is_null v)

abbrev between : Key → Key → Key → Bool
between lo hi k = key_le lo k && key_lt k hi

module _ {J : Type 0} where
  contains-live_keys :
      (m : BTreeMap (Value J)) (q : Key)
      → IsSorted m
      → contains (live_keys (layer_of m)) q ≡ live (BTreeMap.get m q)
  unfolding live_keys layer_of BTreeMap.get
  contains-live_keys [] q s = refl
  contains-live_keys ((k, v) ∷ m) q s =
      ground (arith, contains-live_keys m q s.1, get-AllAbove k m s.0, eq_of_cmp k q)

  AllAbove-keep :
      (test : Key → Bool) (k : Key) (m : BTreeMap (Value J))
      → AllAbove k m
      → AllAbove k (keep test m)
  unfolding keep
  AllAbove-keep test k [] a = tt
  AllAbove-keep test k ((j, v) ∷ m) a = ground (arith, AllAbove-keep test k m a.1)

  pub keep-IsSorted :
      (test : Key → Bool) (m : BTreeMap (Value J)) → IsSorted m → IsSorted (keep test m)
  unfolding keep
  keep-IsSorted test [] s = tt
  keep-IsSorted test ((k, v) ∷ m) s =
      ground (arith, keep-IsSorted test m s.1, AllAbove-keep test k m s.0)

  -- On a memtable in key order a prefix scan returns exactly the live keys with the prefix.
  pub contains-scan_prefix :
      (t : Memtable J) (p q : Key)
      → IsSorted t.contents
      → contains (scan_prefix t p) q ≡ (starts_with q p && exists t q)
  unfolding scan_prefix exists
  contains-scan_prefix t p q s = rw (while_prefix-range p t.contents s) (
      rw
        (contains-live_keys (keep (λ k. starts_with k p) t.contents) q
          (keep-IsSorted (λ k. starts_with k p) t.contents s))
        (rw get-keep (ground arith)))

  contains-between :
      (m : BTreeMap (Value J)) (lo hi q : Key)
      → IsSorted m
      → contains (live_keys (layer_of (keep (between lo hi) m))) q
        ≡ (key_le lo q && key_lt q hi && live (BTreeMap.get m q))
  contains-between m lo hi q s =
      rw (contains-live_keys (keep (between lo hi) m) q (keep-IsSorted (between lo hi) m s))
        (rw get-keep (ground arith))

  -- On a memtable in key order, where the end gives a bound, a range scan panics exactly when the
  -- bound lies below the start, and otherwise returns exactly the live keys from the start up to
  -- the bound, the bound excluded.
  pub contains-scan_range :
      (t : Memtable J) (start end bound : Text) (q : Key)
      → IsSorted t.contents
      → exclusive_range_end end ≡ some bound
      → ((scan_range t start end ≡ none) ↔ (key_lt (as_bytes bound) (as_bytes start) ≡ true))
        × (Option.map (λ ks. contains ks q) (scan_range t start end) ≡ (
            if key_lt (as_bytes bound) (as_bytes start)
            then none
            else some (key_le (as_bytes start) q && key_lt q (as_bytes bound) && exists t q)))
  unfolding scan_range scan_range_layer range exists
  contains-scan_range t start end bound q s b =
      let lo = as_bytes start in
      let hi = as_bytes bound in
      let found = contains-between t.contents lo hi q s in
      (rw (b, scan_range_layer) (ground arith), rw (b, scan_range_layer) (ground (arith, found)))
