-- ===== src/Memtable/Scan/Prefix.antt =====
-- crates/f4kvs-lsm/src/storage/memtable.rs: the loops that stop at the first key with another
-- prefix find the same keys as a test of every key, since the map is in order.
use f4kvs_lsm.Base.{
  ◌≡◌, refl, true, false, ◌&&◌, Option, none, some, [], ◌∷◌, Key, starts_with, key_lt, key_le,
  le-prefix, prefix_convex, le-lt_trans, arith, cmp, cmp_trans,
}
use f4kvs_lsm.Base.BTreeMap.{BTreeMap}
use f4kvs_lsm.Base.BTreeMap.Sorted.{AllAbove, IsSorted}
use f4kvs_lsm.Base.BTreeMap.Range.{keep, range_from, range_after}
use f4kvs_lsm.Memtable.Scan.{first_with_prefix, first_key_after_map, while_prefix}
use Prim.Native.Nat.{Ordering}

-- The least key of a map.
abbrev pub least {ℓ} : {V : Type ℓ} → BTreeMap V → Option Key
least [] = none
least ((k, v) ∷ m) = some k

module _ {ℓ} {V : Type ℓ} (p : Key) where
  no_prefix_above :
      (k : Key) (m : BTreeMap V)
      → key_le p k ≡ true
      → starts_with k p ≡ false
      → AllAbove k m
      → keep (λ j. starts_with j p) m ≡ []
  unfolding keep
  no_prefix_above k [] h n a = refl
  no_prefix_above k ((j, v) ∷ m) h n a =
      ground (arith, no_prefix_above k m h n a.1, prefix_convex p k j h a.0)

  -- The loop over the range returns exactly the entries with the prefix.
  pub while_prefix-range :
      (m : BTreeMap V)
      → IsSorted m
      → while_prefix (range_from m p) p ≡ keep (λ k. starts_with k p) m
  unfolding keep while_prefix
  while_prefix-range [] s = refl
  while_prefix-range ((k, v) ∷ m) s =
      ground (arith, while_prefix-range m s.1, no_prefix_above k m, s.0, le-prefix p k)

  first_from :
      (m : BTreeMap V)
      → IsSorted m
      → first_with_prefix (range_from m p) p ≡ least (keep (λ k. starts_with k p) m)
  unfolding keep first_with_prefix
  first_from [] s = refl
  first_from ((k, v) ∷ m) s =
      ground (arith, first_from m s.1, no_prefix_above k m, s.0, le-prefix p k)

  no_prefix_after :
      (a k : Key) (m : BTreeMap V)
      → key_le p k ≡ true
      → starts_with k p ≡ false
      → AllAbove k m
      → keep (λ j. key_lt a j && starts_with j p) m ≡ []
  unfolding keep
  no_prefix_after a k [] h n b = refl
  no_prefix_after a k ((j, v) ∷ m) h n b =
      ground (arith, no_prefix_after a k m h n b.1, prefix_convex p k j h b.0)

  first_after :
      (a : Key) (m : BTreeMap V)
      → key_le p a ≡ true
      → IsSorted m
      → first_with_prefix (range_after m a) p ≡ least (keep (λ k. key_lt a k && starts_with k p) m)
  unfolding keep first_with_prefix
  first_after a [] h s = refl
  first_after a ((k, v) ∷ m) h s =
      ground (arith, first_after a m h s.1, no_prefix_after a k m, s.0, le-lt_trans p a k h)

  -- On a map in key order a scan goes on, after a key at or above the prefix, with the least key
  -- above that one that has the prefix.
  pub first_key_resume :
      (m : BTreeMap V) (a : Key)
      → key_le p a ≡ true
      → IsSorted m
      → first_key_after_map m p (some a) ≡ least (keep (λ k. key_lt a k && starts_with k p) m)
  unfolding first_key_after_map
  first_key_resume m a h s = first_after a m h s

  -- After a key below the prefix a scan finds nothing where a key without the prefix comes before
  -- the one with it: here in a map of these two.
  pub first_key_hidden :
      (a k j : Key) (v w : V)
      → cmp a k ≡ Ordering.lt
      → cmp k j ≡ Ordering.lt
      → starts_with k p ≡ false
      → starts_with j p ≡ true
      → (first_key_after_map ((k, v) ∷ (j, w) ∷ []) p (some a) ≡ none)
        × (least (keep (λ i. key_lt a i && starts_with i p) ((k, v) ∷ (j, w) ∷ [])) ≡ some j)
  unfolding first_key_after_map first_with_prefix keep
  first_key_hidden a k j v w h l n y = (ground arith, ground (arith, cmp_trans a k j h l))
