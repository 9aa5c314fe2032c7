-- ===== src/Base/Keys.antt =====
-- Rust's `str` as its bytes, with the byte-wise order that `String` and `BTreeMap` compare by.
use Prim.Native.Nat.{ℕ, compare, Ordering}
use mathlib.Core.Path.{◌≡◌, refl, ap}
use mathlib.Core.Bool.{Bool, true, false, not, ◌||◌}
use mathlib.Core.List.{List, [], ◌∷◌}
use native.Mathlib.Omega.{arith}

abbrev pub Key : Type 0
Key = List ℕ

-- `k.cmp(j)`
unfoldable pub cmp : Key → Key → Ordering
cmp [] [] = Ordering.eq
cmp [] (b ∷ j) = Ordering.lt
cmp (a ∷ k) [] = Ordering.gt
cmp (a ∷ k) (b ∷ j) = elim (compare a b) [
  | Ordering.lt ↦ Ordering.lt
  | Ordering.eq ↦ cmp k j
  | Ordering.gt ↦ Ordering.gt
]

abbrev pub is_lt : Ordering → Bool
is_lt Ordering.lt = true
is_lt _ = false

abbrev pub is_eq : Ordering → Bool
is_eq Ordering.eq = true
is_eq _ = false

-- `k < j`, `k <= j` and `k == j` on `str`
abbrev pub key_lt : Key → Key → Bool
key_lt k j = is_lt (cmp k j)

abbrev pub key_le : Key → Key → Bool
key_le k j = elim (cmp k j) [ Ordering.gt ↦ false | _ ↦ true ]

abbrev pub key_eq : Key → Key → Bool
key_eq k j = is_eq (cmp k j)

-- `s.starts_with(p)`
unfoldable pub starts_with : Key → Key → Bool
starts_with s [] = true
starts_with [] (b ∷ p) = false
starts_with (a ∷ s) (b ∷ p) = elim (compare a b) [ Ordering.eq ↦ starts_with s p | _ ↦ false ]

pub cmp_refl : (k : Key) → cmp k k ≡ Ordering.eq
unfolding cmp
cmp_refl [] = refl
cmp_refl (a ∷ k) = ground (arith, cmp_refl k)

pub eq_of_cmp : (k j : Key) → cmp k j ≡ Ordering.eq → k ≡ j
unfolding cmp
eq_of_cmp [] [] h = refl
eq_of_cmp [] (b ∷ j) h = cc
eq_of_cmp (a ∷ k) [] h = cc
eq_of_cmp (a ∷ k) (b ∷ j) h = ground (arith, eq_of_cmp k j)

pub cmp_flip_lt : (k j : Key) → cmp k j ≡ Ordering.lt → cmp j k ≡ Ordering.gt
unfolding cmp
cmp_flip_lt [] [] h = cc
cmp_flip_lt [] (b ∷ j) h = refl
cmp_flip_lt (a ∷ k) [] h = cc
cmp_flip_lt (a ∷ k) (b ∷ j) h = ground (arith, cmp_flip_lt k j)

pub cmp_flip_gt : (k j : Key) → cmp k j ≡ Ordering.gt → cmp j k ≡ Ordering.lt
unfolding cmp
cmp_flip_gt [] [] h = cc
cmp_flip_gt [] (b ∷ j) h = cc
cmp_flip_gt (a ∷ k) [] h = refl
cmp_flip_gt (a ∷ k) (b ∷ j) h = ground (arith, cmp_flip_gt k j)

pub cmp_trans :
    (k j i : Key) → cmp k j ≡ Ordering.lt → cmp j i ≡ Ordering.lt → cmp k i ≡ Ordering.lt
unfolding cmp
cmp_trans [] [] i h g = cc
cmp_trans [] (b ∷ j) [] h g = cc
cmp_trans [] (b ∷ j) (c ∷ i) h g = refl
cmp_trans (a ∷ k) [] i h g = cc
cmp_trans (a ∷ k) (b ∷ j) [] h g = cc
cmp_trans (a ∷ k) (b ∷ j) (c ∷ i) h g = ground (arith, cmp_trans k j i)

-- Two keys are the same exactly when they compare as equal.
pub key_eq_refl : (k : Key) → key_eq k k ≡ true
key_eq_refl k = ap is_eq (cmp_refl k)

pub eq_of_key_eq : (k j : Key) → key_eq k j ≡ true → k ≡ j
eq_of_key_eq k j h = ground (arith, eq_of_cmp k j)

-- A prefix of a key is at most the key.
pub le-prefix : (p k : Key) → starts_with k p ≡ true → key_le p k ≡ true
unfolding cmp starts_with
le-prefix [] [] h = refl
le-prefix [] (b ∷ k) h = refl
le-prefix (a ∷ p) [] h = cc
le-prefix (a ∷ p) (b ∷ k) h = ground (arith, le-prefix p k)

-- The keys with one prefix lie together: what is between the prefix and such a key is one.
pub prefix_convex :
    (p k j : Key)
    → key_le p k ≡ true
    → cmp k j ≡ Ordering.lt
    → starts_with j p ≡ true
    → starts_with k p ≡ true
unfolding cmp starts_with
prefix_convex [] k j h l s = ground arith
prefix_convex (a ∷ p) [] j h l s = cc
prefix_convex (a ∷ p) (b ∷ k) [] h l s = cc
prefix_convex (a ∷ p) (b ∷ k) (c ∷ j) h l s = ground (arith, prefix_convex p k j)

pub le-lt_trans : (p k j : Key) → key_le p k ≡ true → cmp k j ≡ Ordering.lt → key_le p j ≡ true
le-lt_trans p k j h l = ground (arith, eq_of_cmp p k, cmp_trans p k j)

pub lt-not-lt_trans : (k j i : Key) → key_lt k j ≡ true → key_lt i j ≡ false → key_lt k i ≡ true
lt-not-lt_trans k j i h g = ground (arith, eq_of_cmp i j, cmp_flip_gt i j, cmp_trans k j i)

-- `<` on keys is the negation of the reverse `<=`: what is not below a bound that is not below
-- another is not below that one.
pub not-lt_trans : (k j i : Key) → key_lt k j ≡ false → key_lt j i ≡ false → key_lt k i ≡ false
not-lt_trans k j i h g = ground (
  arith,
  eq_of_cmp k j,
  eq_of_cmp j i,
  cmp_flip_gt k j,
  cmp_flip_lt k i,
  cmp_flip_gt j i,
  cmp_trans j k i,
  cmp_trans i j k,
  cmp_flip_gt k i,
  cmp_flip_lt i k,
)

pub key_le-flip : (k j : Key) → key_le k j ≡ not (key_lt j k)
key_le-flip k j = ground (arith, cmp_flip_lt k j, cmp_flip_gt k j, eq_of_cmp k j, cmp_refl j)

-- Whether a key is in a list.
abbrev pub contains : List Key → Key → Bool
contains [] q = false
contains (k ∷ ks) q = key_eq k q || contains ks q
