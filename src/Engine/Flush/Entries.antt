-- ===== src/Engine/Flush/Entries.antt =====
-- crates/f4kvs-lsm/src/core/engine.rs: the entries that a flush writes, against the memtable's.
use mathlib.Core.Option.{none-ne-some}
use f4kvs_lsm.Base.{
  ℕ, suc, ◌+◌, ◌%◌, ◌<◌, ◌≤◌, ◌≡◌, refl, ap, none, some, [], ◌∷◌, Key, key_eq, length, arith,
  Bool-cases, inl, inr, cmp_flip_lt, some-injective,
}
use f4kvs_lsm.Base.BTreeMap
use f4kvs_lsm.Base.BTreeMap.{BTreeMap}
use f4kvs_lsm.Base.BTreeMap.Sorted.{IsSorted}
use f4kvs_lsm.Base.Words.{u64_mod}
use f4kvs_lsm.Base.Sort.{IsOrdered}
use f4kvs_lsm.Value.{Value, is_null}
use f4kvs_lsm.Memtable.Scan.{layer_of}
use f4kvs_lsm.Sstable.{Entry}
use f4kvs_lsm.Sstable.Lookup.{find}
use f4kvs_lsm.Engine.Flush.{stamp_entries, key_before}

module _ {J : Type 0} where
  pub layer_of-IsOrdered : (m : BTreeMap (Value J)) → IsSorted m → IsOrdered key_before (layer_of m)
  unfolding layer_of
  layer_of-IsOrdered [] s = tt
  layer_of-IsOrdered ((k, v) ∷ []) s = tt
  layer_of-IsOrdered ((k, v) ∷ (j, w) ∷ m) ((lt, _), s) =
      (rw (cmp_flip_lt k j lt) refl, layer_of-IsOrdered ((j, w) ∷ m) s)

  pub length-layer_of : (m : BTreeMap (Value J)) → length (layer_of m) ≡ length m
  unfolding layer_of
  length-layer_of [] = refl
  length-layer_of ((k, v) ∷ m) = ap suc (length-layer_of m)

  pub find-stamp_none :
      (m : BTreeMap (Value J)) (seq : ℕ) (key : Key)
      → BTreeMap.get m key ≡ none
      → find (stamp_entries seq (layer_of m)) key ≡ none
  unfolding layer_of stamp_entries find BTreeMap.get
  find-stamp_none [] seq key h = refl
  find-stamp_none ((k, v) ∷ m) seq key h = elim (Bool-cases (key_eq k key)) [
    | inl same ↦ absurd (ground (arith, same, h))
    | inr other ↦ rw other (find-stamp_none m ((seq + 1) % u64_mod) key (ground (arith, other, h)))
  ]

  -- The entry that is written for a key carries the memtable's value and a new timestamp.
  abbrev pub Stamped : ℕ → Value J → Entry J → Type 0
  Stamped seq v x = (x.value ≡ v) × (x.deleted ≡ is_null v) × (seq ≤ x.timestamp)

  pub find-stamp_some :
      (m : BTreeMap (Value J)) (seq : ℕ) (key : Key) (v : Value J)
      → seq + length m < u64_mod
      → BTreeMap.get m key ≡ some v
      → (x : Entry J) × (find (stamp_entries seq (layer_of m)) key ≡ some x) × Stamped seq v x
  unfolding layer_of stamp_entries find BTreeMap.get
  find-stamp_some [] seq key v room h = absurd (none-ne-some v h)
  find-stamp_some ((k, w) ∷ m) seq key v room h = elim (Bool-cases (key_eq k key)) [
    | inl same ↦
        let is : w ≡ v = some-injective _ _ (ground (arith, same, h)) in
        (
          record { key = k; value = w; timestamp = seq; deleted = is_null w },
          rw same refl,
          (is, ap is_null is, omega arith),
        )
    | inr other ↦
        let small : (seq + 1) % u64_mod ≡ seq + 1 = grind arith in
        let (x, f, (sv, sd, st)) =
          find-stamp_some m ((seq + 1) % u64_mod) key v (omega (arith, small))
            (ground (arith, other, h)) in
        (x, rw other f, (sv, sd, omega (arith, small, st)))
  ]
