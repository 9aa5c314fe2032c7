-- ===== src/Memtable/Accounting.antt =====
-- crates/f4kvs-lsm/src/storage/memtable.rs: the byte size and the entry count that decide when a
-- memtable is full and whether a flush has anything to write.
use f4kvs_lsm.Base.{
  ℕ, ◌+◌, ◌≤◌, ◌<◌, ◌≡◌, none, some, Key, length, arith, ◌⊎◌, Option-cases, inl, inr, key_eq_refl,
}
use f4kvs_lsm.Base.BTreeMap
use f4kvs_lsm.Base.BTreeMap.{BTreeMap, get-insert}
use f4kvs_lsm.Base.BTreeMap.Sorted.{IsSorted, insert-IsSorted}
use f4kvs_lsm.Base.Words.{u64_mod}
use f4kvs_lsm.Value.{Value, estimate_value_size}
use f4kvs_lsm.Memtable.{Memtable, put, delete}
use f4kvs_lsm.Base.BTreeMap.Total.{
  total, total-insert_new, total-insert_old, total-get, length-total,
}

-- The bytes of the entries, a deleted one counted by its key alone.
abbrev pub bytes_held : {J : Type 0} → (J → ℕ) → BTreeMap (Value J) → ℕ
bytes_held json_len = total (λ k v. length k + estimate_value_size json_len v)

-- The tracked size covers the entries, the count is exact, and the map is in order.
pub record IsAccounted {J : Type 0} (json_len : J → ℕ) (t : Memtable J) : Type 0 where
  pub sorted : IsSorted t.contents
  pub covered : bytes_held json_len t.contents ≤ t.size
  pub counted : t.entry_count ≡ length t.contents

-- There is room for one more entry of this size in a `usize`.
abbrev pub Fits : {J : Type 0} → (J → ℕ) → Memtable J → Key → Value J → Type 0
Fits json_len t k v =
    t.size + length k + 1 + estimate_value_size json_len v < u64_mod × (t.entry_count + 1 < u64_mod)

module _ {J : Type 0} (json_len : J → ℕ) (t : Memtable J) where
  abbrev cost : Key → Value J → ℕ
  cost k v = length k + estimate_value_size json_len v

  -- The facts about the map that a write under `k` rests on.
  write_facts :
      (k : Key) (v : Value J)
      → IsAccounted json_len t
      → ((BTreeMap.get t.contents k ≡ none)
          × (total cost (BTreeMap.insert t.contents k v) ≡ total cost t.contents + cost k v)
          × (length (BTreeMap.insert t.contents k v) ≡ length t.contents + 1))
        ⊎ ((w : Value J) × (BTreeMap.get t.contents k ≡ some w)
            × (total cost (BTreeMap.insert t.contents k v) + cost k w
                ≡ total cost t.contents + cost k v)
            × (length (BTreeMap.insert t.contents k v) ≡ length t.contents))
  write_facts k v a = elim (Option-cases (BTreeMap.get t.contents k)) [
    | inl new ↦ inl (
      new,
      total-insert_new cost t.contents k v new,
      omega (
        arith,
        length-total {0} t.contents,
        length-total {0} (BTreeMap.insert t.contents k v),
        total-insert_new {0} (λ _ _. 1) t.contents k v new,
      ),
    )
    | inr (w, old) ↦ inr (
      w,
      old,
      total-insert_old cost t.contents k v w a.sorted old,
      omega (
        arith,
        length-total {0} t.contents,
        length-total {0} (BTreeMap.insert t.contents k v),
        total-insert_old {0} (λ _ _. 1) t.contents k v w a.sorted old,
      ),
    )
  ]

  -- An old entry is part of what is counted, so that `saturating_sub` takes it off whole.
  pub held :
      (k : Key) (w : Value J)
      → IsAccounted json_len t
      → BTreeMap.get t.contents k ≡ some w
      → length k + estimate_value_size json_len w ≤ t.size
  held k w a old = omega (arith, total-get {0} cost t.contents k w old, a.covered)

  -- A put keeps the account, if the sizes and the count fit in a `usize`.
  pub put-IsAccounted :
      (k : Key) (v : Value J)
      → IsAccounted json_len t
      → Fits json_len t k v
      → IsAccounted json_len (put json_len t k v).0
  unfolding put
  put-IsAccounted k v a fits = record {
    sorted = insert-IsSorted t.contents k v a.sorted;
    covered = ground (arith, write_facts k v a);
    counted = ground (arith, write_facts k v a);
  }

  -- A delete keeps the account, if the sizes and the count fit in a `usize`.
  pub delete-IsAccounted :
      (k : Key)
      → IsAccounted json_len t
      → Fits json_len t k Value.null
      → IsAccounted json_len (delete json_len t k)
  unfolding delete
  delete-IsAccounted k a fits = record {
    sorted = insert-IsSorted t.contents k Value.null a.sorted;
    covered = ground (arith, write_facts k Value.null a);
    counted = ground (arith, write_facts k Value.null a);
  }

  -- On an accounted memtable with room, a put after a delete of its key leaves the size one byte
  -- above what the put alone would leave.
  pub size-put-delete :
      (k : Key) (v : Value J)
      → IsAccounted json_len t
      → t.size + length k + length k + 2 + estimate_value_size json_len v < u64_mod
      → (put json_len (delete json_len t k) k v).0.size ≡ (put json_len t k v).0.size + 1
  unfolding put delete
  size-put-delete k v a fits =
      ground (arith, get-insert t.contents k k Value.null, key_eq_refl k, held k)
