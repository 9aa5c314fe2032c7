-- ===== src/Engine/Write/Bulk.antt =====
-- crates/f4kvs-lsm/src/core/engine.rs: bulk import is a mode that neither a write in memory nor a
-- flush leaves.
use f4kvs_lsm.Base.{
  ◌∷◌, [], ℕ, ◌≡◌, refl, ◌∙◌, Bool, true, false, Option, none, some, List, Key, if◌then◌else◌,
  arith, Bool-cases, inl, inr, ltb, length,
}
use f4kvs_lsm.Value.{Value}
use f4kvs_lsm.Memtable
use f4kvs_lsm.Memtable.{PutEffect, is_full}
use f4kvs_lsm.Sstable.{Entry, SsTable}
use f4kvs_lsm.Engine.{exists, Engine, get_from_sstables}
use f4kvs_lsm.Memtable.Scan.{LayerEntry, get_all_entries}
use f4kvs_lsm.Engine.Flush.{
  flush_memtable_internal, flush_memtable_entries_to_sstable, write_sorted, push_l0, swap_out,
  drop_flushed, key_before,
}
use f4kvs_lsm.Engine.Write.{
  apply_put_key_count, increment_live_keys, decrement_live_keys, put_in_memory, delete_in_memory,
}
use f4kvs_lsm.Base.Sort.{sort_by}

-- What holds of both outcomes of the two tests holds of the result.
pub one_of :
    {A V : Type 0} (P : A → Type 0) (b : Bool) (o : Option V) (x y : A)
    → P x
    → P y
    → P (if b then x else elim o [ none ↦ x | some v ↦ y ])
one_of P true o x y p q = p
one_of P false none x y p q = p
one_of P false (some v) x y p q = q

module _ {J : Type 0} (hash : Key → ℕ → ℕ) (json_len : J → ℕ) where
  bulk_import-apply_put_key_count :
      (e : Engine J) (key : Key) (effect : PutEffect)
      → (apply_put_key_count hash e key effect).bulk_import ≡ e.bulk_import
  unfolding apply_put_key_count increment_live_keys
  bulk_import-apply_put_key_count e key PutEffect.updated_live = refl
  bulk_import-apply_put_key_count e key PutEffect.resurrected = refl
  bulk_import-apply_put_key_count e key PutEffect.inserted =
      one_of (λ f. f.bulk_import ≡ e.bulk_import) e.bulk_import (get_from_sstables hash e key)
        (increment_live_keys e) e refl refl

  pub bulk_import-put_in_memory :
      (e : Engine J) (key : Key) (v : Value J)
      → (put_in_memory hash json_len e key v).bulk_import ≡ e.bulk_import
  unfolding put_in_memory
  bulk_import-put_in_memory e key v =
      let (m, effect) = Memtable.put json_len e.active key v in
      bulk_import-apply_put_key_count (record e { active = m }) key effect

  pub bulk_import-delete_in_memory :
      (e : Engine J) (key : Key)
      → (delete_in_memory hash json_len e key).bulk_import ≡ e.bulk_import
  unfolding delete_in_memory decrement_live_keys
  bulk_import-delete_in_memory e key = elim (Bool-cases (exists hash e key)) [
    | inl live ↦ rw (live, delete_in_memory) refl
    | inr dead ↦ rw (dead, delete_in_memory) refl
  ]

module _ {J : Type 0} (build : List (Entry J) → Option (SsTable J)) (clashes : ℕ) where
  bulk_import-drop_flushed :
      (index : ℕ) (r : Engine J × Bool) → (drop_flushed index r).0.bulk_import ≡ r.0.bulk_import
  unfolding drop_flushed
  bulk_import-drop_flushed index (e, true) = refl
  bulk_import-drop_flushed index (e, false) = refl

  bulk_import-write_sorted :
      (e : Engine J) (entries : List (LayerEntry J))
      → (write_sorted build clashes e entries).0.bulk_import ≡ e.bulk_import
  unfolding write_sorted push_l0
  bulk_import-write_sorted e entries = grind arith

  bulk_import-flush_entries :
      (e : Engine J) (entries : List (LayerEntry J))
      → (flush_memtable_entries_to_sstable build clashes e entries).0.bulk_import ≡ e.bulk_import
  unfolding flush_memtable_entries_to_sstable
  bulk_import-flush_entries e [] = refl
  bulk_import-flush_entries e (x ∷ xs) = bulk_import-write_sorted e (sort_by key_before (x ∷ xs))

  pub bulk_import-flush_memtable_internal :
      (e : Engine J) → (flush_memtable_internal build clashes e).0.bulk_import ≡ e.bulk_import
  unfolding flush_memtable_internal swap_out
  bulk_import-flush_memtable_internal e = elim (Bool-cases (ltb 0 e.active.entry_count)) [
    | inl some_entries ↦
        rw (some_entries, flush_memtable_internal)
          (bulk_import-drop_flushed (length e.immutables) (
              flush_memtable_entries_to_sstable build clashes (swap_out e)
                (get_all_entries e.active))
            ∙ bulk_import-flush_entries (swap_out e) (get_all_entries e.active))
    | inr empty ↦ rw (empty, flush_memtable_internal) refl
  ]
