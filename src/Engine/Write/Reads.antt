-- ===== src/Engine/Write/Reads.antt =====
-- crates/f4kvs-lsm/src/core/engine.rs: a read after a write.
use f4kvs_lsm.Base.{
  ◌+◌, ◌-◌, ◌%◌, ℕ, ◌≡◌, refl, ◌∙◌, Bool, true, false, Option, none, some, List, Key, key_eq,
  if◌then◌else◌, arith, Bool-cases, inl, inr, ◌⊎◌, ap,
}
use f4kvs_lsm.Value.{Value, is_null}
use f4kvs_lsm.Memtable
use f4kvs_lsm.Memtable.{PutEffect, is_full}
use f4kvs_lsm.Memtable.Lookup.{lookup-put, lookup-delete}
use f4kvs_lsm.Sstable.{Entry, SsTable}
use f4kvs_lsm.Engine.{
  get_from_memtables, exists, Engine, first_in, get_from_sstables, get, Memtable,
}
use f4kvs_lsm.Engine.Memtables.{answer, or_else, get-eq}
use f4kvs_lsm.Engine.Flush.Reads.{CanFlush, get-flush}
use f4kvs_lsm.Engine.Flush.{flush_memtable_internal}
use f4kvs_lsm.Engine.Write.Bulk.{
  one_of, bulk_import-put_in_memory, bulk_import-delete_in_memory,
  bulk_import-flush_memtable_internal,
}
use f4kvs_lsm.Engine.Write.{
  apply_put_key_count, increment_live_keys, decrement_live_keys, put_in_memory, delete_in_memory,
  check_memtable_flush, flush_memtable, compact_after, put, delete, u64_mod,
}

module _ {J : Type 0} (hash : Key → ℕ → ℕ) where
  get-recount :
      (e : Engine J) (q : Key) (n : ℕ) → get hash (record e { live_key_count = n }) q ≡ get hash e q
  unfolding get get_from_memtables get_from_sstables
  get-recount e q n = refl

  -- Counting changes no read.
  get-apply_put_key_count :
      (e : Engine J) (key q : Key) (effect : PutEffect)
      → get hash (apply_put_key_count hash e key effect) q ≡ get hash e q
  unfolding apply_put_key_count increment_live_keys
  get-apply_put_key_count e key q PutEffect.updated_live = refl
  get-apply_put_key_count e key q PutEffect.resurrected =
      get-recount e q ((e.live_key_count + 1) % u64_mod)
  get-apply_put_key_count e key q PutEffect.inserted =
      one_of (λ f. get hash f q ≡ get hash e q) e.bulk_import (get_from_sstables hash e key)
        (increment_live_keys e) e (get-recount e q ((e.live_key_count + 1) % u64_mod)) refl

  get-new_active :
      (e : Engine J) (m : Memtable J) (q : Key)
      → get hash (record e { active = m }) q
        ≡ answer
            (or_else (Memtable.lookup m q) (first_in e.immutables q))
            (get_from_sstables hash e q)
  unfolding get_from_sstables
  get-new_active e m q = get-eq hash (record e { active = m }) q

module _ {J : Type 0} (hash : Key → ℕ → ℕ) (json_len : J → ℕ) where
  -- After a put a read of the key returns the value, nothing where the value is null, and every
  -- other read what it returned before.
  pub get-put_in_memory :
      (e : Engine J) (key q : Key) (v : Value J)
      → get hash (put_in_memory hash json_len e key v) q
        ≡ (if key_eq key q then (if is_null v then none else some v) else get hash e q)
  unfolding put_in_memory
  get-put_in_memory e key q v =
      let (m, effect) = Memtable.put json_len e.active key v in
      get-apply_put_key_count hash (record e { active = m }) key q effect
      ∙ get-new_active hash e m q
      ∙ rw (lookup-put json_len e.active key q v) (ground (arith, get-eq hash e q))

  -- After a delete a read of the key returns nothing, and every other read what it returned
  -- before.
  pub get-delete_in_memory :
      (e : Engine J) (key q : Key)
      → get hash (delete_in_memory hash json_len e key) q
        ≡ (if key_eq key q then none else get hash e q)
  unfolding delete_in_memory decrement_live_keys
  get-delete_in_memory e key q =
      let m = Memtable.delete json_len e.active key in
      let step : get hash (record e { active = m }) q
          ≡ (if key_eq key q then none else get hash e q) =
        get-new_active hash e m q
        ∙ rw (lookup-delete json_len e.active key q) (ground (arith, get-eq hash e q)) in
      elim (Bool-cases (exists hash e key)) [
        | inl live ↦
            rw (live, delete_in_memory)
              (get-recount hash (record e { active = m }) q
                  ((e.live_key_count + u64_mod - 1) % u64_mod)
                ∙ step)
        | inr dead ↦ rw (dead, delete_in_memory) step
      ]

module _ {J : Type 0} where
  -- No compaction follows the flush check of a write: bulk import is on, or the memtable that
  -- the write leaves is not full.
  abbrev pub NoCompaction : Engine J → Engine J → Type 0
  NoCompaction e written = (e.bulk_import ≡ true) ⊎ (is_full written.active ≡ false)

module _ {J : Type 0} (hash : Key → ℕ → ℕ) (json_len : J → ℕ)
    (build : List (Entry J) → Option (SsTable J)) (clashes : ℕ)
    (compact : Engine J → Engine J) where
  compact_after-bulk_import :
      (r : Engine J × Bool) → r.0.bulk_import ≡ true → (compact_after compact r).0 ≡ r.0
  unfolding compact_after
  compact_after-bulk_import (e, true) on = ground (arith, on)
  compact_after-bulk_import (e, false) on = refl

  get-check_memtable_flush :
      (e : Engine J) (q : Key)
      → NoCompaction e e
      → CanFlush hash json_len build clashes e q
      → get hash (check_memtable_flush build clashes compact e).0 q ≡ get hash e q
  unfolding check_memtable_flush flush_memtable
  get-check_memtable_flush e q quiet c = elim (Bool-cases (is_full e.active)) [
    | inr roomy ↦ rw (roomy, check_memtable_flush) refl
    | inl full ↦ elim quiet [
      | inr roomy ↦ absurd (ground (arith, full, roomy))
      | inl on ↦
          rw (full, check_memtable_flush)
            (ap (λ f. get hash f q)
                (compact_after-bulk_import (flush_memtable_internal build clashes e)
                  (bulk_import-flush_memtable_internal build clashes e ∙ on))
              ∙ get-flush hash json_len build clashes e q c)
    ]
  ]

  -- After a put, with the flush that may follow it, a read of its key returns the value, nothing
  -- where the value is null, and a read of another key what it returned before, if no compaction
  -- follows, since bulk import is on or the memtable is not full after the put, and if that
  -- memtable can be flushed.
  pub get-put :
      (e : Engine J) (key q : Key) (v : Value J)
      → NoCompaction e (put_in_memory hash json_len e key v)
      → CanFlush hash json_len build clashes (put_in_memory hash json_len e key v) q
      → get hash (put hash json_len build clashes compact e key v).0 q
        ≡ (if key_eq key q then (if is_null v then none else some v) else get hash e q)
  unfolding put
  get-put e key q v quiet c =
      let w = put_in_memory hash json_len e key v in
      let kept : NoCompaction w w = elim quiet [
        | inl on ↦ inl (bulk_import-put_in_memory hash json_len e key v ∙ on)
        | inr roomy ↦ inr roomy
      ] in
      get-check_memtable_flush w q kept c ∙ get-put_in_memory hash json_len e key q v

  -- After a delete, with the flush that may follow it, a read of its key returns nothing and a read
  -- of another key what it returned before, if no compaction follows, since bulk import is on or
  -- the memtable is not full after the delete, and if that memtable can be flushed.
  pub get-delete :
      (e : Engine J) (key q : Key)
      → NoCompaction e (delete_in_memory hash json_len e key)
      → CanFlush hash json_len build clashes (delete_in_memory hash json_len e key) q
      → get hash (delete hash json_len build clashes compact e key).0 q
        ≡ (if key_eq key q then none else get hash e q)
  unfolding delete
  get-delete e key q quiet c =
      let w = delete_in_memory hash json_len e key in
      let kept : NoCompaction w w = elim quiet [
        | inl on ↦ inl (bulk_import-delete_in_memory hash json_len e key ∙ on)
        | inr roomy ↦ inr roomy
      ] in
      get-check_memtable_flush w q kept c ∙ get-delete_in_memory hash json_len e key q
