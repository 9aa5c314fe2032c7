-- ===== src/Engine/Write.antt =====
-- crates/f4kvs-lsm/src/core/engine.rs: `put` and `delete`, with the write-ahead log disabled
-- (`config.wal.enabled`). What `compact_if_needed` makes of the engine, whether it ends with an
-- error or not, is the parameter `compact`. The statistics are left out.
pub mod Bulk
pub mod Reads
pub mod Counts
use f4kvs_lsm.Base.{
  ℕ, ◌+◌, ◌-◌, ◌%◌, Bool, true, false, Option, none, some, List, Key, if◌then◌else◌,
}
use f4kvs_lsm.Base.Words.{u64_mod}
use f4kvs_lsm.Value.{Value}
use f4kvs_lsm.Memtable
use f4kvs_lsm.Memtable.{PutEffect, is_full}
use f4kvs_lsm.Sstable.{Entry, SsTable}
use f4kvs_lsm.Engine.{Engine, get_from_sstables, exists}
use f4kvs_lsm.Engine.Flush.{flush_memtable_internal}

module _ {J : Type 0} where
  -- `fetch_add(1)` and `fetch_sub(1)`, which wrap around
  unfoldable pub increment_live_keys : Engine J → Engine J
  increment_live_keys e = record e { live_key_count = (e.live_key_count + 1) % u64_mod }

  unfoldable pub decrement_live_keys : Engine J → Engine J
  decrement_live_keys e = record e { live_key_count = (e.live_key_count + u64_mod - 1) % u64_mod }

module _ {J : Type 0} (hash : Key → ℕ → ℕ) where
  unfoldable pub apply_put_key_count : Engine J → Key → PutEffect → Engine J
  unfolding increment_live_keys get_from_sstables
  apply_put_key_count e key PutEffect.updated_live = e
  apply_put_key_count e key PutEffect.resurrected = increment_live_keys e
  apply_put_key_count e key PutEffect.inserted =
      if e.bulk_import
      then increment_live_keys e
      else elim (get_from_sstables hash e key) [ none ↦ increment_live_keys e | some v ↦ e ]

module _ {J : Type 0} (hash : Key → ℕ → ℕ) (json_len : J → ℕ) where
  -- `put` up to the check whether the memtable is full
  unfoldable pub put_in_memory : Engine J → Key → Value J → Engine J
  unfolding apply_put_key_count Memtable.put
  put_in_memory e key v =
      let (active, effect) = Memtable.put json_len e.active key v in
      apply_put_key_count hash (record e { active = active }) key effect

  -- `delete` up to the same check
  unfoldable pub delete_in_memory : Engine J → Key → Engine J
  unfolding decrement_live_keys exists Memtable.delete
  delete_in_memory e key =
      let written : Engine J = record e { active = Memtable.delete json_len e.active key } in
      if exists hash e key then decrement_live_keys written else written

module _ {J : Type 0} (compact : Engine J → Engine J) where
  -- The part of `flush_memtable` behind the flush: an error of the flush ends it, and an error of
  -- the compaction is only logged.
  unfoldable pub compact_after : Engine J × Bool → Engine J × Bool
  compact_after (e, false) = (e, false)
  compact_after (e, true) = (if e.bulk_import then e else compact e, true)

module _ {J : Type 0} (build : List (Entry J) → Option (SsTable J)) (clashes : ℕ)
    (compact : Engine J → Engine J) where
  unfoldable pub flush_memtable : Engine J → Engine J × Bool
  unfolding flush_memtable_internal compact_after
  flush_memtable e = compact_after compact (flush_memtable_internal build clashes e)

  unfoldable pub check_memtable_flush : Engine J → Engine J × Bool
  unfolding flush_memtable is_full
  check_memtable_flush e = if is_full e.active then flush_memtable e else (e, true)

module _ {J : Type 0} (hash : Key → ℕ → ℕ) (json_len : J → ℕ)
    (build : List (Entry J) → Option (SsTable J)) (clashes : ℕ)
    (compact : Engine J → Engine J) where
  unfoldable pub put : Engine J → Key → Value J → Engine J × Bool
  unfolding put_in_memory check_memtable_flush
  put e key v = check_memtable_flush build clashes compact (put_in_memory hash json_len e key v)

  unfoldable pub delete : Engine J → Key → Engine J × Bool
  unfolding delete_in_memory check_memtable_flush
  delete e key = check_memtable_flush build clashes compact (delete_in_memory hash json_len e key)
