-- ===== src/Wal/Replay.antt =====
-- crates/f4kvs-lsm/src/core/engine.rs: `recover_from_wal`, from the entries that were read to the
-- active memtable. The timeout and the logging are left out; `put` and `delete` of a memtable do
-- not fail.
pub mod Outcome
pub mod Durable
pub mod Written
use f4kvs_lsm.Base.{ℕ, Option, none, some, List, [], ◌∷◌, foldl, if◌then◌else◌, ltb}
use f4kvs_lsm.Wal.{WalEntry, entry_timestamp, put, delete, flush, checkpoint}
use f4kvs_lsm.Memtable
use f4kvs_lsm.Memtable.{Memtable}

module _ {J : Type 0} where
  unfoldable pub checkpoint_time : WalEntry J → Option ℕ
  checkpoint_time (put key value timestamp) = none
  checkpoint_time (delete key timestamp) = none
  checkpoint_time (flush memtable_id timestamp) = none
  checkpoint_time (checkpoint timestamp) = some timestamp

  -- `iter().rev().find_map(..)`: the last checkpoint
  unfoldable pub last_checkpoint : List (WalEntry J) → Option ℕ
  unfolding checkpoint_time
  last_checkpoint [] = none
  last_checkpoint (e ∷ es) = elim (last_checkpoint es) [
    | none ↦ checkpoint_time e
    | some timestamp ↦ some timestamp
  ]

  -- The entries with a later timestamp.
  unfoldable pub later_than : ℕ → List (WalEntry J) → List (WalEntry J)
  unfolding entry_timestamp
  later_than timestamp [] = []
  later_than timestamp (e ∷ es) =
      let rest = later_than timestamp es in
      if ltb timestamp (entry_timestamp e) then e ∷ rest else rest

  unfoldable pub entries_to_recover : List (WalEntry J) → List (WalEntry J)
  unfolding last_checkpoint later_than
  entries_to_recover es = elim (last_checkpoint es) [
    | none ↦ es
    | some timestamp ↦ later_than timestamp es
  ]

module _ {J : Type 0} (json_len : J → ℕ) where
  unfoldable pub apply_entry : Memtable J → WalEntry J → Memtable J
  unfolding Memtable.put Memtable.delete
  apply_entry t (put key value timestamp) = (Memtable.put json_len t key value).0
  apply_entry t (delete key timestamp) = Memtable.delete json_len t key
  apply_entry t (flush memtable_id timestamp) = t
  apply_entry t (checkpoint timestamp) = t

  unfoldable pub apply_entries : Memtable J → List (WalEntry J) → Memtable J
  unfolding apply_entry
  apply_entries t [] = t
  apply_entries t (e ∷ es) = apply_entries (apply_entry t e) es

  -- The memtable is not cleared: the entries go over what it holds.
  unfoldable pub recover_from_wal : Memtable J → List (WalEntry J) → Memtable J
  unfolding apply_entries entries_to_recover
  recover_from_wal t es = apply_entries t (entries_to_recover es)
