-- ===== src/Engine/Flush.antt =====
-- crates/f4kvs-lsm/src/core/engine.rs: `flush_memtable_internal` and the table that it writes.
-- `build` stands for `SSTable::new`, `write_entries` and `open`: the table of the entries, or
-- `none` where one of them fails. `clashes` is the number of paths in a row that exist already.
-- Persisting the sequence number, statistics and logging are left out. No other task runs between
-- the steps, so the memtable at the remembered index is the one that was pushed.
pub mod Entries
pub mod Tables
pub mod Ends
pub mod Reads
pub mod Stale
use f4kvs_lsm.Base.{
  ℕ, zero, suc, ◌+◌, ◌%◌, Bool, true, false, not, ◌&&◌, ◌||◌, Option, none, some, List, [], ◌∷◌,
  ◌++◌, Key, key_lt, length, if◌then◌else◌, ltb, ◌==◌,
}
use f4kvs_lsm.Base.Words.{u64_mod}
use f4kvs_lsm.Base.Sort.{sort_by}
use f4kvs_lsm.Value.{Value}
use f4kvs_lsm.Memtable
use f4kvs_lsm.Memtable.{Memtable}
use f4kvs_lsm.Memtable.Scan.{LayerEntry, get_all_entries}
use f4kvs_lsm.Sstable.{Entry, SsTable}
use f4kvs_lsm.Engine.{Engine}

module _ {ℓ} {A : Type ℓ} where
  -- `Vec::remove`, which the source calls with an index in bounds
  unfoldable pub remove_at : List A → ℕ → List A
  remove_at [] i = []
  remove_at (x ∷ xs) zero = xs
  remove_at (x ∷ xs) (suc i) = x ∷ remove_at xs i

module _ {J : Type 0} where
  -- The entries take the sequence numbers from `seq` on, with `fetch_add`, which wraps around.
  unfoldable pub stamp_entries : ℕ → List (LayerEntry J) → List (Entry J)
  stamp_entries seq [] = []
  stamp_entries seq ((key, value, deleted) ∷ es) =
      record { key = key; value = value; timestamp = seq; deleted = deleted }
      ∷ stamp_entries ((seq + 1) % u64_mod) es

  -- `entries.sort_by(|a, b| a.0.cmp(&b.0))`
  abbrev pub key_before : LayerEntry J → LayerEntry J → Bool
  key_before a b = key_lt a.0 b.0

  -- The tests on the table that was built.
  unfoldable pub is_consistent : SsTable J → Bool
  is_consistent t =
      t.is_ready
      && not (t.metadata.file_size == 0)
      && not (t.metadata.entry_count == 0)
      && not (length t.index == 0)

  unfoldable pub push_l0 : Engine J → SsTable J → Engine J
  push_l0 e t = record e {
    levels = λ level. if level == 0 then e.levels 0 ++ t ∷ [] else e.levels level;
  }

  -- The number that the path of the table takes is one below the first timestamp.
  unfoldable pub first_timestamp : ℕ → Engine J → ℕ
  first_timestamp clashes e = (e.sequence_number + clashes + 1) % u64_mod

  -- The active memtable moves to the end of the immutable ones.
  unfoldable pub swap_out : Engine J → Engine J
  unfolding Memtable.new
  swap_out e = record e {
    active = Memtable.new e.active.config;
    immutables = e.immutables ++ e.active ∷ [];
  }

  unfoldable pub drop_flushed : ℕ → Engine J × Bool → Engine J × Bool
  unfolding remove_at
  drop_flushed index (e, false) = (e, false)
  drop_flushed index (e, true) = (record e { immutables = remove_at e.immutables index }, true)

module _ {J : Type 0} (build : List (Entry J) → Option (SsTable J)) (clashes : ℕ) where
  -- From the sorted entries on. `false` is an error; the sequence number keeps what it was
  -- advanced by.
  unfoldable pub write_sorted : Engine J → List (LayerEntry J) → Engine J × Bool
  unfolding stamp_entries is_consistent push_l0 first_timestamp
  write_sorted e entries =
      let start = first_timestamp clashes e in
      let advanced : Engine J = record e { sequence_number = (start + length entries) % u64_mod } in
      elim (build (stamp_entries start entries)) [
        | none ↦ (advanced, false)
        | some t ↦ if is_consistent t then (push_l0 advanced t, true) else (advanced, false)
      ]

  unfoldable pub flush_memtable_entries_to_sstable :
      Engine J → List (LayerEntry J) → Engine J × Bool
  unfolding write_sorted sort_by
  flush_memtable_entries_to_sstable e [] = (e, true)
  flush_memtable_entries_to_sstable e (x ∷ xs) = write_sorted e (sort_by key_before (x ∷ xs))

  unfoldable pub flush_memtable_internal : Engine J → Engine J × Bool
  unfolding swap_out flush_memtable_entries_to_sstable drop_flushed get_all_entries Memtable.new
  flush_memtable_internal e =
      if ltb 0 e.active.entry_count
      then drop_flushed (length e.immutables)
          (flush_memtable_entries_to_sstable (swap_out e) (get_all_entries e.active))
      else (record e { active = Memtable.new e.active.config }, true)
