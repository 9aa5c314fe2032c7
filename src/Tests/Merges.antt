-- ===== src/Tests/Merges.antt =====
-- The merge of tables at concrete inputs.
use f4kvs_lsm.Base.{ℕ, ◌≡◌, refl, true, false, none, some, List, [], ◌∷◌, arith, cmp}
use f4kvs_lsm.Base.Sort.{sort_by, insert_by}
use f4kvs_lsm.Memtable.{MemtableConfig}
use f4kvs_lsm.Sstable.{
  Entry, SsTable, LookupResult, key_may_exist, lookup_with_reader_guard, in_range, is_located,
  result_of_read, try_read_entry, result_of,
}
use f4kvs_lsm.Sstable.Lookup.{find}
use f4kvs_lsm.FlatIndex.Search.{lookup as index_lookup}
use f4kvs_lsm.Engine.{get}
use f4kvs_lsm.Engine.Reads.{hit}
use f4kvs_lsm.Engine.Scan.Layers.{one_level, two_levels}
use f4kvs_lsm.Compaction.{
  collect_entries, merge_sstables_safe, deduplicate_entries, create_new_sstables, compact_level,
  before, first_versions,
}
use f4kvs_lsm.Compaction.Newest.{newest, live}
use f4kvs_lsm.Compaction.Chunks.{flatten}
use f4kvs_lsm.Compaction.Outputs.{find-merged}
use f4kvs_lsm.Compaction.Tombstones.{compact_level-resurrects}
use f4kvs_lsm.Tests.{test_hash, key_a, old_value, table_of, build_one}

abbrev written_a : Entry ℕ
written_a = record { key = key_a; value = old_value; timestamp = 3; deleted = false }

abbrev deleted_a : Entry ℕ
deleted_a = record { key = key_a; value = old_value; timestamp = 7; deleted = true }

abbrev read_one : SsTable ℕ → List (Entry ℕ)
read_one t = elim (t.read_entry 0 40) [ none ↦ [] | some e ↦ e ∷ [] ]

abbrev five_bytes : Entry ℕ → ℕ
five_bytes e = 5

abbrev small_config : MemtableConfig
small_config = record { max_size = 20 }

hit_deleted : hit test_hash (table_of deleted_a) key_a ≡ some (LookupResult.tombstone 7)
unfolding hit key_may_exist lookup_with_reader_guard in_range is_located result_of_read
    try_read_entry result_of index_lookup cmp
hit_deleted = refl

hit_written : hit test_hash (table_of written_a) key_a ≡ some (LookupResult.found old_value 3)
unfolding hit key_may_exist lookup_with_reader_guard in_range is_located result_of_read
    try_read_entry result_of index_lookup cmp
hit_written = refl

find-merged_example :
    find
      (flatten
        (create_new_sstables five_bytes 9 (deduplicate_entries (deleted_a ∷ written_a ∷ []))))
      key_a
    ≡ live (newest (written_a ∷ deleted_a ∷ []) key_a)
unfolding collect_entries merge_sstables_safe deduplicate_entries before first_versions sort_by
    insert_by cmp
find-merged_example =
    find-merged read_one five_bytes 9 (table_of written_a ∷ table_of deleted_a ∷ [])
      (written_a ∷ deleted_a ∷ []) (deleted_a ∷ written_a ∷ []) key_a refl refl (omega arith)

compact_level-resurrects_example :
    (get test_hash (two_levels small_config (table_of deleted_a) (table_of written_a)) key_a ≡ none)
    × (compact_level read_one five_bytes 9 build_one (table_of deleted_a ∷ []) ≡ some [])
    × (get test_hash (one_level small_config (table_of written_a)) key_a ≡ some old_value)
compact_level-resurrects_example =
    compact_level-resurrects test_hash read_one five_bytes 9 build_one small_config
      (table_of deleted_a) (table_of written_a) deleted_a key_a old_value 7 3 refl refl refl
      hit_deleted hit_written
