-- ===== src/Tests/Engines.antt =====
-- The engine at concrete inputs.
use f4kvs_lsm.Base.{
  zero, suc, ◌↔◌, ◌≤◌, ◌<◌, ◌==◌, cmp, starts_with, ℕ, ◌≡◌, refl, sym, subst, true, false, none,
  some, some-injective, List, [], ◌∷◌, arith, key_eq, if◌then◌else◌, inl,
}
use mathlib.Core.Option.{none-ne-some}
use mathlib.Core.List.{Memᴰ}
use mathlib.Core.List.Memᴰ.{head, tail}
use f4kvs_lsm.Base.BTreeMap
use f4kvs_lsm.Value.{is_null}
use f4kvs_lsm.Memtable
use f4kvs_lsm.Memtable.{MemtableConfig}
use f4kvs_lsm.Sstable.{
  LookupResult, key_may_exist, lookup_with_reader_guard, lookup_sync, in_range, is_located,
  result_of_read, try_read_entry, try_read_entry_sync, result_of,
}
use f4kvs_lsm.Sstable.Scan as SstableScan
use f4kvs_lsm.FlatIndex.Search.{lookup as index_lookup}
use f4kvs_lsm.Engine.Reads.{hit, search_l0-newest}
use f4kvs_lsm.Engine.Levels.Ranges.{find_sstable_for_key_iff}
use f4kvs_lsm.Engine.Levels.{search_sstables-deep}
use f4kvs_lsm.Engine.Flush.Stale.{stale_after_swap}
use f4kvs_lsm.Engine.Flush.{swap_out}
use f4kvs_lsm.Engine.Scan.{merge_scan_prefix_with_values}
use f4kvs_lsm.Engine.Scan.Layers.{scan_active, scan_prefers_deeper, two_levels}
use f4kvs_lsm.Engine.Sync.{
  try_get_sync, get_from_sstables_sync, search_sstables_sync, search_levels_sync, probe_level_sync,
  probe_all_sync,
}
use f4kvs_lsm.Engine.Sync.Agrees.{IsWhole, try_get_sync-get}
use f4kvs_lsm.Memtable.Accounting.{put-IsAccounted, delete-IsAccounted}
use f4kvs_lsm.Sstable.{Entry, SsTable}
use f4kvs_lsm.Sstable.Lookup.{Holds}
use f4kvs_lsm.Engine.{
  first_in, get_from_memtables, probe, probe_all, better, search_l0, search_sstables,
  find_sstable_for_key, first_reaching, value_of, Engine, get, exists,
}
use f4kvs_lsm.Engine.Flush.{flush_memtable_internal}
use f4kvs_lsm.Engine.Flush.Reads.{CanFlush, get-flush}
use f4kvs_lsm.Engine.Flush.Ends.{written}
use f4kvs_lsm.Engine.Write.{
  apply_put_key_count, decrement_live_keys, put, delete, put_in_memory, delete_in_memory,
}
use f4kvs_lsm.Engine.Write.Reads.{get-put, get-delete}
use f4kvs_lsm.Tests.{
  memtable_a-Fits, memtable_a-Fits_null, one_byte, test_hash, key_a, old_value, new_value,
  memtable_a, memtable_a-IsAccounted, table_of, table_of-Holds, engine_a, build_one, bare_memtable,
  no_tables,
}

-- What `build_one` builds holds what it was built from.
build_one-Holds :
    (es : List (Entry ℕ)) (t : SsTable ℕ) → build_one es ≡ some t → Holds test_hash t es
build_one-Holds [] t b = absurd (none-ne-some t b)
build_one-Holds (e ∷ []) t b =
    subst (λ u. Holds test_hash u (e ∷ [])) (some-injective _ _ b) (table_of-Holds e)
build_one-Holds (e ∷ x ∷ es) t b = absurd (none-ne-some t b)

engine_a-CanFlush : CanFlush test_hash one_byte build_one 0 engine_a key_a
unfolding Memtable.new Memtable.put first_in BTreeMap.insert
engine_a-CanFlush = record {
  accounted = memtable_a-IsAccounted;
  quiet = refl;
  some_level = omega arith;
  room = omega arith;
  older = λ t r m. elim m [ ];
  built = build_one-Holds (written 0 engine_a);
}

get-flush_example :
    get test_hash (flush_memtable_internal build_one 0 engine_a).0 key_a
    ≡ get test_hash engine_a key_a
get-flush_example = get-flush test_hash one_byte build_one 0 engine_a key_a engine_a-CanFlush

-- A compaction that loses every table: the writes below do not run it.
abbrev lossy : Engine ℕ → Engine ℕ
lossy e = record e { levels = no_tables }

-- The same engine in a bulk import.
abbrev bulk_a : Engine ℕ
bulk_a = record engine_a { bulk_import = true }

put_a-CanFlush :
    CanFlush test_hash one_byte build_one 0
      (put_in_memory test_hash one_byte bulk_a key_a new_value)
      key_a
unfolding Memtable.new Memtable.put first_in BTreeMap.insert BTreeMap.get cmp put_in_memory
    apply_put_key_count Memtable.effect_of is_null
put_a-CanFlush = record {
  accounted =
      put-IsAccounted one_byte memtable_a key_a new_value memtable_a-IsAccounted memtable_a-Fits;
  quiet = refl;
  some_level = omega arith;
  room = omega arith;
  older = λ t r m. elim m [ ];
  built = build_one-Holds (written 0 (put_in_memory test_hash one_byte bulk_a key_a new_value));
}

get-put_example :
    get test_hash (put test_hash one_byte build_one 0 lossy bulk_a key_a new_value).0 key_a ≡ (
      if key_eq key_a key_a
      then (if is_null new_value then none else some new_value)
      else get test_hash bulk_a key_a)
get-put_example =
    get-put test_hash one_byte build_one 0 lossy bulk_a key_a key_a new_value (inl refl)
      put_a-CanFlush

delete_a-CanFlush :
    CanFlush test_hash one_byte build_one 0 (delete_in_memory test_hash one_byte bulk_a key_a) key_a
unfolding Memtable.new Memtable.put Memtable.delete first_in BTreeMap.insert BTreeMap.get cmp
    delete_in_memory exists get_from_memtables Memtable.lookup Memtable.result_of is_null
    decrement_live_keys
delete_a-CanFlush = record {
  accounted =
      delete-IsAccounted one_byte memtable_a key_a memtable_a-IsAccounted memtable_a-Fits_null;
  quiet = refl;
  some_level = omega arith;
  room = omega arith;
  older = λ t r m. elim m [ ];
  built = build_one-Holds (written 0 (delete_in_memory test_hash one_byte bulk_a key_a));
}

get-delete_example :
    get test_hash (delete test_hash one_byte build_one 0 lossy bulk_a key_a).0 key_a
    ≡ (if key_eq key_a key_a then none else get test_hash bulk_a key_a)
get-delete_example =
    get-delete test_hash one_byte build_one 0 lossy bulk_a key_a key_a (inl refl) delete_a-CanFlush

-- Two versions of one key in the tables.
abbrev entry_old : Entry ℕ
entry_old = record { key = key_a; value = old_value; timestamp = 3; deleted = false }

abbrev entry_new : Entry ℕ
entry_new = record { key = key_a; value = new_value; timestamp = 7; deleted = false }

abbrev table_old : SsTable ℕ
table_old = table_of entry_old

abbrev table_new : SsTable ℕ
table_new = table_of entry_new

hit_old : hit test_hash table_old key_a ≡ some (LookupResult.found old_value 3)
unfolding hit key_may_exist lookup_with_reader_guard in_range is_located result_of_read
    try_read_entry result_of index_lookup cmp
hit_old = refl

hit_new : hit test_hash table_new key_a ≡ some (LookupResult.found new_value 7)
unfolding hit key_may_exist lookup_with_reader_guard in_range is_located result_of_read
    try_read_entry result_of index_lookup cmp
hit_new = refl

search_l0_both :
    search_l0 test_hash (table_new ∷ table_old ∷ []) key_a ≡ some (LookupResult.found new_value 7)
unfolding search_l0 probe_all probe better key_may_exist lookup_with_reader_guard in_range
    is_located result_of_read try_read_entry result_of index_lookup cmp
search_l0_both = refl

search_l0-newest_example :
    ((u : SsTable ℕ) × Memᴰ u (table_new ∷ table_old ∷ [])
      × (hit test_hash u key_a ≡ some (LookupResult.found new_value 7)))
    × (3 ≤ 7)
search_l0-newest_example =
    search_l0-newest test_hash (table_new ∷ table_old ∷ []) key_a (LookupResult.found new_value 7)
      table_old (LookupResult.found old_value 3) search_l0_both (tail (head refl)) hit_old

find_sstable_for_key_iff_example :
    (find_sstable_for_key (table_old ∷ []) key_a ≡ some table_old)
    ↔ (Memᴰ table_old (table_old ∷ []) × (in_range table_old key_a ≡ true))
find_sstable_for_key_iff_example =
    find_sstable_for_key_iff (table_old ∷ []) key_a table_old (tt, tt)

abbrev only_level_1 : ℕ → List (SsTable ℕ)
only_level_1 level = if level == 1 then table_old ∷ [] else []

no_hit_above :
    (j : ℕ) → j < 1 → (t : SsTable ℕ) → Memᴰ t (only_level_1 j) → hit test_hash t key_a ≡ none
no_hit_above zero lt t m = elim m [ ]
no_hit_above (suc j) lt t m = absurd (omega arith)

abbrev config : MemtableConfig
config = record { max_size = 20 }

search_sstables-deep_example :
    search_sstables test_hash only_level_1 3 key_a ≡ some (LookupResult.found old_value 3)
search_sstables-deep_example =
    search_sstables-deep test_hash only_level_1 3 1 key_a table_old (LookupResult.found old_value 3)
      (omega arith) (omega arith) no_hit_above (tt, tt) (head refl) hit_old

-- An engine whose first flush failed, and that has a newer value in memory since.
abbrev engine_two : Engine ℕ
engine_two = record engine_a {
  active = (Memtable.put one_byte bare_memtable key_a new_value).0;
  immutables = memtable_a ∷ [];
}

stale_after_swap_example :
    (get test_hash engine_two key_a ≡ some new_value)
    × (get test_hash (swap_out engine_two) key_a ≡ some old_value)
unfolding first_in Memtable.lookup Memtable.result_of BTreeMap.get BTreeMap.insert cmp is_null
    Memtable.put Memtable.new
stale_after_swap_example = stale_after_swap test_hash engine_two key_a old_value new_value refl refl

scan_active_example :
    BTreeMap.get (merge_scan_prefix_with_values engine_a key_a) key_a ≡ get test_hash engine_a key_a
unfolding Memtable.put Memtable.new BTreeMap.get BTreeMap.insert cmp starts_with
scan_active_example =
    scan_active test_hash engine_a key_a key_a old_value memtable_a-IsAccounted.sorted refl refl

scan_prefers_deeper_example :
    (get test_hash (two_levels config table_new table_old) key_a ≡ some new_value)
    × (BTreeMap.get
          (merge_scan_prefix_with_values (two_levels config table_new table_old) key_a)
          key_a
        ≡ some old_value)
unfolding SstableScan.scan_prefix_layer SstableScan.index_from SstableScan.while_prefix
    SstableScan.read_layer try_read_entry cmp starts_with
scan_prefers_deeper_example =
    scan_prefers_deeper test_hash config table_new table_old key_a key_a new_value old_value 7
      hit_new refl

abbrev level_1 : ℕ → List (SsTable ℕ)
level_1 zero = []
level_1 (suc zero) = table_old ∷ []
level_1 (suc (suc level)) = []

-- An engine with nothing in memory and one table on level 1.
abbrev one_table : Engine ℕ
one_table = record engine_a { active = Memtable.new config; levels = level_1 }

table_old-IsWhole : IsWhole table_old
table_old-IsWhole = record { unmarked = refl; in_file = omega arith; whole = omega arith }

level_1-IsWhole : (k : ℕ) (t : SsTable ℕ) → Memᴰ t (level_1 k) → IsWhole t
level_1-IsWhole zero t m = elim m [ ]
level_1-IsWhole (suc zero) t m = elim m [
  | head p ↦ subst IsWhole (sym p) table_old-IsWhole
  | tail q ↦ elim q [ ]
]
level_1-IsWhole (suc (suc k)) t m = elim m [ ]

try_get_sync-get_example : get test_hash one_table key_a ≡ some old_value
unfolding try_get_sync get_from_memtables first_in Memtable.new Memtable.lookup Memtable.result_of
    BTreeMap.get get_from_sstables_sync search_sstables_sync search_levels_sync probe_level_sync
    probe_all_sync find_sstable_for_key first_reaching lookup_sync key_may_exist in_range is_located
    result_of_read try_read_entry_sync result_of value_of index_lookup cmp
try_get_sync-get_example =
    try_get_sync-get test_hash one_table key_a (some old_value) level_1-IsWhole refl
