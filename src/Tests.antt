-- ===== src/Tests.antt =====
-- Concrete keys, tables and engines, on which the child modules run the definitions.
pub mod Memory
pub mod Files
pub mod Engines
pub mod Merges
pub mod Logs
pub mod Indexes
pub mod IndexedLogs
pub mod GroupCommits
use f4kvs_lsm.Base.{
  ℕ, zero, suc, ◌+◌, ◌≡◌, refl, Bool, true, false, Option, none, some, List, [], ◌∷◌, Key, length,
  arith, key_eq, eq_of_cmp, cmp_refl,
}
use f4kvs_lsm.Base.BTreeMap
use f4kvs_lsm.Base.BTreeMap.Total.{total}
use f4kvs_lsm.Value.{Value, estimate_value_size}
use f4kvs_lsm.Memtable
use f4kvs_lsm.Memtable.{Memtable}
use f4kvs_lsm.Memtable.Accounting.{Fits, IsAccounted, put-IsAccounted}
use f4kvs_lsm.Sstable.{Entry, SsTable, in_range, is_located}
use f4kvs_lsm.Sstable.Lookup.{find, Holds, IsPlaced}
use f4kvs_lsm.FlatIndex.Search.{lookup as index_lookup}
use f4kvs_lsm.Engine.{Engine}

-- JSON values are numbers here, of one byte each.
abbrev pub one_byte : ℕ → ℕ
one_byte _ = 1

abbrev pub test_hash : Key → ℕ → ℕ
test_hash k i = length k + i

abbrev pub key_a : Key
key_a = 97 ∷ []

abbrev pub key_b : Key
key_b = 98 ∷ []

abbrev pub old_value : Value ℕ
old_value = Value.uint64 1

abbrev pub new_value : Value ℕ
new_value = Value.uint64 2

abbrev pub bare_memtable : Memtable ℕ
bare_memtable = Memtable.new (record { max_size = 20 })

-- One entry of nine bytes.
abbrev pub memtable_a : Memtable ℕ
memtable_a = (Memtable.put one_byte bare_memtable key_a old_value).0

pub bare_memtable-IsAccounted : IsAccounted one_byte bare_memtable
unfolding Memtable.new total
bare_memtable-IsAccounted = record { sorted = tt; covered = omega arith; counted = refl }

pub memtable_a-IsAccounted : IsAccounted one_byte memtable_a
unfolding Memtable.new estimate_value_size
memtable_a-IsAccounted =
    put-IsAccounted one_byte bare_memtable key_a old_value bare_memtable-IsAccounted
      (omega arith, omega arith)

-- A table of one entry, which its file holds at offset 0.
abbrev pub table_of : Entry ℕ → SsTable ℕ
table_of e = record {
  path = [];
  metadata = record {
    entry_count = 1;
    file_size = 50;
    smallest_key = e.key;
    largest_key = e.key;
    created_at = 0;
    index_offset = 40;
  };
  index = record { key = e.key; file_off = 0; size = 40 } ∷ [];
  bloom_filter = none;
  is_ready = true;
  marked_for_deletion = false;
  block_compressed = false;
  disk_size = 60;
  read_entry = λ offset size. some e;
}

table_of-IsPlaced : (e : Entry ℕ) → IsPlaced (table_of e) 0 40
table_of-IsPlaced e = record {
  before_index = omega arith;
  in_file = omega arith;
  bounded = omega arith;
  framed = λ frames. omega arith;
}

pub table_of-Holds : (e : Entry ℕ) → Holds test_hash (table_of e) (e ∷ [])
unfolding find index_lookup
table_of-Holds e = record {
  ready = refl;
  unmarked = refl;
  whole = omega arith;
  ranged = λ q x f. (
    ground (arith, f, eq_of_cmp e.key q, cmp_refl q),
    ground (arith, f, eq_of_cmp e.key q, cmp_refl q),
  );
  admitted = λ q x f. tt;
  absent = λ q f. ground (arith, f);
  indexed = λ q x f. (0, 40, ground (arith, f), table_of-IsPlaced e, ground (arith, f));
}

abbrev pub no_tables : ℕ → List (SsTable ℕ)
no_tables level = []

-- An engine with one entry in memory and no table.
abbrev pub engine_a : Engine ℕ
engine_a = record {
  active = memtable_a;
  immutables = [];
  levels = no_tables;
  level_count = 2;
  sequence_number = 5;
  live_key_count = 1;
  bulk_import = false;
}

-- Builds tables of one entry only.
abbrev pub build_one : List (Entry ℕ) → Option (SsTable ℕ)
build_one [] = none
build_one (e ∷ []) = some (table_of e)
build_one (e ∷ x ∷ es) = none

pub memtable_a-Fits : Fits one_byte memtable_a key_a new_value
unfolding Memtable.new Memtable.put BTreeMap.insert BTreeMap.get estimate_value_size
    Memtable.size_without Memtable.count_with Memtable.entry_size
memtable_a-Fits = (omega arith, omega arith)

pub memtable_a-Fits_null : Fits one_byte memtable_a key_a Value.null
unfolding Memtable.new Memtable.put BTreeMap.insert BTreeMap.get estimate_value_size
    Memtable.size_without Memtable.count_with Memtable.entry_size
memtable_a-Fits_null = (omega arith, omega arith)
