-- ===== src/Sstable.antt =====
-- crates/f4kvs-lsm/src/storage/sstable.rs: the read side of an SSTable. `index` holds the pairs of
-- the file's FlatIndex (FlatIndex/Search relates its binary search to `lookup`). Of the file there
-- are `disk_size`, its length on the disk, and `read_entry`: what is decoded from the bytes at an
-- offset and a location, `none` where that fails. Of the flags that several clones share, this is
-- one handle's view. The reads are those that the block cache does not answer.
pub mod Lookup
pub mod Scan
use f4kvs_lsm.Base.{
  ℕ, zero, suc, ◌+◌, Bool, true, false, not, ◌&&◌, ◌||◌, Option, none, some, List, [], ◌∷◌, Key,
  key_eq, key_lt, key_le, if◌then◌else◌, leb, ltb, ◌==◌, length, max,
}
use f4kvs_lsm.Bloom.{BloomFilter, might_contain}
use f4kvs_lsm.FlatIndex.{Pair}
use f4kvs_lsm.FlatIndex.Search.{lookup as index_lookup}
use f4kvs_lsm.Value.{Value}

pub record Entry (J : Type 0) : Type 0 where
  pub key : Key
  pub value : Value J
  pub timestamp : ℕ
  pub deleted : Bool

pub data LookupResult (J : Type 0) : Type 0 where
  found : Value J → ℕ → LookupResult J
  tombstone : ℕ → LookupResult J
  missing : LookupResult J

pub record Metadata : Type 0 where
  pub entry_count : ℕ
  pub file_size : ℕ
  pub smallest_key : Key
  pub largest_key : Key
  pub created_at : ℕ
  pub index_offset : ℕ

pub record SsTable (J : Type 0) : Type 0 where
  pub path : Key
  pub metadata : Metadata
  pub index : List Pair
  pub bloom_filter : Option BloomFilter
  pub is_ready : Bool
  pub marked_for_deletion : Bool
  pub block_compressed : Bool
  pub disk_size : ℕ
  pub read_entry : ℕ → ℕ → Option (Entry J)

-- 100 * 1024 * 1024
abbrev pub max_location : ℕ
max_location = 104857600

module _ {J : Type 0} where
  -- the tests of `lookup_sync` on the location of an entry
  unfoldable pub is_located : SsTable J → ℕ → ℕ → Bool
  is_located t offset size =
      if t.metadata.index_offset == 0 || leb t.metadata.index_offset offset
      then false
      else if t.block_compressed
      then leb size max_location
      else ltb 0 size && leb size max_location

  -- the `match` on the entry that was read
  unfoldable pub result_of : Entry J → LookupResult J
  result_of e = if e.deleted then tombstone e.timestamp else found e.value e.timestamp

  unfoldable pub result_of_read : Option (Entry J) → Option (LookupResult J)
  unfolding result_of
  result_of_read none = none
  result_of_read (some e) = some (result_of e)

  unfoldable pub try_read_entry_sync : SsTable J → ℕ → ℕ → Option (Entry J)
  try_read_entry_sync t offset loc =
      if t.block_compressed
      then t.read_entry offset loc
      else if ltb (max t.metadata.file_size t.disk_size) (offset + 8)
      then none
      else t.read_entry offset loc

  -- The awaited read. In contrast to the other it fails on a table that is marked for deletion,
  -- and on a file that is shorter than the metadata say.
  unfoldable pub try_read_entry : SsTable J → ℕ → ℕ → Option (Entry J)
  try_read_entry t offset loc =
      if t.block_compressed
      then t.read_entry offset loc
      else if not t.is_ready || t.marked_for_deletion
      then none
      else if ltb t.disk_size t.metadata.file_size
      then none
      else if ltb 0 t.metadata.index_offset && leb t.metadata.index_offset offset
      then none
      else if leb t.disk_size offset || ltb t.disk_size (offset + 8)
      then none
      else t.read_entry offset loc

  unfoldable pub in_range : SsTable J → Key → Bool
  in_range t key = not (key_lt key t.metadata.smallest_key || key_lt t.metadata.largest_key key)

module _ {J : Type 0} (hash : Key → ℕ → ℕ) where
  unfoldable pub key_may_exist : SsTable J → Key → Bool
  unfolding in_range
  key_may_exist t key =
      if t.is_ready
      then (if in_range t key
          then elim t.bloom_filter [ none ↦ true | some f ↦ might_contain hash f key ]
          else false)
      else false

  -- `none` is the error of a table that is not ready, or that cannot be read.
  unfoldable pub lookup_sync : SsTable J → Key → Option (LookupResult J)
  unfolding key_may_exist is_located result_of_read try_read_entry_sync
  lookup_sync t key =
      if t.is_ready
      then (if key_may_exist t key
          then elim (index_lookup t.index key) [
            | none ↦ some missing
            | some (offset, size) ↦
                if is_located t offset size
                then result_of_read (try_read_entry_sync t offset size)
                else some missing
          ]
          else some missing)
      else none

  -- The read that the engine awaits. Here each location that cannot be right is an error. The
  -- entry is read once: a retry is of use only where the file changes in between.
  unfoldable pub lookup_with_reader_guard : SsTable J → Key → Option (LookupResult J)
  unfolding key_may_exist is_located result_of_read try_read_entry
  lookup_with_reader_guard t key =
      if t.is_ready
      then (if key_may_exist t key
          then elim (index_lookup t.index key) [
            | none ↦ some missing
            | some (offset, size) ↦
                if is_located t offset size && leb offset t.metadata.file_size
                then result_of_read (try_read_entry t offset size)
                else none
          ]
          else some missing)
      else none
