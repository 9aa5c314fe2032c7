-- ===== src/Sstable/Lookup.antt =====
-- crates/f4kvs-lsm/src/storage/sstable.rs: a lookup in a table returns what was written.
use f4kvs_lsm.Base.{
  ℕ, ◌≡◌, true, Option, none, some, List, [], ◌∷◌, Key, key_eq, if◌then◌else◌, arith, Option-cases,
  inl, inr, ◌+◌, ◌≤◌, ◌<◌, false, key_lt, Bool-cases,
}
use f4kvs_lsm.Bloom.{might_contain}
use f4kvs_lsm.FlatIndex.Search.{lookup as index_lookup}
use f4kvs_lsm.Sstable.{
  Entry, LookupResult, SsTable, missing, result_of, in_range, is_located, key_may_exist,
  lookup_sync, lookup_with_reader_guard, found, tombstone, result_of_read, try_read_entry,
  try_read_entry_sync,
}

module _ {J : Type 0} where
  -- The entry of a key in a list of entries.
  unfoldable pub find : List (Entry J) → Key → Option (Entry J)
  find [] q = none
  find (e ∷ es) q = if key_eq e.key q then some e else find es q

  -- A deleted entry is a tombstone, another one is found with its value.
  abbrev pub stored : Entry J → LookupResult J
  stored e = if e.deleted then tombstone e.timestamp else found e.value e.timestamp

  abbrev pub result_or_missing : Option (Entry J) → LookupResult J
  result_or_missing none = missing
  result_or_missing (some e) = stored e

  -- The bloom filter, where there is one, answers yes for the key.
  abbrev pub BloomAdmits : (Key → ℕ → ℕ) → SsTable J → Key → Type 0
  BloomAdmits hash t q = elim t.bloom_filter [
    | none ↦ Unit {0}
    | some f ↦ might_contain hash f q ≡ true
  ]

  -- The place of an entry: its header is in the data of the file, before the index, and its
  -- location, which is a length unless the blocks are compressed, is at most 100 MiB.
  pub record IsPlaced (t : SsTable J) (offset size : ℕ) : Type 0 where
    pub before_index : offset < t.metadata.index_offset
    pub in_file : offset + 8 ≤ t.metadata.file_size
    pub bounded : size ≤ 104857600
    pub framed : t.block_compressed ≡ false → 0 < size

  -- The table is ready and not marked for deletion, its file is at least as long as its metadata
  -- say, its smallest and its largest key enclose the keys of the entries, its filter admits them,
  -- and its index knows them and no others, with the place in the file where the entry is read.
  pub record Holds (hash : Key → ℕ → ℕ) (t : SsTable J) (es : List (Entry J)) : Type 0 where
    pub ready : t.is_ready ≡ true
    pub unmarked : t.marked_for_deletion ≡ false
    pub whole : t.metadata.file_size ≤ t.disk_size
    pub ranged :
        (q : Key) (e : Entry J)
        → find es q ≡ some e
        → (key_lt q t.metadata.smallest_key ≡ false) × (key_lt t.metadata.largest_key q ≡ false)
    pub admitted : (q : Key) (e : Entry J) → find es q ≡ some e → BloomAdmits hash t q
    pub absent : (q : Key) → find es q ≡ none → index_lookup t.index q ≡ none
    pub indexed :
        (q : Key) (e : Entry J)
        → find es q ≡ some e
        → (offset size : ℕ) × (index_lookup t.index q ≡ some (offset, size))
          × IsPlaced t offset size
          × (t.read_entry offset size ≡ some e)

  is_located-IsPlaced :
      (t : SsTable J) (offset size : ℕ) → IsPlaced t offset size → is_located t offset size ≡ true
  unfolding is_located
  is_located-IsPlaced t offset size p = elim (Bool-cases t.block_compressed) [
    | inl blocks ↦ ground (arith, blocks, p.before_index, p.bounded)
    | inr frames ↦ ground (arith, frames, p.before_index, p.bounded, p.framed frames)
  ]

  module _ (hash : Key → ℕ → ℕ) (t : SsTable J) (es : List (Entry J)) (h : Holds hash t es) where
    may_exist : (q : Key) (e : Entry J) → find es q ≡ some e → key_may_exist hash t q ≡ true
    unfolding key_may_exist in_range
    may_exist q e f =
        let (low, high) = h.ranged q e f in ground (arith, h.ready, low, high, h.admitted q e f)

    lookup_hit :
        (q : Key) (e : Entry J) → find es q ≡ some e → lookup_sync hash t q ≡ some (stored e)
    unfolding lookup_sync try_read_entry_sync result_of_read result_of
    lookup_hit q e f =
        let (offset, size, at, place, read) = h.indexed q e f in
        let located = is_located-IsPlaced t offset size place in
        ground (arith, h.ready, may_exist q e f, located, at, place.in_file, read)

    lookup_miss : (q : Key) → find es q ≡ none → lookup_sync hash t q ≡ some missing
    unfolding lookup_sync
    lookup_miss q f = ground (arith, h.ready, h.absent q f)

    awaited_hit :
        (q : Key) (e : Entry J)
        → find es q ≡ some e
        → lookup_with_reader_guard hash t q ≡ some (stored e)
    unfolding lookup_with_reader_guard try_read_entry result_of_read result_of
    awaited_hit q e f =
        let (offset, size, at, place, read) = h.indexed q e f in
        let located = is_located-IsPlaced t offset size place in
        let inside = place.in_file in
        let before = place.before_index in
        ground
          (arith, h.ready, h.unmarked, h.whole, may_exist q e f, located, at, inside, before, read)

    awaited_miss : (q : Key) → find es q ≡ none → lookup_with_reader_guard hash t q ≡ some missing
    unfolding lookup_with_reader_guard
    awaited_miss q f = ground (arith, h.ready, h.absent q f)

    -- Where a table holds a list of entries, the synchronous lookup finds the entry of the key
    -- among them, deleted or live, and misses the keys that have none.
    pub lookup_sync-Holds : (q : Key) → lookup_sync hash t q ≡ some (result_or_missing (find es q))
    lookup_sync-Holds q = elim (Option-cases (find es q)) [
      | inl none_here ↦ rw (none_here, result_or_missing) (lookup_miss q none_here)
      | inr (e, here) ↦ rw (here, result_or_missing) (lookup_hit q e here)
    ]

    -- Where a table is ready and not marked for deletion, and its range, its filter, its index and
    -- its file hold a list of entries, the read that the engine awaits answers for a key with the
    -- value and the timestamp of its entry among them, for a deleted entry with a tombstone of its
    -- timestamp, and misses the keys that have no entry.
    pub lookup_with_reader_guard-Holds :
        (q : Key) → lookup_with_reader_guard hash t q ≡ some (result_or_missing (find es q))
    lookup_with_reader_guard-Holds q = elim (Option-cases (find es q)) [
      | inl none_here ↦ rw (none_here, result_or_missing) (awaited_miss q none_here)
      | inr (e, here) ↦ rw (here, result_or_missing) (awaited_hit q e here)
    ]
