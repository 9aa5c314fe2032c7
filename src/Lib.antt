-- ===== src/Lib.antt =====
-- f4kvs-lsm: a verification library for the storage engine crate of f4kvs, a log-structured merge
-- tree over string keys.
--
-- A write goes to the active memtable (crates/f4kvs-lsm/src/storage/memtable.rs), a sorted map that
-- tracks its size. When it is full the engine (core/engine.rs) swaps it for an empty one, keeps the
-- old one in the list of immutable memtables and writes its entries, stamped with sequence numbers,
-- to a new SSTable of level 0 (storage/sstable.rs). A table has a packed index
-- (storage/flat_index.rs) and a bloom filter, and its blocks pass through a cache
-- (storage/block_cache.rs). A read asks the active memtable, the immutable ones, level 0 by
-- timestamps, and then one table of each deeper level. Compaction (compaction/manager.rs) merges
-- tables and keeps the newest entry of each key. Where the write-ahead log is on, an operation is
-- first appended to a segment of it (storage/wal.rs), and the engine replays what the segments hold
-- when it starts; the indexed log keeps its end in an index of two slots (storage/wal_index.rs).
--
-- Which file models which part (paths below crates/f4kvs-lsm/src/):
--   Base                the shared lists, words, bytes, UTF-8, keys as bytes with their order, the
--                       maps of the standard library as sorted lists, and its stable sort
--   Value               crates/f4kvs-value/src/value.rs, the values
--   Memtable            storage/memtable.rs: Memtable, its writes and single-key reads; Scan has the
--                       ordered reads and `exclusive_range_end` of utils/lsm_utils.rs
--   BlockCache          storage/block_cache.rs: BlockCache with its least-recently-used order
--   FlatIndex           storage/flat_index.rs: FlatIndex, its search and its byte form
--   Bloom               storage/sstable.rs, module bloom_filter: BloomFilter; Bytes its byte form
--   Sstable             storage/sstable.rs: the tests and lookups of SSTable; Scan its ordered reads
--   Engine              core/engine.rs: `get` and `exists`; Flush has `flush_memtable_internal`, Write
--                       has `put`, `delete` and `flush_memtable`, Scan has
--                       `merge_scan_prefix_with_values`, Sync has `try_get_sync`
--   Compaction          compaction/manager.rs: `merge_sstables_safe`, `deduplicate_entries`,
--                       `create_new_sstables` and `compact_level`, leveled strategy
--   Wal                 storage/wal.rs: WALEntry and its form in a file; Segment has WALSegment,
--                       Manager WALManager, Replay `recover_from_wal` of core/engine.rs, Index
--                       WalIndexHeader and WalIndexFile of storage/wal_index.rs, Indexed the
--                       IndexedWalSegment of storage/wal_indexed.rs, GroupCommit the queue of
--                       storage/wal.rs with the timing of storage/wal_group_commit.rs,
--                       Operations `write_operation`, `write_delete` and
--                       `batch_write_operations`, with group commit and without it
--   Tests               the definitions and theorems at concrete inputs
-- A function keeps its name; a loop of it, or the branches of one `match`, have a name of their own
-- where a proof speaks of them. The modules below a component are named for what they prove.
--
-- State is passed along: a record stands for the struct, with the fields that the modelled
-- operations read or write. A method that takes a lock runs to its end with no other task in
-- between, so that interleavings inside an operation are not modelled, except of the flushes of
-- group commit, whose two steps stand apart. An outer `Option` stands for
-- a panic (FlatIndex, range scans) or for an error (tables, the flush), as each file says.
-- Machine words wrap around at their width with `%`, and a subtraction that saturates is the one on
-- natural numbers.
--
-- Parameters: the hash of the bloom filter, the length that a JSON value prints with, the decoder
-- of legacy index files, the size estimate of an entry, the writing and opening of a table
-- (`build`, with the hypothesis that a table holds what it was built from, as Sstable/Lookup says
-- it), the number of file names that a flush finds taken, and what `compact_if_needed` makes of the
-- engine (`compact`, of which nothing is assumed). Outside a bulk import a write that fills the
-- memtable compacts after its flush, so that the theorems on `put` and `delete` are about the
-- writes that no compaction follows. Of `bincode` the log takes a pair of functions, with the
-- hypotheses that a header has one size and that a header or entry is read back as it was written;
-- of `crc32fast` a function into words of 32 bits. The engine theorems are about an engine whose
-- log is off; those of the log and its replay are about the log and a memtable.
--
-- A table is read past the block cache, by the tests that the awaited and the synchronous read make
-- on its marks, its metadata and the length of its file; what is decoded from the bytes at a place
-- of the file is a field of the table.
--
-- Loops are recursion on lists, except the eviction loop of the block cache, which takes one round
-- more than there are keys in the order, which `put_total` is about, and the reading loop of a
-- segment, which takes as many rounds as the file has bytes: each round that goes on takes at least
-- four off. `decode_frames` of the indexed log likewise takes the length of the file.
--
-- The directory of the log is a list of its files, each under the number in its name, the newest
-- first; a crash in the middle of a write leaves any beginning of the bytes that were on their way.
--
-- Not modelled: the task that waits for group commit, the frame log, the manager of the indexed
-- log, the bytes of entries and table files, the other strategies of compaction and the install of
-- its result, the incremental prefix scan, TTL, column families, metrics, configuration, and the
-- crate f4kvs-storage-core; operating system I/O, benchmarks and examples.
pub mod Base
pub mod Value
pub mod Memtable
pub mod BlockCache
pub mod FlatIndex
pub mod Bloom
pub mod Sstable
pub mod Engine
pub mod Compaction
pub mod Tests
pub mod Wal
