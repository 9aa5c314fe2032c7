-- ===== src/Tests/Memory.antt =====
-- The memtable and the block cache at concrete inputs.
use mathlib.Core.Option
use f4kvs_lsm.Base.{
  ℕ, ◌≤◌, ◌≡◌, ◌↔◌, refl, true, ◌&&◌, none, some, List, [], ◌∷◌, ◌++◌, Key, arith, key_lt, key_le,
  cmp, contains, max, if◌then◌else◌,
}
use f4kvs_lsm.Base.BTreeMap
use f4kvs_lsm.Base.BTreeMap.Total.{total}
use f4kvs_lsm.Base.Utf8.{as_bytes, from_u32}
use f4kvs_lsm.Memtable
use f4kvs_lsm.Memtable.Accounting.{IsAccounted, put-IsAccounted}
use f4kvs_lsm.Memtable.Scan.{scan_range, exclusive_range_end, pop_char}
use f4kvs_lsm.Memtable.Scan.Ranges.{contains-scan_range}
use f4kvs_lsm.BlockCache
use f4kvs_lsm.BlockCache.{BlockCache, contents_at}
use f4kvs_lsm.BlockCache.Tracking.{IsTracked, bytes_cached, new-IsTracked, add_block-IsTracked}
use f4kvs_lsm.BlockCache.Eviction.{put_total, put_bounded}
use f4kvs_lsm.Tests.{
  one_byte, key_a, key_b, new_value, memtable_a, memtable_a-IsAccounted, memtable_a-Fits, total,
}

put-IsAccounted_example : IsAccounted one_byte (Memtable.put one_byte memtable_a key_a new_value).0
put-IsAccounted_example =
    put-IsAccounted one_byte memtable_a key_a new_value memtable_a-IsAccounted memtable_a-Fits

contains-scan_range_example :
    ((scan_range memtable_a key_a key_a ≡ none) ↔ (key_lt (as_bytes key_b) (as_bytes key_a) ≡ true))
    × (Option.map (λ ks. contains ks key_a) (scan_range memtable_a key_a key_a) ≡ (
        if key_lt (as_bytes key_b) (as_bytes key_a)
        then none
        else some (
            key_le (as_bytes key_a) key_a
            && key_lt key_a (as_bytes key_b)
            && Memtable.exists memtable_a key_a)))
unfolding exclusive_range_end pop_char from_u32
contains-scan_range_example =
    contains-scan_range memtable_a key_a key_a key_b key_a memtable_a-IsAccounted.sorted refl

abbrev block : List ℕ
block = 1 ∷ 2 ∷ 3 ∷ []

-- A cache of at most five bytes, with one block of three.
abbrev cache_a : BlockCache
cache_a = BlockCache.add_block 0 (BlockCache.new 5) key_a block

cache_a-IsTracked : IsTracked cache_a
unfolding BlockCache.new
cache_a-IsTracked =
    add_block-IsTracked (BlockCache.new 5) (new-IsTracked 5) 0 key_a block (omega arith)

put_total_example :
    (d : BlockCache) × (dropped kept : List Key) × (BlockCache.put 1 cache_a key_b block ≡ some d)
    × IsTracked d
    × (cache_a.access_order ≡ dropped ++ kept)
    × (d.access_order ≡ kept ++ key_b ∷ [])
    × (contents_at d key_b ≡ some block)
unfolding BlockCache.new BlockCache.add_block
put_total_example = put_total 1 cache_a key_b block cache_a-IsTracked (omega arith)

abbrev cache_small : BlockCache
cache_small = BlockCache.add_block 0 (BlockCache.new 5) key_a (9 ∷ [])

cache_small-IsTracked : IsTracked cache_small
unfolding BlockCache.new
cache_small-IsTracked =
    add_block-IsTracked (BlockCache.new 5) (new-IsTracked 5) 0 key_a (9 ∷ []) (omega arith)

put_bounded_example :
    ((BlockCache.add_block 1 cache_small key_b block).current_size
      ≡ bytes_cached (BlockCache.add_block 1 cache_small key_b block).blocks)
    × ((BlockCache.add_block 1 cache_small key_b block).current_size ≤ max 5 3)
unfolding BlockCache.new BlockCache.add_block BTreeMap.insert BTreeMap.get cmp total BlockCache.put
    BlockCache.make_room
put_bounded_example =
    put_bounded 1 cache_small (BlockCache.add_block 1 cache_small key_b block) key_b block
      cache_small-IsTracked refl refl (omega arith) refl
