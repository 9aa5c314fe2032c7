-- ===== src/BlockCache/Reads.antt =====
-- crates/f4kvs-lsm/src/storage/block_cache.rs: what reads return and leave as it was, and what a
-- second put of one key does to the byte counter.
use f4kvs_lsm.Base.{
  ℕ, ◌+◌, ◌<◌, ◌≡◌, refl, false, some, List, Key, length, arith, eq_of_cmp, Option-cases, inl, inr,
  key_eq_refl,
}
use f4kvs_lsm.Base.BTreeMap
use f4kvs_lsm.Base.BTreeMap.{get-insert}
use f4kvs_lsm.Base.BTreeMap.Total.{total-insert_old}
use f4kvs_lsm.Base.Words.{u64_mod}
use f4kvs_lsm.BlockCache
use f4kvs_lsm.BlockCache.{BlockCache, CachedBlock, touched, contents_at, over, make_room, add_block}
use f4kvs_lsm.BlockCache.Tracking.{IsTracked, bytes_cached, block_bytes, fresh}

module _ (now : ℕ) (c : BlockCache) (key : Key) where
  -- `get` returns the contents that the cache holds for its key, and leaves the contents of every
  -- key and the byte counter as they were.
  pub get_contents :
      (q : Key)
      → ((BlockCache.get now c key).1 ≡ contents_at c key)
        × (contents_at (BlockCache.get now c key).0 q ≡ contents_at c q)
        × ((BlockCache.get now c key).0.current_size ≡ c.current_size)
  unfolding BlockCache.get contents_at
  get_contents q = elim (Option-cases (BTreeMap.get c.blocks key)) [
    | inl miss ↦ (ground arith, ground arith, ground arith)
    | inr (b, hit) ↦ (
      ground (arith, get-insert c.blocks key key (touched now b), key_eq_refl key),
      ground (arith, get-insert c.blocks key q (touched now b), eq_of_cmp key q),
      ground arith,
    )
  ]

  -- On a tracked cache whose counter is exact and that has room, with the sizes within a `usize`, a
  -- put over a cached key leaves the counter ahead of the bytes held by the length of the old
  -- block.
  pub put_again_leaks :
      (block : List ℕ) (b : CachedBlock)
      → IsTracked c
      → c.current_size ≡ bytes_cached c.blocks
      → BTreeMap.get c.blocks key ≡ some b
      → over c (length block) ≡ false
      → c.current_size + length block < u64_mod
      → (d : BlockCache) × (BlockCache.put now c key block ≡ some d)
        × (d.current_size ≡ bytes_cached d.blocks + length b.contents)
  unfolding BlockCache.put make_room add_block
  put_again_leaks block b t exact old enough fits = (
    add_block now c key block,
    rw (enough, make_room, BlockCache.put) refl,
    omega (arith, total-insert_old {0} block_bytes c.blocks key (fresh now block) b t.sorted old),
  )
