-- ===== src/BlockCache/Eviction.antt =====
-- crates/f4kvs-lsm/src/storage/block_cache.rs: the eviction loop of `put` ends, takes the least
-- recently used keys, and leaves room; what a `put` stores can be read back.
mod Rounds
use f4kvs_lsm.Base.{
  subst, ℕ, zero, suc, ◌+◌, ◌≤◌, ◌<◌, ◌≡◌, subst, sym, ap, ◌⊎◌, inl, inr, refl, true, false, none,
  some, List, [], ◌∷◌, ◌++◌, Key, length, arith, Option-cases, Bool-cases, max, key_eq_refl, ap,
}
use f4kvs_lsm.Base.BTreeMap
use f4kvs_lsm.Base.BTreeMap.{BTreeMap, get-insert, get-remove}
use f4kvs_lsm.Base.BTreeMap.Total.{total, total-remove, total-insert_new}
use f4kvs_lsm.Base.Words.{u64_mod}
use f4kvs_lsm.BlockCache
use f4kvs_lsm.BlockCache.{
  BlockCache, CachedBlock, evict_block, evict_lru, evict_first, add_block, make_room, over,
  is_empty, contents_at,
}
use f4kvs_lsm.BlockCache.Tracking.{
  IsTracked, bytes_cached, block_bytes, fresh, evict_first-IsTracked, add_block-IsTracked,
}
use f4kvs_lsm.BlockCache.Eviction.Rounds.{Evicted, Ends, make_room_total}

contents-add_block :
    (now : ℕ) (c : BlockCache) (key : Key) (block : List ℕ)
    → contents_at (add_block now c key block) key ≡ some block
unfolding add_block contents_at
contents-add_block now c key block = rw (get-insert, contents_at) (ground (arith, key_eq_refl key))

bytes_of_empty : (m : BTreeMap CachedBlock) → is_empty m ≡ true → bytes_cached m ≡ 0
unfolding total
bytes_of_empty [] h = refl
bytes_of_empty (e ∷ m) h = cc

add_block_bounded :
    (now : ℕ) (c : BlockCache) (key : Key) (block : List ℕ) (limit : ℕ)
    → c.max_size ≡ limit
    → c.current_size ≡ bytes_cached c.blocks
    → BTreeMap.get c.blocks key ≡ none
    → c.current_size + length block < u64_mod
    → over c (length block) ≡ false
    → ((add_block now c key block).current_size ≡ bytes_cached (add_block now c key block).blocks)
      × ((add_block now c key block).current_size ≤ max limit (length block))
unfolding add_block
add_block_bounded now c key block limit m exact new fits enough = (
  omega (arith, total-insert_new {0} block_bytes c.blocks key (fresh now block) new),
  ground (arith, bytes_of_empty c.blocks),
)

-- On a tracked cache, with the sizes within a `usize`, a `put` ends with a tracked one: it drops
-- keys from the front of the order, adds its own at the end, and the block that it stored can be
-- read back.
pub put_total :
    (now : ℕ) (c : BlockCache) (key : Key) (block : List ℕ)
    → IsTracked c
    → c.current_size + length block < u64_mod
    → (d : BlockCache) × (dropped kept : List Key) × (BlockCache.put now c key block ≡ some d)
      × IsTracked d
      × (c.access_order ≡ dropped ++ kept)
      × (d.access_order ≡ kept ++ key ∷ [])
      × (contents_at d key ≡ some block)
unfolding BlockCache.put contents_at
put_total now c key block t fits =
    let (d, dropped, ends, enough, ev) =
      make_room_total (suc (length c.access_order)) c (length block) t (omega arith) in
    (
      add_block now d key block,
      dropped,
      d.access_order,
      rw (ends, BlockCache.put) refl,
      add_block-IsTracked d ev.tracked now key block (omega (arith, ev.shrunk)),
      ev.order,
      unfold add_block in refl,
      contents-add_block now d key block,
    )

put_result :
    (now : ℕ) (c d e : BlockCache) (key : Key) (block : List ℕ)
    → make_room (suc (length c.access_order)) c (length block) ≡ some e
    → BlockCache.put now c key block ≡ some d
    → add_block now e key block ≡ d
unfolding BlockCache.put
put_result now c d e key block ends done =
    let stored : some (add_block now e key block) ≡ some d = rw (ends, BlockCache.put) at done in cc

-- On a tracked cache whose counter is exact, with the sizes within a `usize`, a put of a new key
-- leaves the counter exact, and the cache holds no more than its limit, or than the one block if
-- that is larger.
pub put_bounded :
    (now : ℕ) (c d : BlockCache) (key : Key) (block : List ℕ)
    → IsTracked c
    → c.current_size ≡ bytes_cached c.blocks
    → BTreeMap.get c.blocks key ≡ none
    → c.current_size + length block < u64_mod
    → BlockCache.put now c key block ≡ some d
    → (d.current_size ≡ bytes_cached d.blocks) × (d.current_size ≤ max c.max_size (length block))
unfolding BlockCache.put
put_bounded now c d key block t exact new fits done =
    let (d', dropped, ends, enough, ev) =
      make_room_total (suc (length c.access_order)) c (length block) t (omega arith) in
    subst
      (λ x.
        (x.current_size ≡ bytes_cached x.blocks) × (x.current_size ≤ max c.max_size (length block)))
      (put_result now c d d' key block ends done)
      (add_block_bounded now d' key block c.max_size ev.max_size (omega (arith, ev.slack))
        (ground (arith, ev.kept key)) (omega (arith, ev.shrunk)) enough)
