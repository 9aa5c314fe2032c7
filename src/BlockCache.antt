-- ===== src/BlockCache.antt =====
-- crates/f4kvs-lsm/src/storage/block_cache.rs: the cache of decoded SSTable blocks, least recently
-- used first in `access_order`. The time that `Instant::now()` returns is an argument. The hit
-- rate, a float, is not modelled. `HashMap` is the map of Base/BTreeMap: its order is never read.
pub mod Tracking
pub mod Eviction
pub mod Reads
use f4kvs_lsm.Base.{
  ℕ, zero, suc, ◌+◌, Bool, true, false, not, ◌&&◌, Option, none, some, List, [], ◌∷◌, ◌++◌, Key,
  key_eq, length, if◌then◌else◌, ltb,
}
use f4kvs_lsm.Base.BTreeMap
use f4kvs_lsm.Base.BTreeMap.{BTreeMap}
use f4kvs_lsm.Base.Words.{usize_add, usize_sub}

pub record CachedBlock : Type 0 where
  pub contents : List ℕ
  pub last_accessed : ℕ
  pub access_count : ℕ

pub record BlockCache : Type 0 where
  pub max_size : ℕ
  pub current_size : ℕ
  pub blocks : BTreeMap CachedBlock
  pub access_order : List Key
  pub hit_count : ℕ
  pub miss_count : ℕ
  pub eviction_count : ℕ

unfoldable pub new : ℕ → BlockCache
new max_size = record {
  max_size = max_size;
  current_size = 0;
  blocks = [];
  access_order = [];
  hit_count = 0;
  miss_count = 0;
  eviction_count = 0;
}

-- `position` and `Vec::remove`: the list without the first entry that is the key.
unfoldable pub remove_first : Key → List Key → List Key
remove_first key [] = []
remove_first key (k ∷ ks) = if key_eq k key then ks else k ∷ remove_first key ks

unfoldable pub update_access_order : BlockCache → Key → BlockCache
unfolding remove_first
update_access_order c key = record c { access_order = remove_first key c.access_order ++ key ∷ [] }

-- The counters of a block that is read at time `now`.
unfoldable pub touched : ℕ → CachedBlock → CachedBlock
touched now b = record b { last_accessed = now; access_count = usize_add b.access_count 1 }

unfoldable pub contents_at : BlockCache → Key → Option (List ℕ)
contents_at c key = elim (BTreeMap.get c.blocks key) [ none ↦ none | some b ↦ some b.contents ]

unfoldable pub get : ℕ → BlockCache → Key → BlockCache × Option (List ℕ)
unfolding update_access_order touched contents_at
get now c key = elim (BTreeMap.get c.blocks key) [
  | none ↦ (record c { miss_count = usize_add c.miss_count 1 }, none)
  | some b ↦
      let c' =
        update_access_order
          (record c {
            blocks = BTreeMap.insert c.blocks key (touched now b);
            hit_count = usize_add c.hit_count 1;
          })
          key in
      (c', contents_at c' key)
]

-- the `if let Some(block) = self.blocks.remove(&key)` of `evict_lru`
unfoldable pub evict_block : BlockCache → Key → BlockCache
evict_block c key = elim (BTreeMap.get c.blocks key) [
  | none ↦ c
  | some b ↦ record c {
    blocks = BTreeMap.remove c.blocks key;
    current_size = usize_sub c.current_size (length b.contents);
    eviction_count = usize_add c.eviction_count 1;
  }
]

unfoldable pub evict_first : List Key → BlockCache → BlockCache
unfolding evict_block
evict_first [] c = c
evict_first (key ∷ order) c = record (evict_block c key) { access_order = order }

unfoldable pub evict_lru : BlockCache → BlockCache
unfolding evict_first
evict_lru c = evict_first c.access_order c

abbrev pub is_empty : BTreeMap CachedBlock → Bool
is_empty [] = true
is_empty (e ∷ m) = false

-- the test of the loop of `put`
abbrev pub over : BlockCache → ℕ → Bool
over c size = ltb c.max_size (usize_add c.current_size size) && not (is_empty c.blocks)

-- The loop of `put`. `none`: the fuel is spent and the loop has not ended.
unfoldable pub make_room : ℕ → BlockCache → ℕ → Option BlockCache
unfolding evict_lru
make_room zero c size = none
make_room (suc fuel) c size = elim (over c size) [
  | true ↦ make_room fuel (evict_lru c) size
  | false ↦ some c
]

unfoldable pub add_block : ℕ → BlockCache → Key → List ℕ → BlockCache
add_block now c key block = record c {
  blocks =
      BTreeMap.insert c.blocks key
        (record { contents = block; last_accessed = now; access_count = 1 });
  current_size = usize_add c.current_size (length block);
  access_order = c.access_order ++ key ∷ [];
}

-- Each round takes one key off the order, so that one more round than there are keys is enough.
unfoldable pub put : ℕ → BlockCache → Key → List ℕ → Option BlockCache
unfolding make_room add_block
put now c key block = elim (make_room (suc (length c.access_order)) c (length block)) [
  | none ↦ none
  | some c' ↦ some (add_block now c' key block)
]

unfoldable pub clear : BlockCache → BlockCache
clear c = record c { blocks = []; access_order = []; current_size = 0 }

unfoldable pub remove : BlockCache → Key → BlockCache × Option (List ℕ)
unfolding remove_first
remove c key = elim (BTreeMap.get c.blocks key) [
  | none ↦ (c, none)
  | some b ↦ (
    record c {
      blocks = BTreeMap.remove c.blocks key;
      current_size = usize_sub c.current_size (length b.contents);
      access_order = remove_first key c.access_order;
    },
    some b.contents,
  )
]
