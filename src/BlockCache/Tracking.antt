-- ===== src/BlockCache/Tracking.antt =====
-- crates/f4kvs-lsm/src/storage/block_cache.rs: every cached block is in the access order, and the
-- byte counter never runs below what is cached.
use f4kvs_lsm.Base.{
  contains, ℕ, ◌+◌, ◌≤◌, ◌<◌, ◌≡◌, refl, false, ◌||◌, none, List, [], ◌∷◌, ◌++◌, Key, key_eq,
  length, arith, eq_of_cmp, Option-cases, inl, inr,
}
use f4kvs_lsm.Base.BTreeMap
use f4kvs_lsm.Base.BTreeMap.{BTreeMap, get-insert, get-remove}
use f4kvs_lsm.Base.BTreeMap.Sorted.{IsSorted, insert-IsSorted, remove-IsSorted}
use f4kvs_lsm.Base.BTreeMap.Total.{total, total-insert_new, total-insert_old, total-remove}
use f4kvs_lsm.Base.Words.{u64_mod}
use f4kvs_lsm.BlockCache
use f4kvs_lsm.BlockCache.{
  BlockCache, CachedBlock, remove_first, touched, evict_block, evict_lru, evict_first, add_block,
}

-- The bytes of the cached blocks.
abbrev pub bytes_cached : BTreeMap CachedBlock → ℕ
bytes_cached = total (λ k b. length b.contents)

pub record IsTracked (c : BlockCache) : Type 0 where
  pub sorted : IsSorted c.blocks
  pub ordered : (q : Key) → contains c.access_order q ≡ false → BTreeMap.get c.blocks q ≡ none
  pub covered : bytes_cached c.blocks ≤ c.current_size
  pub bounded : c.current_size < u64_mod

contains-remove_first :
    (key q : Key) (ks : List Key)
    → key_eq key q ≡ false
    → contains (remove_first key ks) q ≡ contains ks q
unfolding remove_first
contains-remove_first key q [] h = refl
contains-remove_first key q (k ∷ ks) h =
    ground (arith, contains-remove_first key q ks h, eq_of_cmp k key)

contains-append_last :
    (ks : List Key) (key q : Key) → contains (ks ++ key ∷ []) q ≡ (contains ks q || key_eq key q)
contains-append_last [] key q = ground arith
contains-append_last (k ∷ ks) key q = ground (arith, contains-append_last ks key q)

-- The constructor.
pub new-IsTracked : (n : ℕ) → IsTracked (BlockCache.new n)
unfolding BlockCache.new BTreeMap.get total
new-IsTracked n = record {
  sorted = tt;
  ordered = λ q h. refl;
  covered = omega arith;
  bounded = omega arith;
}

abbrev pub block_bytes : Key → CachedBlock → ℕ
block_bytes k b = length b.contents

abbrev pub fresh : ℕ → List ℕ → CachedBlock
fresh now block = record { contents = block; last_accessed = now; access_count = 1 }

module _ (c : BlockCache) (t : IsTracked c) where
  -- A hit rewrites the block's counters and moves its key to the end.
  pub get-IsTracked : (now : ℕ) (key : Key) → IsTracked (BlockCache.get now c key).0
  unfolding BlockCache.get
  get-IsTracked now key = elim (Option-cases (BTreeMap.get c.blocks key)) [
    | inl miss ↦
        rw (miss, BlockCache.get)
          (record {
            sorted = t.sorted;
            ordered = t.ordered;
            covered = t.covered;
            bounded = t.bounded;
          })
    | inr (b, hit) ↦
        rw (hit, BlockCache.get)
          (record {
            sorted = insert-IsSorted c.blocks key (touched now b) t.sorted;
            ordered = λ q h. rw get-insert (
                ground (
                  arith,
                  t.ordered q,
                  contains-append_last (remove_first key c.access_order) key q,
                  contains-remove_first key q c.access_order,
                ));
            covered = omega (
              arith,
              total-insert_old {0} block_bytes c.blocks key (touched now b) b t.sorted hit,
              t.covered,
            );
            bounded = t.bounded;
          })
  ]

  -- Removing a key from a tracked cache leaves it tracked.
  pub remove-IsTracked : (key : Key) → IsTracked (BlockCache.remove c key).0
  unfolding BlockCache.remove
  remove-IsTracked key = elim (Option-cases (BTreeMap.get c.blocks key)) [
    | inl miss ↦ rw (miss, BlockCache.remove) t
    | inr (b, hit) ↦
        rw (hit, BlockCache.remove)
          (record {
            sorted = remove-IsSorted c.blocks key t.sorted;
            ordered = λ q h.
                rw get-remove
                  (ground (arith, t.ordered q, contains-remove_first key q c.access_order));
            covered = omega (
              arith,
              total-remove {0} block_bytes c.blocks key b t.sorted hit,
              t.covered,
              t.bounded,
            );
            bounded = omega arith;
          })
  ]

  pub evict_first-IsTracked :
      (order : List Key) → c.access_order ≡ order → IsTracked (evict_first order c)
  unfolding evict_first
  evict_first-IsTracked [] e = t
  evict_first-IsTracked (key ∷ order) e = elim (Option-cases (BTreeMap.get c.blocks key)) [
    | inl miss ↦
        rw (miss, evict_block)
          (record {
            sorted = t.sorted;
            ordered = λ q h. ground (arith, t.ordered q, eq_of_cmp key q);
            covered = t.covered;
            bounded = t.bounded;
          })
    | inr (b, hit) ↦
        rw (hit, evict_block)
          (record {
            sorted = remove-IsSorted c.blocks key t.sorted;
            ordered = λ q h. rw get-remove (ground (arith, t.ordered q));
            covered = omega (
              arith,
              total-remove {0} block_bytes c.blocks key b t.sorted hit,
              t.covered,
              t.bounded,
            );
            bounded = omega arith;
          })
  ]

  pub add_block-IsTracked :
      (now : ℕ) (key : Key) (block : List ℕ)
      → c.current_size + length block < u64_mod
      → IsTracked (add_block now c key block)
  unfolding add_block
  add_block-IsTracked now key block fits = record {
    sorted = insert-IsSorted c.blocks key _ t.sorted;
    ordered = λ q h.
        rw get-insert (ground (arith, t.ordered q, contains-append_last c.access_order key q));
    covered = elim (Option-cases (BTreeMap.get c.blocks key)) [
      | inl new ↦
          omega
            (arith, total-insert_new {0} block_bytes c.blocks key (fresh now block) new, t.covered)
      | inr (b, old) ↦ omega (
        arith,
        total-insert_old {0} block_bytes c.blocks key (fresh now block) b t.sorted old,
        t.covered,
      )
    ];
    bounded = omega arith;
  }
