-- ===== src/BlockCache/Eviction/Rounds.antt =====
-- crates/f4kvs-lsm/src/storage/block_cache.rs: the eviction loop of `put`, round by round.
use f4kvs_lsm.Base.{
  subst, ℕ, zero, suc, ◌+◌, ◌≤◌, ◌<◌, ◌≡◌, subst, sym, ap, ◌⊎◌, inl, inr, refl, true, false, none,
  some, List, [], ◌∷◌, ◌++◌, Key, length, arith, Option-cases, Bool-cases, key_eq_refl, ap,
}
use f4kvs_lsm.Base.BTreeMap
use f4kvs_lsm.Base.BTreeMap.{BTreeMap, get-insert, get-remove}
use f4kvs_lsm.Base.BTreeMap.Total.{total-remove}
use f4kvs_lsm.BlockCache.{
  BlockCache, CachedBlock, evict_block, evict_lru, evict_first, make_room, over, is_empty,
}
use f4kvs_lsm.BlockCache.Tracking.{IsTracked, bytes_cached, block_bytes, evict_first-IsTracked}

-- What evictions may change: `dropped` are the keys that they took off the order.
pub record Evicted (c d : BlockCache) (dropped : List Key) : Type 0 where
  pub tracked : IsTracked d
  pub order : c.access_order ≡ dropped ++ d.access_order
  pub kept :
      (q : Key)
      → (BTreeMap.get d.blocks q ≡ none) ⊎ (BTreeMap.get d.blocks q ≡ BTreeMap.get c.blocks q)
  pub max_size : d.max_size ≡ c.max_size
  pub shrunk : d.current_size ≤ c.current_size
  pub slack : d.current_size + bytes_cached c.blocks ≡ c.current_size + bytes_cached d.blocks

-- A cache with an empty order has no block.
empty_of_order : (c : BlockCache) → IsTracked c → c.access_order ≡ [] → is_empty c.blocks ≡ true
empty_of_order c t e = go c.blocks (λ q. t.ordered q (ground arith))
  where
    go : (m : BTreeMap CachedBlock) → ((q : Key) → BTreeMap.get m q ≡ none) → is_empty m ≡ true
    go [] h = refl
    go ((k, b) ∷ m) h = unfold BTreeMap.get in ground (arith, h k, key_eq_refl k)

module _ (c : BlockCache) (t : IsTracked c) where
  -- One eviction takes the first key off the order, and its block with it.
  evict_first-Evicted :
      (key : Key) (order : List Key)
      → c.access_order ≡ key ∷ order
      → Evicted c (evict_first (key ∷ order) c) (key ∷ [])
  unfolding evict_first
  evict_first-Evicted key order e = elim (Option-cases (BTreeMap.get c.blocks key)) [
    | inl miss ↦ record {
      tracked = evict_first-IsTracked c t (key ∷ order) e;
      order = e;
      kept = λ q. rw (miss, evict_block) (inr refl);
      max_size = rw (miss, evict_block) refl;
      shrunk = rw (miss, evict_block) (omega arith);
      slack = rw (miss, evict_block) (omega arith);
    }
    | inr (b, hit) ↦ record {
      tracked = evict_first-IsTracked c t (key ∷ order) e;
      order = e;
      kept = λ q. rw (hit, evict_block) (rw get-remove (ground arith));
      max_size = rw (hit, evict_block) refl;
      shrunk =
          rw (hit, evict_block)
            (omega (
              arith,
              total-remove {0} block_bytes c.blocks key b t.sorted hit,
              t.covered,
              t.bounded,
            ));
      slack =
          rw (hit, evict_block)
            (omega (
              arith,
              total-remove {0} block_bytes c.blocks key b t.sorted hit,
              t.covered,
              t.bounded,
            ));
    }
  ]

  Evicted-refl : Evicted c c []
  Evicted-refl = record {
    tracked = t;
    order = refl;
    kept = λ q. inr refl;
    max_size = refl;
    shrunk = omega arith;
    slack = omega arith;
  }

Evicted-cons :
    (c d e : BlockCache) (key : Key) (dropped : List Key)
    → Evicted c d (key ∷ [])
    → Evicted d e dropped
    → Evicted c e (key ∷ dropped)
Evicted-cons c d e key dropped f g = record {
  tracked = g.tracked;
  order = cc (f.order, g.order);
  kept = λ q. ground (arith, f.kept q, g.kept q);
  max_size = cc (f.max_size, g.max_size);
  shrunk = omega (arith, f.shrunk, g.shrunk);
  slack = omega (arith, f.slack, g.slack);
}

-- What the loop promises.
abbrev pub Ends : ℕ → BlockCache → ℕ → Type 0
Ends fuel c size =
    (d : BlockCache) × (dropped : List Key) × (make_room fuel c size ≡ some d)
    × (over d size ≡ false)
    × Evicted c d dropped

evict_lru-Evicted :
    (c : BlockCache) (key : Key) (order : List Key)
    → IsTracked c
    → c.access_order ≡ key ∷ order
    → Evicted c (evict_lru c) (key ∷ [])
unfolding evict_lru
evict_lru-Evicted c key order t e =
    subst (λ o. Evicted c (evict_first o c) (key ∷ [])) (sym e)
      (evict_first-Evicted c t key order e)

make_room_step :
    (fuel : ℕ) (c : BlockCache) (size : ℕ) (ks : List Key)
    → c.access_order ≡ ks
    → IsTracked c
    → over c size ≡ true
    → (IsTracked (evict_lru c)
        → length (evict_lru c).access_order < length c.access_order
        → Ends fuel (evict_lru c) size)
    → Ends (suc fuel) c size
unfolding make_room
make_room_step fuel c size [] e t more rest = absurd (ground (arith, empty_of_order c t e))
make_room_step fuel c size (key ∷ order) e t more rest =
    let step = evict_lru-Evicted c key order t e in
    let (d, dropped, ends, enough, evicted) =
      rest step.tracked (omega (arith, ap length step.order)) in
    (
      d,
      key ∷ dropped,
      rw (more, make_room) ends,
      enough,
      Evicted-cons c (evict_lru c) d key dropped step evicted,
    )

-- With one round more than there are keys the loop ends by its own test.
pub make_room_total :
    (fuel : ℕ) (c : BlockCache) (size : ℕ)
    → IsTracked c
    → length c.access_order < fuel
    → Ends fuel c size
unfolding make_room
make_room_total zero c size t h = absurd (omega arith)
make_room_total (suc fuel) c size t h = elim (Bool-cases (over c size)) [
  | inr enough ↦ (c, [], rw (enough, make_room) refl, enough, Evicted-refl c t)
  | inl more ↦
      make_room_step fuel c size c.access_order refl t more
        (λ t' fewer. make_room_total fuel (evict_lru c) size t' (omega arith))
]
