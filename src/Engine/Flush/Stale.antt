-- ===== src/Engine/Flush/Stale.antt =====
-- crates/f4kvs-lsm/src/core/engine.rs: what a read finds after a second memtable joins the
-- immutable ones, the first of which has not been flushed.
use f4kvs_lsm.Base.{◌≡◌, refl, ◌∙◌, some, [], ◌∷◌, Key, ℕ}
use f4kvs_lsm.Base.BTreeMap
use f4kvs_lsm.Value.{Value}
use f4kvs_lsm.Memtable
use f4kvs_lsm.Engine.{Engine, first_in, get}
use f4kvs_lsm.Engine.Memtables.{get-eq, first_in-append}
use f4kvs_lsm.Engine.Flush.{swap_out}

module _ {J : Type 0} (hash : Key → ℕ → ℕ) where
  -- Where an immutable memtable holds a value of the key and the active one a newer value, a read
  -- returns the newer one, and the older one again once the active memtable was swapped out.
  pub stale_after_swap :
      (e : Engine J) (key : Key) (old new : Value J)
      → first_in e.immutables key ≡ Memtable.LookupResult.found old
      → Memtable.lookup e.active key ≡ Memtable.LookupResult.found new
      → (get hash e key ≡ some new) × (get hash (swap_out e) key ≡ some old)
  unfolding swap_out Memtable.new Memtable.lookup Memtable.result_of BTreeMap.get
  stale_after_swap e key old new o n = (
    get-eq hash e key ∙ rw n refl,
    get-eq hash (swap_out e) key ∙ rw (first_in-append e.immutables (e.active ∷ []) key, o) refl,
  )
