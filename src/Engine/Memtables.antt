-- ===== src/Engine/Memtables.antt =====
-- crates/f4kvs-lsm/src/core/engine.rs: what the memtables answer a read with, and that `exists`
-- tells what `get` would.
use f4kvs_lsm.Base.{ℕ, ◌≡◌, refl, true, false, Option, none, some, List, [], ◌∷◌, ◌++◌, Key, arith}
use f4kvs_lsm.Value.{Value}
use f4kvs_lsm.Memtable
use f4kvs_lsm.Memtable.{Memtable}
use f4kvs_lsm.Engine.{Engine, first_in, get_from_memtables, get_from_sstables, get, exists}

module _ {J : Type 0} where
  -- the first answer that is not `missing`
  abbrev pub or_else : Memtable.LookupResult J → Memtable.LookupResult J → Memtable.LookupResult J
  or_else (Memtable.LookupResult.found v) r = Memtable.LookupResult.found v
  or_else Memtable.LookupResult.tombstone r = Memtable.LookupResult.tombstone
  or_else Memtable.LookupResult.missing r = r

  abbrev pub answer : Memtable.LookupResult J → Option (Value J) → Option (Value J)
  answer (Memtable.LookupResult.found v) s = some v
  answer Memtable.LookupResult.tombstone s = none
  answer Memtable.LookupResult.missing s = s

  pub first_in-append :
      (ts us : List (Memtable J)) (key : Key)
      → first_in (ts ++ us) key ≡ or_else (first_in ts key) (first_in us key)
  unfolding first_in
  first_in-append [] us key = refl
  first_in-append (t ∷ ts) us key = ground (arith, first_in-append ts us key)

  pub get_from_memtables-eq :
      (e : Engine J) (key : Key)
      → get_from_memtables e key
        ≡ or_else (Memtable.lookup e.active key) (first_in e.immutables key)
  unfolding get_from_memtables
  get_from_memtables-eq e key = ground arith

module _ {J : Type 0} (hash : Key → ℕ → ℕ) (e : Engine J) (key : Key) where
  -- `exists` is true exactly for the keys that `get` returns a value for.
  pub exists-get : exists hash e key ≡ elim (get hash e key) [ none ↦ false | some v ↦ true ]
  unfolding exists get
  exists-get = ground arith

  -- What the memtables answer, or else the tables.
  pub get-eq :
      get hash e key
      ≡ answer
          (or_else (Memtable.lookup e.active key) (first_in e.immutables key))
          (get_from_sstables hash e key)
  unfolding get
  get-eq = rw (← get_from_memtables-eq e key) (ground arith)
