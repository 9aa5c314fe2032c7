-- ===== src/Memtable/Lookup.antt =====
-- crates/f4kvs-lsm/src/storage/memtable.rs: what single-key reads see after the writes.
use f4kvs_lsm.Base.{ℕ, ◌≡◌, true, false, Option, none, some, Key, key_eq, if◌then◌else◌, arith}
use f4kvs_lsm.Base.BTreeMap.{get-insert}
use f4kvs_lsm.Value.{Value, is_null}
use f4kvs_lsm.Memtable.{
  Memtable, LookupResult, PutEffect, found, tombstone, missing, inserted, updated_live, resurrected,
  lookup, put, delete, get, exists, is_tombstone,
}

-- What a lookup of a key sees right after the value was put under it.
abbrev pub seen : {J : Type 0} → Value J → LookupResult J
seen v = if is_null v then tombstone else found v

-- What `get` returns for a lookup's result.
abbrev pub visible : {J : Type 0} → LookupResult J → Option (Value J)
visible (found v) = some v
visible tombstone = none
visible missing = none

-- The effect that the state of the key before the put determines.
abbrev pub effect_after : {J : Type 0} → LookupResult J → PutEffect
effect_after (found v) = updated_live
effect_after tombstone = resurrected
effect_after missing = inserted

module _ {J : Type 0} (json_len : J → ℕ) (t : Memtable J) where
  -- A lookup after a put sees the value under its key, a tombstone where it is null, and what it
  -- saw before under every other key.
  pub lookup-put :
      (k q : Key) (v : Value J)
      → lookup (put json_len t k v).0 q ≡ (if key_eq k q then seen v else lookup t q)
  unfolding lookup put
  lookup-put k q v = rw get-insert (ground arith)

  -- A lookup after a delete sees a tombstone under its key and what it saw before under every
  -- other key.
  pub lookup-delete :
      (k q : Key) → lookup (delete json_len t k) q ≡ (if key_eq k q then tombstone else lookup t q)
  unfolding lookup delete
  lookup-delete k q = rw get-insert (ground arith)

  -- `put` reports whether the key was missing, deleted or live before.
  pub put-effect : (k : Key) (v : Value J) → (put json_len t k v).1 ≡ effect_after (lookup t k)
  unfolding lookup put
  put-effect k v = ground arith

module _ {J : Type 0} (t : Memtable J) (k : Key) where
  -- The four single-key reads agree with one another.
  pub reads_agree :
      (get t k ≡ visible (lookup t k))
      × (exists t k ≡ elim (lookup t k) [ found v ↦ true | _ ↦ false ])
      × (is_tombstone t k ≡ elim (lookup t k) [ tombstone ↦ true | _ ↦ false ])
  unfolding lookup get exists is_tombstone
  reads_agree = (ground arith, ground arith, ground arith)
