-- ===== src/Memtable.antt =====
-- crates/f4kvs-lsm/src/storage/memtable.rs: the sorted in-memory table that takes the writes.
-- Each lock is held for one whole method here; `RwLock` and `Arc` are not modelled. No method
-- of the source can return `Err`, so the `Ok` is left out. The creation timestamp is never read.
pub mod Lookup
pub mod Accounting
pub mod Scan
use f4kvs_lsm.Base.{
  ℕ, ◌-◌, Bool, false, not, Option, none, some, [], Key, length, if◌then◌else◌, leb,
}
use f4kvs_lsm.Base.BTreeMap
use f4kvs_lsm.Base.BTreeMap.{BTreeMap}
use f4kvs_lsm.Base.Words.{usize_add}
use f4kvs_lsm.Value.{Value, is_null, estimate_value_size}

-- The field of `MemtableConfig` that the memtable reads.
pub record MemtableConfig : Type 0 where
  pub max_size : ℕ

-- The effect of a put on the visibility of its key.
pub data PutEffect : Type 0 where
  inserted updated_live resurrected : PutEffect

pub data LookupResult (J : Type 0) : Type 0 where
  found : Value J → LookupResult J
  tombstone : LookupResult J
  missing : LookupResult J

pub record Memtable (J : Type 0) : Type 0 where
  pub config : MemtableConfig
  pub contents : BTreeMap (Value J)
  pub size : ℕ
  pub entry_count : ℕ

unfoldable pub new : {J : Type 0} → MemtableConfig → Memtable J
new config = record { config = config; contents = []; size = 0; entry_count = 0 }

module _ {J : Type 0} where
  -- the `match &old_value` of `put`
  unfoldable pub effect_of : Option (Value J) → PutEffect
  unfolding is_null
  effect_of none = PutEffect.inserted
  effect_of (some v) = if is_null v then PutEffect.resurrected else PutEffect.updated_live

  -- the `match data.get(key)` of `lookup`
  unfoldable pub result_of : Option (Value J) → LookupResult J
  unfolding is_null
  result_of none = LookupResult.missing
  result_of (some v) = if is_null v then LookupResult.tombstone else LookupResult.found v

  unfoldable pub lookup : Memtable J → Key → LookupResult J
  unfolding result_of
  lookup t key = result_of (BTreeMap.get t.contents key)

  unfoldable pub get : Memtable J → Key → Option (Value J)
  unfolding is_null
  get t key = elim (BTreeMap.get t.contents key) [
    | none ↦ none
    | some v ↦ if is_null v then none else some v
  ]

  unfoldable pub exists : Memtable J → Key → Bool
  unfolding is_null
  exists t key = elim (BTreeMap.get t.contents key) [ none ↦ false | some v ↦ not (is_null v) ]

  unfoldable pub is_tombstone : Memtable J → Key → Bool
  unfolding is_null
  is_tombstone t key = elim (BTreeMap.get t.contents key) [ none ↦ false | some v ↦ is_null v ]

  unfoldable pub is_full : Memtable J → Bool
  is_full t = leb t.config.max_size t.size

module _ {J : Type 0} (json_len : J → ℕ) where
  -- The size that is tracked for an entry.
  unfoldable pub entry_size : Key → Value J → ℕ
  unfolding estimate_value_size
  entry_size key v = usize_add (length key) (estimate_value_size json_len v)

  -- `size.saturating_sub(key_size + estimate_value_size(&old_value))`, where there is one
  unfoldable pub size_without : Memtable J → Key → Option (Value J) → ℕ
  unfolding entry_size
  size_without t key none = t.size
  size_without t key (some v) = t.size - entry_size key v

  unfoldable pub count_with : Memtable J → Option (Value J) → ℕ
  count_with t none = usize_add t.entry_count 1
  count_with t (some v) = t.entry_count

  unfoldable pub put : Memtable J → Key → Value J → Memtable J × PutEffect
  unfolding effect_of size_without count_with entry_size
  put t key v =
      let old = BTreeMap.get t.contents key in
      (
        record t {
          contents = BTreeMap.insert t.contents key v;
          size = usize_add (size_without t key old) (entry_size key v);
          entry_count = count_with t old;
        },
        effect_of old,
      )

  -- A tombstone is counted as one byte beside its key.
  unfoldable pub delete : Memtable J → Key → Memtable J
  unfolding size_without count_with
  delete t key =
      let old = BTreeMap.get t.contents key in
      record t {
        contents = BTreeMap.insert t.contents key Value.null;
        size = usize_add (size_without t key old) (usize_add (length key) 1);
        entry_count = count_with t old;
      }

unfoldable pub clear : {J : Type 0} → Memtable J → Memtable J
clear t = record t { contents = []; size = 0; entry_count = 0 }
