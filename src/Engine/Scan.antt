-- ===== src/Engine/Scan.antt =====
-- crates/f4kvs-lsm/src/core/engine.rs: the prefix scan with values, which merges the layers of
-- the tables, the immutable memtables and the active one in this order. A table that fails to
-- read would end the scan with an error; that case is not modelled.
pub mod Layers
use f4kvs_lsm.Base.{
  ℕ, zero, suc, ◌+◌, Bool, true, false, Option, none, some, List, [], ◌∷◌, ◌++◌, Key, if◌then◌else◌,
}
use f4kvs_lsm.Base.BTreeMap
use f4kvs_lsm.Base.BTreeMap.{BTreeMap}
use f4kvs_lsm.Value.{Value}
use f4kvs_lsm.Memtable.{Memtable}
use f4kvs_lsm.Memtable.Scan as MemtableScan
use f4kvs_lsm.Memtable.Scan.{LayerEntry}
use f4kvs_lsm.Sstable.{SsTable}
use f4kvs_lsm.Sstable.Scan as SstableScan
use f4kvs_lsm.Engine.{Engine}

module _ {J : Type 0} where
  unfoldable pub apply_scan_layer : BTreeMap (Value J) → List (LayerEntry J) → BTreeMap (Value J)
  apply_scan_layer merged [] = merged
  apply_scan_layer merged ((key, value, deleted) ∷ es) =
      apply_scan_layer
        (if deleted then BTreeMap.remove merged key else BTreeMap.insert merged key value) es

  unfoldable pub apply_tables : BTreeMap (Value J) → List (SsTable J) → Key → BTreeMap (Value J)
  unfolding apply_scan_layer SstableScan.scan_prefix_layer
  apply_tables merged [] prefix = merged
  apply_tables merged (t ∷ ts) prefix =
      apply_tables (apply_scan_layer merged (SstableScan.scan_prefix_layer t prefix)) ts prefix

  -- The levels from `level` on, with `n` to go.
  unfoldable pub apply_levels :
      BTreeMap (Value J) → (ℕ → List (SsTable J)) → ℕ → ℕ → Key → BTreeMap (Value J)
  unfolding apply_tables
  apply_levels merged levels zero level prefix = merged
  apply_levels merged levels (suc n) level prefix =
      apply_levels (apply_tables merged (levels level) prefix) levels n (level + 1) prefix

  unfoldable pub apply_memtables : BTreeMap (Value J) → List (Memtable J) → Key → BTreeMap (Value J)
  unfolding apply_scan_layer MemtableScan.scan_prefix_layer
  apply_memtables merged [] prefix = merged
  apply_memtables merged (t ∷ ts) prefix =
      apply_memtables (apply_scan_layer merged (MemtableScan.scan_prefix_layer t prefix)) ts prefix

  unfoldable pub merge_scan_prefix_with_values : Engine J → Key → BTreeMap (Value J)
  unfolding apply_levels apply_memtables apply_scan_layer MemtableScan.scan_prefix_layer
  merge_scan_prefix_with_values e prefix =
      apply_scan_layer
        (apply_memtables (apply_levels [] e.levels e.level_count 0 prefix) e.immutables prefix)
        (MemtableScan.scan_prefix_layer e.active prefix)
