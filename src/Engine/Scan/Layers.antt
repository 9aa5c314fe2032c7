-- ===== src/Engine/Scan/Layers.antt =====
-- crates/f4kvs-lsm/src/core/engine.rs: which layer a merged scan takes the value of a key from.
use f4kvs_lsm.Base.{
  ◌==◌, ℕ, ◌≡◌, refl, sym, ap, ◌∙◌, true, false, Option, none, some, List, [], ◌∷◌, Key, key_eq,
  starts_with, if◌then◌else◌, arith, Bool-cases, inl, inr, subst, eq_of_key_eq,
}
use f4kvs_lsm.Base.BTreeMap
use f4kvs_lsm.Base.BTreeMap.{BTreeMap, get-insert, get-remove}
use f4kvs_lsm.Value.{Value, is_null}
use f4kvs_lsm.Memtable
use f4kvs_lsm.Memtable.{MemtableConfig, Memtable}
use f4kvs_lsm.Memtable.Scan as MemtableScan
use f4kvs_lsm.Memtable.Scan.{LayerEntry, layer_of}
use f4kvs_lsm.Sstable.{SsTable, found}
use f4kvs_lsm.Sstable.Scan as SstableScan
use f4kvs_lsm.Engine.Memtables.{get-eq}
use f4kvs_lsm.Base.BTreeMap.Sorted.{IsSorted, get-AllAbove}
use f4kvs_lsm.Base.BTreeMap.Range.{keep, get-keep}
use f4kvs_lsm.Engine.Flush.Tables.{get_from_sstables-push_hit}
use f4kvs_lsm.Engine.Flush.{push_l0}
use f4kvs_lsm.Memtable.Scan.Ranges.{keep-IsSorted}
use f4kvs_lsm.Memtable.Scan.Prefix.{while_prefix-range}
use f4kvs_lsm.Engine.{
  get_from_memtables, get_from_sstables, Engine, get, first_in, value_of, LookupResult,
}
use f4kvs_lsm.Engine.Reads.{hit}
use f4kvs_lsm.Engine.Scan.{
  apply_scan_layer, apply_tables, apply_levels, apply_memtables, merge_scan_prefix_with_values,
}

module _ {J : Type 0} where
  -- What a layer says of a key last: nothing, that it is deleted, or its value.
  abbrev pub said : List (LayerEntry J) → Key → Option (Option (Value J))
  said [] q = none
  said ((key, value, deleted) ∷ es) q = elim (said es q) [
    | some o ↦ some o
    | none ↦ if key_eq key q then some (if deleted then none else some value) else none
  ]

  abbrev pub or_before : Option (Option (Value J)) → Option (Value J) → Option (Value J)
  or_before none o = o
  or_before (some r) o = r

  -- A layer decides the keys that it names and leaves the others.
  pub get-apply_scan_layer :
      (merged : BTreeMap (Value J)) (es : List (LayerEntry J)) (q : Key)
      → BTreeMap.get (apply_scan_layer merged es) q ≡ or_before (said es q) (BTreeMap.get merged q)
  unfolding apply_scan_layer
  get-apply_scan_layer merged [] q = refl
  get-apply_scan_layer merged ((key, value, true) ∷ es) q =
      rw (get-apply_scan_layer (BTreeMap.remove merged key) es q, get-remove merged key q)
        (ground arith)
  get-apply_scan_layer merged ((key, value, false) ∷ es) q =
      rw
        (
          get-apply_scan_layer (BTreeMap.insert merged key value) es q,
          get-insert merged key q value,
        )
        (ground arith)

  abbrev pub told : Option (Value J) → Option (Option (Value J))
  told none = none
  told (some v) = some (if is_null v then none else some v)

  said-layer_of :
      (m : BTreeMap (Value J)) (q : Key)
      → IsSorted m
      → said (layer_of m) q ≡ told (BTreeMap.get m q)
  unfolding layer_of BTreeMap.get
  said-layer_of [] q s = refl
  said-layer_of ((k, v) ∷ m) q (above, s) = elim (Bool-cases (key_eq k q)) [
    | inl same ↦
        let bare : BTreeMap.get m q ≡ none =
          subst (λ j. BTreeMap.get m j ≡ none) (eq_of_key_eq k q same) (get-AllAbove k m above) in
        rw (said-layer_of m q s, bare, same) refl
    | inr other ↦ rw (said-layer_of m q s, other) (ground arith)
  ]

  -- The layer of a memtable says of each key with the prefix what the memtable holds.
  pub said-memtable :
      (t : Memtable J) (prefix q : Key)
      → IsSorted t.contents
      → starts_with q prefix ≡ true
      → said (MemtableScan.scan_prefix_layer t prefix) q ≡ told (BTreeMap.get t.contents q)
  unfolding MemtableScan.scan_prefix_layer
  said-memtable t prefix q s p =
      let test = λ (k : Key). starts_with k prefix in
      ap (λ m. said (layer_of m) q) (while_prefix-range prefix t.contents s)
      ∙ said-layer_of (keep test t.contents) q (keep-IsSorted test t.contents s)
      ∙ ap told (get-keep test t.contents q ∙ rw p refl)

-- An engine with nothing in memory and a table on level 1.
abbrev pub one_level : {J : Type 0} → MemtableConfig → SsTable J → Engine J
one_level config u = record {
  active = Memtable.new config;
  immutables = [];
  levels = λ level. if level == 1 then u ∷ [] else [];
  level_count = 2;
  sequence_number = 0;
  live_key_count = 1;
  bulk_import = false;
}

-- An engine with nothing in memory and one table on each of two levels.
abbrev pub two_levels : {J : Type 0} → MemtableConfig → SsTable J → SsTable J → Engine J
two_levels config t u = push_l0 (one_level config u) t

module _ {J : Type 0} (hash : Key → ℕ → ℕ) where
  -- For a key with the prefix that the active memtable holds, live or deleted, the merged scan
  -- and a read agree.
  pub scan_active :
      (e : Engine J) (prefix q : Key) (v : Value J)
      → IsSorted e.active.contents
      → starts_with q prefix ≡ true
      → BTreeMap.get e.active.contents q ≡ some v
      → BTreeMap.get (merge_scan_prefix_with_values e prefix) q ≡ get hash e q
  unfolding merge_scan_prefix_with_values Memtable.lookup Memtable.result_of
  scan_active e prefix q v s p g =
      let before =
        apply_memtables (apply_levels [] e.levels e.level_count 0 prefix) e.immutables prefix in
      get-apply_scan_layer before (MemtableScan.scan_prefix_layer e.active prefix) q
      ∙ ap (λ o. or_before o (BTreeMap.get before q))
          (said-memtable e.active prefix q s p ∙ ap told g)
      ∙ sym (get-eq hash e q ∙ rw (Memtable.lookup, g) (ground arith))

  pub get-two_levels :
      (config : MemtableConfig) (t u : SsTable J) (q : Key) (r : LookupResult J)
      → hit hash t q ≡ some r
      → get hash (two_levels config t u) q ≡ value_of r
  unfolding get get_from_memtables get_from_sstables push_l0 first_in Memtable.lookup
      Memtable.result_of Memtable.new BTreeMap.get
  get-two_levels config t u q r h =
      get_from_sstables-push_hit hash (one_level config u) t q r (omega arith) h
        (λ x r' m. elim m [ ])

  -- Where a table of level 0 holds a value of the key and a table of level 1 another one, a read
  -- takes the value of level 0 and a scan the value of level 1: here with a table on each level
  -- and empty memtables.
  pub scan_prefers_deeper :
      (config : MemtableConfig) (t u : SsTable J) (prefix q : Key) (v w : Value J) (n : ℕ)
      → hit hash t q ≡ some (found v n)
      → said (SstableScan.scan_prefix_layer u prefix) q ≡ some (some w)
      → (get hash (two_levels config t u) q ≡ some v)
        × (BTreeMap.get (merge_scan_prefix_with_values (two_levels config t u) prefix) q ≡ some w)
  unfolding merge_scan_prefix_with_values get get_from_memtables get_from_sstables push_l0 first_in
      Memtable.lookup Memtable.result_of Memtable.new BTreeMap.get apply_levels apply_tables
      apply_memtables apply_scan_layer MemtableScan.scan_prefix_layer layer_of
      MemtableScan.while_prefix keep value_of
  scan_prefers_deeper config t u prefix q v w n h s = (
    get-two_levels config t u q (found v n) h,
    get-apply_scan_layer (apply_scan_layer [] (SstableScan.scan_prefix_layer t prefix))
          (SstableScan.scan_prefix_layer u prefix) q
        ∙ ap
            (λ o.
              or_before o
                (BTreeMap.get (apply_scan_layer [] (SstableScan.scan_prefix_layer t prefix)) q))
            s,
  )
