-- ===== src/Compaction/Tombstones.antt =====
-- crates/f4kvs-lsm/src/compaction/manager.rs and core/engine.rs: what the compaction of one level
-- does to the tombstones that hide entries of a deeper one.
use mathlib.Core.List.Memᴰ.{head}
use f4kvs_lsm.Base.{
  zero, suc, key_eq_refl, ℕ, ◌<◌, ◌≡◌, refl, ap, true, Option, none, some, List, [], ◌∷◌, Key,
  arith,
}
use f4kvs_lsm.Base.Sort.{sort_by, insert_by}
use f4kvs_lsm.Base.BTreeMap
use f4kvs_lsm.Value.{Value}
use f4kvs_lsm.Memtable
use f4kvs_lsm.Memtable.{MemtableConfig}
use f4kvs_lsm.Sstable.{Entry, SsTable, LookupResult, found, tombstone}
use f4kvs_lsm.Engine.{get, get_from_memtables, get_from_sstables, first_in, value_of}
use f4kvs_lsm.Engine.Levels.{Misses, search_sstables-deep}
use f4kvs_lsm.Engine.Reads.{hit}
use f4kvs_lsm.Engine.Scan.Layers.{get-two_levels, one_level, two_levels}
use f4kvs_lsm.Compaction.{
  compact_level, select_leveled_sstables, remaining, is_compacted, build_all, create_new_sstables,
  chunks, merge_sstables_safe, collect_entries, deduplicate_entries, first_versions,
}

module _ {J : Type 0} (hash : Key → ℕ → ℕ) where
  Misses-one_level :
      (config : MemtableConfig) (u : SsTable J) (q : Key) (j : ℕ)
      → j < 1
      → Misses hash ((one_level config u).levels j) q
  Misses-one_level config u q zero lt t m = elim m [ ]
  Misses-one_level config u q (suc j) lt t m = absurd (omega arith)

  get-one_level :
      (config : MemtableConfig) (u : SsTable J) (q : Key) (r : LookupResult J)
      → hit hash u q ≡ some r
      → get hash (one_level config u) q ≡ value_of r
  unfolding get get_from_memtables get_from_sstables first_in Memtable.lookup Memtable.result_of
      Memtable.new BTreeMap.get
  get-one_level config u q r h =
      ap (λ o. elim o [ none ↦ none | some x ↦ value_of x ])
        (search_sstables-deep hash (one_level config u).levels 2 1 q u r (omega arith) (omega arith)
          (Misses-one_level config u q) (tt, tt) (head refl) h)

module _ {J : Type 0} (read : SsTable J → List (Entry J)) where
  collect-single :
      (t : SsTable J) (e : Entry J)
      → read t ≡ e ∷ []
      → t.metadata.entry_count ≡ 1
      → collect_entries read (t ∷ []) ≡ some (e ∷ [])
  unfolding collect_entries
  collect-single t e r one = rw (r, one, collect_entries) refl

  merge-single :
      (t : SsTable J) (e : Entry J)
      → read t ≡ e ∷ []
      → t.metadata.entry_count ≡ 1
      → merge_sstables_safe read (t ∷ []) ≡ some (e ∷ [])
  unfolding merge_sstables_safe collect_entries sort_by insert_by
  merge-single t e r one = rw (collect-single t e r one, merge_sstables_safe) refl

deduplicate_entries-tombstone :
    {J : Type 0} (e : Entry J) → e.deleted ≡ true → deduplicate_entries (e ∷ []) ≡ []
unfolding deduplicate_entries first_versions sort_by insert_by
deduplicate_entries-tombstone e dead = rw dead refl

module _ {J : Type 0} (hash : Key → ℕ → ℕ) (read : SsTable J → List (Entry J))
    (estimated_sstable_bytes : Entry J → ℕ) (target_size : ℕ)
    (build : List (Entry J) → Option (SsTable J)) where
  -- Where level 0 is one table with one tombstone, and a table of level 1 holds a value of the
  -- key, a read finds nothing; the compaction of level 0 leaves it empty, and a read then finds
  -- the deleted value.
  pub compact_level-resurrects :
      (config : MemtableConfig) (t u : SsTable J) (e : Entry J) (q : Key) (v : Value J) (m n : ℕ)
      → read t ≡ e ∷ []
      → t.metadata.entry_count ≡ 1
      → e.deleted ≡ true
      → hit hash t q ≡ some (tombstone m)
      → hit hash u q ≡ some (found v n)
      → (get hash (two_levels config t u) q ≡ none)
        × (compact_level read estimated_sstable_bytes target_size build (t ∷ []) ≡ some [])
        × (get hash (one_level config u) q ≡ some v)
  unfolding compact_level select_leveled_sstables remaining is_compacted build_all
      create_new_sstables chunks value_of
  compact_level-resurrects config t u e q v m n r one dead h k = (
    get-two_levels hash config t u q (tombstone m) h,
    rw
        (
          merge-single read t e r one,
          deduplicate_entries-tombstone e dead,
          key_eq_refl t.path,
          compact_level,
        )
        refl,
    get-one_level hash config u q (found v n) k,
  )
