-- ===== src/Engine/Sync.antt =====
-- crates/f4kvs-lsm/src/core/engine.rs: `try_get_sync`, where the locks that it tries are free. In
-- contrast to the awaited read, an error of a table ends it; `none` is that error.
pub mod Agrees
use f4kvs_lsm.Base.{
  ℕ, zero, suc, ◌+◌, Bool, true, false, Option, none, some, List, [], ◌∷◌, Key, if◌then◌else◌,
}
use f4kvs_lsm.Value.{Value}
use f4kvs_lsm.Memtable
use f4kvs_lsm.Sstable.{SsTable, LookupResult, found, tombstone, missing, key_may_exist, lookup_sync}
use f4kvs_lsm.Engine.{Engine, Best, better, value_of, find_sstable_for_key, get_from_memtables}

module _ {J : Type 0} (hash : Key → ℕ → ℕ) where
  unfoldable pub probe_sync : SsTable J → Key → Best J → Option (Best J)
  unfolding better
  probe_sync t key b =
      if key_may_exist hash t key
      then elim (lookup_sync hash t key) [ none ↦ none | some r ↦ some (better r b) ]
      else some b

  unfoldable pub probe_all_sync : List (SsTable J) → Key → Best J → Option (Best J)
  unfolding probe_sync
  probe_all_sync [] key b = some b
  probe_all_sync (t ∷ ts) key b = elim (probe_sync t key b) [
    | none ↦ none
    | some c ↦ probe_all_sync ts key c
  ]

  -- A level below 0: the inner `none` lets the read go on.
  unfoldable pub probe_level_sync : List (SsTable J) → Key → Option (Option (LookupResult J))
  unfolding find_sstable_for_key
  probe_level_sync ts key = elim (find_sstable_for_key ts key) [
    | none ↦ some none
    | some t ↦
        if key_may_exist hash t key
        then elim (lookup_sync hash t key) [
          | none ↦ none
          | some missing ↦ some none
          | some (found v n) ↦ some (some (found v n))
          | some (tombstone n) ↦ some (some (tombstone n))
        ]
        else some none
  ]

  unfoldable pub search_levels_sync :
      (ℕ → List (SsTable J)) → ℕ → ℕ → Key → Option (Option (LookupResult J))
  unfolding probe_level_sync
  search_levels_sync levels zero level key = some none
  search_levels_sync levels (suc n) level key =
      let rest = search_levels_sync levels n (level + 1) key in
      elim (probe_level_sync (levels level) key) [
        | none ↦ none
        | some none ↦ rest
        | some (some r) ↦ some (some r)
      ]

  unfoldable pub search_sstables_sync :
      (ℕ → List (SsTable J)) → ℕ → Key → Option (Option (LookupResult J))
  unfolding probe_all_sync search_levels_sync
  search_sstables_sync levels zero key = some none
  search_sstables_sync levels (suc n) key = elim (probe_all_sync (levels 0) key (0, none)) [
    | none ↦ none
    | some (ts, none) ↦ search_levels_sync levels n 1 key
    | some (ts, some r) ↦ some (some r)
  ]

  unfoldable pub get_from_sstables_sync : Engine J → Key → Option (Option (Value J))
  unfolding search_sstables_sync value_of
  get_from_sstables_sync e key = elim (search_sstables_sync e.levels e.level_count key) [
    | none ↦ none
    | some none ↦ some none
    | some (some r) ↦ some (value_of r)
  ]

  unfoldable pub try_get_sync : Engine J → Key → Option (Option (Value J))
  unfolding get_from_memtables get_from_sstables_sync
  try_get_sync e key = elim (get_from_memtables e key) [
    | Memtable.LookupResult.found v ↦ some (some v)
    | Memtable.LookupResult.tombstone ↦ some none
    | Memtable.LookupResult.missing ↦ get_from_sstables_sync e key
  ]
