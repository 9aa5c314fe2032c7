-- ===== src/Engine.antt =====
-- crates/f4kvs-lsm/src/core/engine.rs: the read paths of the engine over its memtables and the
-- levels of its tables. The crate is taken without its optional features `ttl` and `metrics`. One
-- read runs here with no other task in between; statistics counters are left out. A level that
-- the map of levels does not hold is the empty list.
pub mod Reads
pub mod Levels
pub mod Memtables
pub mod Flush
pub mod Write
pub mod Scan
pub mod Sync
use f4kvs_lsm.Base.{
  ℕ, zero, suc, ◌+◌, Bool, true, false, not, ◌&&◌, ◌||◌, Option, none, some, List, [], ◌∷◌, Key,
  key_lt, key_le, if◌then◌else◌, leb, ltb, ◌==◌,
}
use f4kvs_lsm.Value.{Value}
use f4kvs_lsm.Memtable
use f4kvs_lsm.Memtable.{Memtable}
use f4kvs_lsm.Sstable.{
  SsTable, LookupResult, found, tombstone, missing, key_may_exist, lookup_with_reader_guard,
}

pub record Engine (J : Type 0) : Type 0 where
  pub active : Memtable J
  pub immutables : List (Memtable J)
  pub levels : ℕ → List (SsTable J)
  pub level_count : ℕ
  pub sequence_number : ℕ
  pub live_key_count : ℕ
  pub bulk_import : Bool

-- `best_ts` and `best` of the loop over level 0
abbrev pub Best : Type 0 → Type 0
Best J = ℕ × Option (LookupResult J)

module _ {J : Type 0} where
  -- The loop over the immutable memtables, in the order of the list.
  unfoldable pub first_in : List (Memtable J) → Key → Memtable.LookupResult J
  first_in [] key = Memtable.LookupResult.missing
  first_in (t ∷ ts) key =
      let rest = first_in ts key in
      elim (Memtable.lookup t key) [ Memtable.LookupResult.missing ↦ rest | other ↦ other ]

  unfoldable pub get_from_memtables : Engine J → Key → Memtable.LookupResult J
  unfolding first_in
  get_from_memtables e key = elim (Memtable.lookup e.active key) [
    | Memtable.LookupResult.missing ↦ first_in e.immutables key
    | other ↦ other
  ]

  -- A hit replaces the best one unless it is older.
  unfoldable pub better : LookupResult J → Best J → Best J
  better missing b = b
  better (found v ts) b = if leb b.0 ts then (ts, some (found v ts)) else b
  better (tombstone ts) b = if leb b.0 ts then (ts, some (tombstone ts)) else b

  unfoldable pub value_of : LookupResult J → Option (Value J)
  value_of (found v ts) = some v
  value_of (tombstone ts) = none
  value_of missing = none

  -- `partition_point(|s| s.metadata().largest_key < key)` and the table that stands there
  unfoldable pub first_reaching : List (SsTable J) → Key → Option (SsTable J)
  first_reaching [] key = none
  first_reaching (t ∷ ts) key =
      let rest = first_reaching ts key in if key_lt t.metadata.largest_key key then rest else some t

  unfoldable pub find_sstable_for_key : List (SsTable J) → Key → Option (SsTable J)
  unfolding first_reaching
  find_sstable_for_key ts key = elim (first_reaching ts key) [
    | none ↦ none
    | some t ↦
        if key_le t.metadata.smallest_key key && key_le key t.metadata.largest_key
        then some t
        else none
  ]

module _ {J : Type 0} (hash : Key → ℕ → ℕ) where
  -- One candidate of level 0: an error is logged and skipped.
  unfoldable pub probe : SsTable J → Key → Best J → Best J
  unfolding better
  probe t key b =
      if key_may_exist hash t key
      then elim (lookup_with_reader_guard hash t key) [ none ↦ b | some r ↦ better r b ]
      else b

  unfoldable pub probe_all : List (SsTable J) → Key → Best J → Best J
  unfolding probe
  probe_all [] key b = b
  probe_all (t ∷ ts) key b = probe_all ts key (probe t key b)

  -- A level below 0: `some` is the answer of the read, `none` lets it go on.
  unfoldable pub probe_level : List (SsTable J) → Key → Option (LookupResult J)
  unfolding find_sstable_for_key
  probe_level ts key = elim (find_sstable_for_key ts key) [
    | none ↦ none
    | some t ↦
        if key_may_exist hash t key
        then elim (lookup_with_reader_guard hash t key) [
          | none ↦ none
          | some missing ↦ none
          | some (found v n) ↦ some (found v n)
          | some (tombstone n) ↦ some (tombstone n)
        ]
        else none
  ]

  -- The levels from `level` on, with `n` to go.
  unfoldable pub search_levels : (ℕ → List (SsTable J)) → ℕ → ℕ → Key → Option (LookupResult J)
  unfolding probe_level
  search_levels levels zero level key = none
  search_levels levels (suc n) level key =
      let rest = search_levels levels n (level + 1) key in
      elim (probe_level (levels level) key) [ none ↦ rest | some r ↦ some r ]

  unfoldable pub search_l0 : List (SsTable J) → Key → Option (LookupResult J)
  unfolding probe_all
  search_l0 ts key = (probe_all ts key (0, none)).1

  unfoldable pub search_sstables : (ℕ → List (SsTable J)) → ℕ → Key → Option (LookupResult J)
  unfolding search_l0 search_levels
  search_sstables levels zero key = none
  search_sstables levels (suc n) key = elim (search_l0 (levels 0) key) [
    | none ↦ search_levels levels n 1 key
    | some r ↦ some r
  ]

  unfoldable pub get_from_sstables : Engine J → Key → Option (Value J)
  unfolding search_sstables value_of
  get_from_sstables e key = elim (search_sstables e.levels e.level_count key) [
    | none ↦ none
    | some r ↦ value_of r
  ]

  unfoldable pub get : Engine J → Key → Option (Value J)
  unfolding get_from_memtables get_from_sstables
  get e key = elim (get_from_memtables e key) [
    | Memtable.LookupResult.found v ↦ some v
    | Memtable.LookupResult.tombstone ↦ none
    | Memtable.LookupResult.missing ↦ get_from_sstables e key
  ]

  unfoldable pub exists : Engine J → Key → Bool
  unfolding get_from_memtables get_from_sstables
  exists e key = elim (get_from_memtables e key) [
    | Memtable.LookupResult.found v ↦ true
    | Memtable.LookupResult.tombstone ↦ false
    | Memtable.LookupResult.missing ↦ elim (get_from_sstables e key) [
      | none ↦ false
      | some v ↦ true
    ]
  ]
