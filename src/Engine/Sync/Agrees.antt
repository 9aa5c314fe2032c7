-- ===== src/Engine/Sync/Agrees.antt =====
-- crates/f4kvs-lsm/src/core/engine.rs: the synchronous read answers as the awaited one does.
use mathlib.Core.List.{Memᴰ}
use mathlib.Core.List.Memᴰ.{head, tail}
use f4kvs_lsm.Base.{
  ℕ, zero, suc, ◌+◌, ◌≡◌, ◌≤◌, ◌<◌, false, refl, ap, ◌∙◌, true, Option, none, some, List, [], ◌∷◌,
  Key, arith, Option-cases, Bool-cases, inl, inr,
}
use f4kvs_lsm.Value.{Value}
use f4kvs_lsm.Sstable.{
  SsTable, LookupResult, missing, lookup_sync, lookup_with_reader_guard, is_located, try_read_entry,
  try_read_entry_sync,
}
use f4kvs_lsm.FlatIndex.Search.{lookup as index_lookup}
use f4kvs_lsm.Engine.{
  Engine, Best, better, find_sstable_for_key, probe, probe_all, probe_level, search_levels,
  search_l0, search_sstables, get_from_sstables, get,
}
use f4kvs_lsm.Engine.Levels.Ranges.{find_sstable_for_key-mem}
use f4kvs_lsm.Engine.Sync.{
  probe_sync, probe_all_sync, probe_level_sync, search_levels_sync, search_sstables_sync,
  get_from_sstables_sync, try_get_sync,
}

module _ {J : Type 0} where
  -- The table is not marked for deletion, its data ends within its file, and the file on the disk
  -- is at least as long as its metadata say.
  pub record IsWhole (t : SsTable J) : Type 0 where
    pub unmarked : t.marked_for_deletion ≡ false
    pub in_file : t.metadata.index_offset ≤ t.metadata.file_size
    pub whole : t.metadata.file_size ≤ t.disk_size

  located_before :
      (t : SsTable J) (offset size : ℕ)
      → is_located t offset size ≡ true
      → offset < t.metadata.index_offset
  unfolding is_located
  located_before t offset size l = ground (arith, l)

  read-sync :
      (t : SsTable J) (offset size : ℕ)
      → IsWhole t
      → t.is_ready ≡ true
      → is_located t offset size ≡ true
      → try_read_entry t offset size ≡ try_read_entry_sync t offset size
  unfolding try_read_entry try_read_entry_sync
  read-sync t offset size w ready l = elim (Bool-cases t.block_compressed) [
    | inl blocks ↦ ground (arith, blocks)
    | inr frames ↦
        ground (arith, frames, w.unmarked, w.whole, ready, located_before t offset size l)
  ]

module _ {J : Type 0} (hash : Key → ℕ → ℕ) where
  -- The awaited read of a table finds what the synchronous one does, or fails where that misses.
  lookup-sync :
      (t : SsTable J) (key : Key) (r : LookupResult J)
      → IsWhole t
      → lookup_sync hash t key ≡ some r
      → elim (lookup_with_reader_guard hash t key) [ none ↦ missing | some q ↦ q ] ≡ r
  unfolding lookup_sync lookup_with_reader_guard
  lookup-sync t key r w e = elim (Bool-cases t.is_ready) [
    | inr shut ↦ ground (arith, shut, e)
    | inl ready ↦ elim (Option-cases (index_lookup t.index key)) [
      | inl absent ↦ ground (arith, ready, absent, e)
      | inr ((offset, size), present) ↦ elim (Bool-cases (is_located t offset size)) [
        | inl located ↦
            let before = located_before t offset size located in
            let same = read-sync t offset size w ready located in
            ground (arith, ready, present, located, before, w.in_file, same, e)
        | inr mislaid ↦ ground (arith, ready, present, mislaid, e)
      ]
    ]
  ]

  probe-sync :
      (t : SsTable J) (key : Key) (b c : Best J)
      → IsWhole t
      → probe_sync hash t key b ≡ some c
      → probe hash t key b ≡ c
  unfolding probe probe_sync better
  probe-sync t key b c f e = elim (Option-cases (lookup_sync hash t key)) [
    | inl failed ↦ ground (arith, failed, e)
    | inr (r, read) ↦ ground (arith, read, e, lookup-sync t key r f read)
  ]

  probe_all-sync :
      (ts : List (SsTable J)) (key : Key) (b c : Best J)
      → ((t : SsTable J) → Memᴰ t ts → IsWhole t)
      → probe_all_sync hash ts key b ≡ some c
      → probe_all hash ts key b ≡ c
  unfolding probe_all_sync probe_all
  probe_all-sync [] key b c files e = ground (arith, e)
  probe_all-sync (t ∷ ts) key b c files e = elim (Option-cases (probe_sync hash t key b)) [
    | inl failed ↦ ground (arith, failed, e)
    | inr (d, read) ↦
        ap (probe_all hash ts key) (probe-sync t key b d (files t (head refl)) read)
        ∙ probe_all-sync ts key d c (λ u u∈ts. files u (tail u∈ts)) (ground (arith, read, e))
  ]

  probe_level-sync :
      (ts : List (SsTable J)) (key : Key) (r : Option (LookupResult J))
      → ((t : SsTable J) → Memᴰ t ts → IsWhole t)
      → probe_level_sync hash ts key ≡ some r
      → probe_level hash ts key ≡ r
  unfolding probe_level_sync probe_level
  probe_level-sync ts key r files e = elim (Option-cases (find_sstable_for_key ts key)) [
    | inl outside ↦ ground (arith, outside, e)
    | inr (t, at) ↦ elim (Option-cases (lookup_sync hash t key)) [
      | inl failed ↦ ground (arith, at, failed, e)
      | inr (q, read) ↦
          let file = files t (find_sstable_for_key-mem ts key t at) in
          ground (arith, at, read, e, lookup-sync t key q file read)
    ]
  ]

  search_levels-sync :
      (levels : ℕ → List (SsTable J)) (n level : ℕ) (key : Key) (r : Option (LookupResult J))
      → ((k : ℕ) (t : SsTable J) → Memᴰ t (levels k) → IsWhole t)
      → search_levels_sync hash levels n level key ≡ some r
      → search_levels hash levels n level key ≡ r
  unfolding search_levels_sync search_levels
  search_levels-sync levels zero level key r files e = ground (arith, e)
  search_levels-sync levels (suc n) level key r files e =
      elim (Option-cases (probe_level_sync hash (levels level) key)) [
        | inl failed ↦ ground (arith, failed, e)
        | inr (none, past) ↦
            let rest =
              search_levels-sync levels n (level + 1) key r files (ground (arith, past, e)) in
            ground (arith, probe_level-sync (levels level) key none (files level) past, rest)
        | inr (some q, hit) ↦
            ground (arith, probe_level-sync (levels level) key (some q) (files level) hit, hit, e)
      ]

  search_sstables-sync :
      (levels : ℕ → List (SsTable J)) (n : ℕ) (key : Key) (r : Option (LookupResult J))
      → ((k : ℕ) (t : SsTable J) → Memᴰ t (levels k) → IsWhole t)
      → search_sstables_sync hash levels n key ≡ some r
      → search_sstables hash levels n key ≡ r
  unfolding search_sstables_sync search_sstables search_l0
  search_sstables-sync levels zero key r files e = ground (arith, e)
  search_sstables-sync levels (suc n) key r files e =
      elim (Option-cases (probe_all_sync hash (levels 0) key (0, none))) [
        | inl failed ↦ ground (arith, failed, e)
        | inr ((ts, none), past) ↦
            let rest = search_levels-sync levels n 1 key r files (ground (arith, past, e)) in
            ground (arith, probe_all-sync (levels 0) key (0, none) (ts, none) (files 0) past, rest)
        | inr ((ts, some q), hit) ↦
            ground
              (arith, probe_all-sync (levels 0) key (0, none) (ts, some q) (files 0) hit, hit, e)
      ]

  get_from_sstables-sync :
      (e : Engine J) (key : Key) (v : Option (Value J))
      → ((k : ℕ) (t : SsTable J) → Memᴰ t (e.levels k) → IsWhole t)
      → get_from_sstables_sync hash e key ≡ some v
      → get_from_sstables hash e key ≡ v
  unfolding get_from_sstables_sync get_from_sstables
  get_from_sstables-sync e key v files read =
      elim (Option-cases (search_sstables_sync hash e.levels e.level_count key)) [
        | inl failed ↦ ground (arith, failed, read)
        | inr (q, hit) ↦
            ground (arith, hit, read, search_sstables-sync e.levels e.level_count key q files hit)
      ]

  -- Where no table is marked for deletion, the data of every table ends within its file, and every
  -- file is at least as long on the disk as its metadata say, and where the synchronous read of a
  -- key ends without an error, the awaited read of the key gives the same answer.
  pub try_get_sync-get :
      (e : Engine J) (key : Key) (v : Option (Value J))
      → ((k : ℕ) (t : SsTable J) → Memᴰ t (e.levels k) → IsWhole t)
      → try_get_sync hash e key ≡ some v
      → get hash e key ≡ v
  unfolding try_get_sync get
  try_get_sync-get e key v files read = ground (arith, read, get_from_sstables-sync e key v files)
