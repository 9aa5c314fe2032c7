-- ===== src/Compaction.antt =====
-- crates/f4kvs-lsm/src/compaction/manager.rs: the merge of tables into new ones. `read` stands for
-- `read_sstable_entries_safe`: the entries of a table, and none of them where reading fails.
pub mod Newest
pub mod Chunks
pub mod Outputs
pub mod Tombstones
use f4kvs_lsm.Base.{
  ℕ, zero, suc, ◌+◌, Bool, true, false, not, ◌&&◌, ◌||◌, Option, none, some, List, [], ◌∷◌, ◌++◌,
  Key, key_lt, key_eq, contains, length, if◌then◌else◌, ltb, ◌==◌,
}
use f4kvs_lsm.Base.Sort.{sort_by}
use f4kvs_lsm.Base.Words.{usize_add}
use f4kvs_lsm.Value.{Value}
use f4kvs_lsm.Sstable.{Entry, SsTable}

module _ {J : Type 0} where
  -- `a.key.cmp(&b.key).then_with(|| b.timestamp.cmp(&a.timestamp))` is `Less`
  unfoldable pub before : Entry J → Entry J → Bool
  before a b = key_lt a.key b.key || key_eq a.key b.key && ltb b.timestamp a.timestamp

  -- The loop over the sorted entries; `seen` is the set `seen_keys`.
  unfoldable pub first_versions : List Key → List (Entry J) → List (Entry J)
  first_versions seen [] = []
  first_versions seen (e ∷ es) =
      let known = first_versions seen es in
      let fresh = first_versions (e.key ∷ seen) es in
      if contains seen e.key then known else if e.deleted then fresh else e ∷ fresh

  unfoldable pub deduplicate_entries : List (Entry J) → List (Entry J)
  unfolding before first_versions sort_by
  deduplicate_entries entries = first_versions [] (sort_by before entries)

module _ {J : Type 0} (read : SsTable J → List (Entry J)) where
  -- `none` where a table gives another number of entries than its metadata promises.
  unfoldable pub collect_entries : List (SsTable J) → Option (List (Entry J))
  collect_entries [] = some []
  collect_entries (t ∷ ts) =
      let rest = collect_entries ts in
      if length (read t) == t.metadata.entry_count
      then elim rest [ none ↦ none | some es ↦ some (read t ++ es) ]
      else none

  unfoldable pub merge_sstables_safe : List (SsTable J) → Option (List (Entry J))
  unfolding collect_entries before sort_by
  merge_sstables_safe ts = elim (collect_entries ts) [
    | none ↦ none
    | some es ↦ some (sort_by before es)
  ]

module _ {J : Type 0} (estimated_sstable_bytes : Entry J → ℕ) (target_size : ℕ) where
  -- The loop of `create_new_sstables`: `current` is the chunk so far, in order, and `size` its
  -- estimate.
  unfoldable pub chunks : List (Entry J) → ℕ → List (Entry J) → List (List (Entry J))
  chunks [] size [] = []
  chunks (c ∷ current) size [] = (c ∷ current) ∷ []
  chunks [] size (e ∷ es) = chunks (e ∷ []) (usize_add size (estimated_sstable_bytes e)) es
  chunks (c ∷ current) size (e ∷ es) =
      let n = estimated_sstable_bytes e in
      let closed = chunks (e ∷ []) (usize_add 0 n) es in
      let longer = chunks (c ∷ current ++ e ∷ []) (usize_add size n) es in
      if ltb target_size (usize_add size n) then (c ∷ current) ∷ closed else longer

  unfoldable pub create_new_sstables : List (Entry J) → List (List (Entry J))
  unfolding chunks
  create_new_sstables entries = chunks [] 0 entries

module _ {J : Type 0} where
  -- Under the leveled strategy every table of the level is chosen.
  unfoldable pub select_leveled_sstables : List (SsTable J) → List (SsTable J)
  select_leveled_sstables ts = ts

  unfoldable pub is_compacted : List (SsTable J) → SsTable J → Bool
  is_compacted [] t = false
  is_compacted (c ∷ cs) t = key_eq c.path t.path || is_compacted cs t

  -- The tables of the level that were not merged.
  unfoldable pub remaining : List (SsTable J) → List (SsTable J) → List (SsTable J)
  unfolding is_compacted
  remaining cs [] = []
  remaining cs (t ∷ ts) = let rest = remaining cs ts in if is_compacted cs t then rest else t ∷ rest

  -- `create_sstable_from_entries` for each chunk; `none` is its error.
  unfoldable pub build_all :
      (List (Entry J) → Option (SsTable J)) → List (List (Entry J)) → Option (List (SsTable J))
  build_all build [] = some []
  build_all build (c ∷ cs) =
      let rest = build_all build cs in
      elim (build c) [ none ↦ none | some t ↦ elim rest [ none ↦ none | some ts ↦ some (t ∷ ts) ] ]

module _ {J : Type 0} (read : SsTable J → List (Entry J)) (estimated_sstable_bytes : Entry J → ℕ)
    (target_size : ℕ) (build : List (Entry J) → Option (SsTable J)) where
  -- What `compact_level` returns for the tables of a level: they are to replace the level.
  unfoldable pub compact_level : List (SsTable J) → Option (List (SsTable J))
  unfolding select_leveled_sstables remaining build_all merge_sstables_safe deduplicate_entries
      create_new_sstables
  compact_level [] = some []
  compact_level (t ∷ ts) =
      let chosen = select_leveled_sstables (t ∷ ts) in
      elim (merge_sstables_safe read chosen) [
        | none ↦ none
        | some merged ↦
            elim (build_all build (
              create_new_sstables estimated_sstable_bytes target_size
                (deduplicate_entries merged))) [
                  | none ↦ none
                  | some outputs ↦ some (remaining chosen (t ∷ ts) ++ outputs)
                ]
      ]
