-- ===== src/Compaction/Outputs.antt =====
-- crates/f4kvs-lsm/src/compaction/manager.rs: what a merge of tables writes, from what it reads.
use f4kvs_lsm.Base.{
  ℕ, ◌<◌, ◌≡◌, refl, ap, ◌∙◌, some, List, [], ◌∷◌, Key, arith, Bool-cases, inl, inr, some-injective,
  sym,
}
use f4kvs_lsm.Base.Sort.{sort_by, insert_by}
use f4kvs_lsm.Base.Words.{u64_mod}
use f4kvs_lsm.Sstable.{Entry, SsTable}
use f4kvs_lsm.Sstable.Lookup.{find}
use f4kvs_lsm.Compaction.{
  before, collect_entries, merge_sstables_safe, deduplicate_entries, create_new_sstables,
}
use f4kvs_lsm.Compaction.Newest.{newest, live, before-same, find-deduplicate_entries}
use f4kvs_lsm.Compaction.Chunks.{flatten, total, create_new_sstables-chunks}

module _ {J : Type 0} where
  newest-insert :
      (x : Entry J) (es : List (Entry J)) (q : Key)
      → newest (insert_by before x es) q ≡ newest (x ∷ es) q
  unfolding insert_by
  newest-insert x [] q = refl
  newest-insert x (y ∷ es) q = elim (Bool-cases (before y x)) [
    | inl first ↦ rw (first, newest-insert x es q) (ground (arith, before-same y x q first))
    | inr after ↦ rw after refl
  ]

  -- Sorting changes no newest entry.
  newest-sort : (es : List (Entry J)) (q : Key) → newest (sort_by before es) q ≡ newest es q
  unfolding sort_by
  newest-sort [] q = refl
  newest-sort (e ∷ es) q = newest-insert e (sort_by before es) q ∙ rw (newest-sort es q) refl

module _ {J : Type 0} (read : SsTable J → List (Entry J)) (estimated_sstable_bytes : Entry J → ℕ)
    (target_size : ℕ) where
  -- Where the tables of a merge can be read, and the estimates of what is kept sum up within a
  -- `usize`, the new tables hold of each key the newest entry that was read, the first one where
  -- several have its timestamp, and nothing where that entry is a tombstone.
  pub find-merged :
      (ts : List (SsTable J)) (es merged : List (Entry J)) (q : Key)
      → collect_entries read ts ≡ some es
      → merge_sstables_safe read ts ≡ some merged
      → total estimated_sstable_bytes (deduplicate_entries merged) < u64_mod
      → find
          (flatten
            (create_new_sstables estimated_sstable_bytes target_size (deduplicate_entries merged)))
          q
        ≡ live (newest es q)
  unfolding merge_sstables_safe
  find-merged ts es merged q c m room =
      let (kept, _, _) =
        create_new_sstables-chunks estimated_sstable_bytes target_size (deduplicate_entries merged)
          room in
      let sorted : merged ≡ sort_by before es =
        some-injective _ _ (sym m ∙ rw (c, merge_sstables_safe) refl) in
      ap (λ l. find l q) kept
      ∙ find-deduplicate_entries merged q
      ∙ ap live (ap (λ l. newest l q) sorted ∙ newest-sort es q)
