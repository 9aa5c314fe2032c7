-- ===== src/Engine/Flush/Ends.antt =====
-- crates/f4kvs-lsm/src/core/engine.rs: the ways in which a flush can end.
use f4kvs_lsm.Base.{
  ℕ, ◌+◌, ◌%◌, ◌<◌, ◌≡◌, refl, sym, ap, ◌∙◌, subst, true, false, Option, some, List, [], ◌∷◌, ◌++◌,
  length, arith, Option-cases, lt→ltb, Bool-cases, inl, inr, ◌⊎◌,
}
use f4kvs_lsm.Base.BTreeMap.Sorted.{IsSorted}
use f4kvs_lsm.Base.Words.{u64_mod}
use f4kvs_lsm.Base.Sort.{IsOrdered, sort_by-IsOrdered}
use f4kvs_lsm.Value.{is_null}
use f4kvs_lsm.Memtable
use f4kvs_lsm.Memtable.{Memtable}
use f4kvs_lsm.Memtable.Scan.{LayerEntry, layer_of, get_all_entries}
use f4kvs_lsm.Sstable.{Entry, SsTable}
use f4kvs_lsm.Engine.{Engine}
use f4kvs_lsm.Engine.Flush.Entries.{layer_of-IsOrdered}
use f4kvs_lsm.Engine.Flush.{
  remove_at, stamp_entries, key_before, push_l0, first_timestamp, flush_memtable_entries_to_sstable,
  swap_out, drop_flushed, flush_memtable_internal, is_consistent, write_sorted,
}

List-cases {ℓ} : {A : Type ℓ} (xs : List A) → (xs ≡ []) ⊎ ((x : A) × (ys : List A) × (xs ≡ x ∷ ys))
List-cases [] = inl refl
List-cases (x ∷ ys) = inr (x, ys, refl)

remove_at-pushed {ℓ} :
    {A : Type ℓ} (xs : List A) (x : A) → remove_at (xs ++ x ∷ []) (length xs) ≡ xs
unfolding remove_at
remove_at-pushed [] x = refl
remove_at-pushed (y ∷ xs) x = ap (λ r. y ∷ r) (remove_at-pushed xs x)

module _ {J : Type 0} where
  -- The entries that a flush of the engine hands to the table.
  abbrev pub written : ℕ → Engine J → List (Entry J)
  written clashes e = stamp_entries (first_timestamp clashes e) (get_all_entries e.active)

  -- The engine after a flush whose table could not be written: `seq` is its sequence number.
  abbrev pub unwritten : Engine J → ℕ → Engine J
  unwritten e seq = record (swap_out e) { sequence_number = seq }

  abbrev pub emptied : Engine J → ℕ → Engine J
  emptied e seq = record e { active = Memtable.new e.active.config; sequence_number = seq }

  -- The engine after a flush that wrote the table `t`.
  abbrev pub flushed : Engine J → ℕ → SsTable J → Engine J
  flushed e seq t =
      push_l0 (record e { active = Memtable.new e.active.config; sequence_number = seq }) t

module _ {J : Type 0} (build : List (Entry J) → Option (SsTable J)) (clashes : ℕ) where
  write_sorted-cases :
      (e : Engine J) (es : List (LayerEntry J))
      → ((seq : ℕ) × (write_sorted build clashes e es
            ≡ (record e { sequence_number = seq }, false)))
        ⊎ ((seq : ℕ) × (t : SsTable J) × (build (stamp_entries (first_timestamp clashes e) es)
              ≡ some t)
            × (write_sorted build clashes e es
                ≡ (push_l0 (record e { sequence_number = seq }) t, true)))
  unfolding write_sorted
  write_sorted-cases e es =
      let start = first_timestamp clashes e in
      let seq = (start + length es) % u64_mod in
      elim (Option-cases (build (stamp_entries start es))) [
        | inl failed ↦ inl (seq, rw (failed, write_sorted) refl)
        | inr (t, done) ↦ elim (Bool-cases (is_consistent t)) [
          | inl good ↦ inr (seq, t, done, rw (done, write_sorted, good) refl)
          | inr bad ↦ inl (seq, rw (done, write_sorted, bad) refl)
        ]
      ]

  -- Entries that are in order already are written as they are.
  write-ordered :
      (e : Engine J) (x : LayerEntry J) (xs : List (LayerEntry J))
      → IsOrdered key_before (x ∷ xs)
      → flush_memtable_entries_to_sstable build clashes e (x ∷ xs)
        ≡ write_sorted build clashes e (x ∷ xs)
  unfolding flush_memtable_entries_to_sstable
  write-ordered e x xs o =
      ap (write_sorted build clashes e) (sort_by-IsOrdered key_before (x ∷ xs) o)

  flush-empty :
      (e : Engine J)
      → e.active.entry_count ≡ 0
      → flush_memtable_internal build clashes e
        ≡ (record e { active = Memtable.new e.active.config }, true)
  unfolding flush_memtable_internal
  flush-empty e z = rw z refl

  flush-full :
      (e : Engine J) {entries : List (LayerEntry J)}
      → 0 < e.active.entry_count
      → get_all_entries e.active ≡ entries
      → flush_memtable_internal build clashes e
        ≡ drop_flushed
            (length e.immutables)
            (flush_memtable_entries_to_sstable build clashes (swap_out e) entries)
  unfolding flush_memtable_internal
  flush-full e lt is = rw (lt→ltb 0 e.active.entry_count lt) (
      ap
        (λ es.
          drop_flushed (length e.immutables)
            (flush_memtable_entries_to_sstable build clashes (swap_out e) es))
        is)

  -- The three ways a flush can end, for the reads of a key.
  pub flush-cases :
      (e : Engine J)
      → IsSorted e.active.contents
      → e.active.entry_count ≡ length e.active.contents
      → (e.active.contents ≡ [])
          × ((flush_memtable_internal build clashes e).0
              ≡ record e { active = Memtable.new e.active.config })
        ⊎ ((seq : ℕ) × ((flush_memtable_internal build clashes e).0 ≡ unwritten e seq))
        ⊎ ((seq : ℕ) × (t : SsTable J) × (build (written clashes e) ≡ some t)
            × ((flush_memtable_internal build clashes e).0 ≡ flushed e seq t))
  unfolding get_all_entries layer_of swap_out first_timestamp drop_flushed push_l0
  flush-cases e s counted = elim (List-cases e.active.contents) [
    | inl bare ↦ inl (bare, ap (λ r. r.0) (flush-empty e (counted ∙ ap length bare)))
    | inr ((k, v), m, is) ↦
        let all : get_all_entries e.active ≡ (k, v, is_null v) ∷ layer_of m = ap layer_of is in
        let run =
          flush-full e (subst (λ n. 0 < n) (sym (counted ∙ ap length is)) (omega arith)) all
          ∙ ap (drop_flushed (length e.immutables)) (
              write-ordered (swap_out e) (k, v, is_null v) (layer_of m)
                (layer_of-IsOrdered ((k, v) ∷ m) (subst IsSorted is s))) in
        elim (write_sorted-cases (swap_out e) ((k, v, is_null v) ∷ layer_of m)) [
          | inl (seq, w) ↦
              inr (inl (seq, ap (λ r. r.0) (run ∙ ap (drop_flushed (length e.immutables)) w)))
          | inr (seq, t, b, w) ↦ inr (
              inr (
                seq,
                t,
                ap (λ es. build (stamp_entries (first_timestamp clashes e) es)) all ∙ b,
                ap (λ r. r.0) (run ∙ ap (drop_flushed (length e.immutables)) w)
                    ∙ ap (λ im. record (flushed e seq t) { immutables = im })
                        (remove_at-pushed e.immutables e.active),
              ))
        ]
  ]
