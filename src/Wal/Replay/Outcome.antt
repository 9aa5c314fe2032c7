-- ===== src/Wal/Replay/Outcome.antt =====
-- crates/f4kvs-lsm/src/core/engine.rs: what the reads of a key see after `recover_from_wal`.
use f4kvs_lsm.Base.{
  ℕ, ◌≤◌, ◌≡◌, refl, ◌∙◌, Bool, true, Option, none, some, List, [], ◌∷◌, ◌++◌, Key, key_eq,
  if◌then◌else◌, ltb, arith, Option-cases, inl, inr,
}
use f4kvs_lsm.Wal.{WalEntry, entry_timestamp, put, delete, flush, checkpoint}
use f4kvs_lsm.Wal.Replay.{
  checkpoint_time, last_checkpoint, later_than, entries_to_recover, apply_entry, apply_entries,
  recover_from_wal,
}
use f4kvs_lsm.Memtable
use f4kvs_lsm.Memtable.{Memtable, LookupResult, tombstone}
use f4kvs_lsm.Memtable.Lookup.{seen, lookup-put, lookup-delete}

module _ {J : Type 0} where
  -- What an entry says of a key, if it says something.
  abbrev pub says : WalEntry J → Key → Option (LookupResult J)
  says (put key value timestamp) q = if key_eq key q then some (seen value) else none
  says (delete key timestamp) q = if key_eq key q then some tombstone else none
  says (flush memtable_id timestamp) q = none
  says (checkpoint timestamp) q = none

  -- Whether recovery takes an entry at all, after the last checkpoint if there is one.
  abbrev pub is_taken : Option ℕ → WalEntry J → Bool
  is_taken none e = true
  is_taken (some timestamp) e = ltb timestamp (entry_timestamp e)

  -- The last word on a key: the log is searched from its end.
  abbrev pub last_word : Option ℕ → List (WalEntry J) → Key → Option (LookupResult J)
  last_word limit [] q = none
  last_word limit (e ∷ es) q = elim (last_word limit es q) [
    | none ↦ if is_taken limit e then says e q else none
    | some r ↦ some r
  ]

  abbrev pub or_before : Option (LookupResult J) → LookupResult J → LookupResult J
  or_before none before = before
  or_before (some r) before = r

  last_word-later_than :
      (timestamp : ℕ) (es : List (WalEntry J)) (q : Key)
      → last_word none (later_than timestamp es) q ≡ last_word (some timestamp) es q
  unfolding later_than
  last_word-later_than timestamp [] q = refl
  last_word-later_than timestamp (e ∷ es) q = ground (arith, last_word-later_than timestamp es q)

  last_checkpoint-append :
      (es fs : List (WalEntry J)) (c : ℕ)
      → last_checkpoint fs ≡ some c
      → last_checkpoint (es ++ fs) ≡ some c
  unfolding last_checkpoint
  last_checkpoint-append [] fs c h = h
  last_checkpoint-append (e ∷ es) fs c h = ground (arith, last_checkpoint-append es fs c h)

  later_than-append :
      (timestamp : ℕ) (es fs : List (WalEntry J))
      → later_than timestamp (es ++ fs) ≡ later_than timestamp es ++ later_than timestamp fs
  unfolding later_than
  later_than-append timestamp [] fs = refl
  later_than-append timestamp (e ∷ es) fs = ground (arith, later_than-append timestamp es fs)

module _ {J : Type 0} (json_len : J → ℕ) where
  lookup-apply_entry :
      (t : Memtable J) (e : WalEntry J) (q : Key)
      → Memtable.lookup (apply_entry json_len t e) q ≡ or_before (says e q) (Memtable.lookup t q)
  unfolding apply_entry
  lookup-apply_entry t (put key value timestamp) q =
      lookup-put json_len t key q value ∙ ground arith
  lookup-apply_entry t (delete key timestamp) q = lookup-delete json_len t key q ∙ ground arith
  lookup-apply_entry t (flush memtable_id timestamp) q = refl
  lookup-apply_entry t (checkpoint timestamp) q = refl

  lookup-apply_entries :
      (t : Memtable J) (es : List (WalEntry J)) (q : Key)
      → Memtable.lookup (apply_entries json_len t es) q
        ≡ or_before (last_word none es q) (Memtable.lookup t q)
  unfolding apply_entries
  lookup-apply_entries t [] q = refl
  lookup-apply_entries t (e ∷ es) q =
      ground (arith, lookup-apply_entries (apply_entry json_len t e) es q, lookup-apply_entry t e q)

  -- After recovery a read of a key in the memtable sees the last word on it among the entries of
  -- the log whose timestamp is strictly later than that of the last checkpoint, wherever they stand
  -- in the log, or among all entries if there is no checkpoint. Where those say nothing of the key,
  -- the read sees what it saw before.
  pub lookup-recover_from_wal :
      (t : Memtable J) (es : List (WalEntry J)) (q : Key)
      → Memtable.lookup (recover_from_wal json_len t es) q
        ≡ or_before (last_word (last_checkpoint es) es q) (Memtable.lookup t q)
  unfolding recover_from_wal entries_to_recover
  lookup-recover_from_wal t es q = elim (Option-cases (last_checkpoint es)) [
    | inl all ↦ ground (arith, all, lookup-apply_entries t es q)
    | inr (c, behind) ↦
        ground
          (arith, behind, lookup-apply_entries t (later_than c es) q, last_word-later_than c es q)
  ]

  -- What is logged behind a checkpoint with no later timestamp than it is not recovered: a put or
  -- a delete of the same second, for one.
  pub recover_from_wal_same_second :
      (t : Memtable J) (es : List (WalEntry J)) (e : WalEntry J) (c : ℕ)
      → entry_timestamp e ≤ c
      → checkpoint_time e ≡ none
      → recover_from_wal json_len t (es ++ checkpoint c ∷ e ∷ [])
        ≡ recover_from_wal json_len t (es ++ checkpoint c ∷ [])
  unfolding recover_from_wal entries_to_recover
  recover_from_wal_same_second t es e c late op =
      let with_e : last_checkpoint (es ++ checkpoint c ∷ e ∷ []) ≡ some c =
        last_checkpoint-append es (checkpoint c ∷ e ∷ []) c
          (unfold last_checkpoint in ground (arith, op)) in
      let without : last_checkpoint (es ++ checkpoint c ∷ []) ≡ some c =
        last_checkpoint-append es (checkpoint c ∷ []) c (unfold last_checkpoint in refl) in
      let tails : later_than c (checkpoint c ∷ e ∷ []) ≡ later_than c (checkpoint c ∷ []) =
        unfold later_than in ground (arith, late) in
      ground (
        arith,
        with_e,
        without,
        later_than-append c es (checkpoint c ∷ e ∷ []),
        later_than-append c es (checkpoint c ∷ []),
        tails,
      )
