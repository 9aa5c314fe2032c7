-- ===== src/Wal/Indexed/Entries.antt =====
-- crates/f4kvs-lsm/src/storage/wal_indexed.rs: `append_entry` where each entry is synced.
use f4kvs_lsm.Base.{
  ℕ, ◌≤◌, ◌<◌, ◌≡◌, refl, ap, sym, ◌∙◌, List, [], ◌∷◌, ◌++◌, length, ltb, Bool-cases, arith, Bool,
  true, false, ◌⊎◌, inl, inr, subst, append-nil,
}
use f4kvs_lsm.Wal.{WalEntry, Codec, records, record_bytes}
use f4kvs_lsm.Wal.Indexed.{
  IndexedLog, commit_frame, flush_staging, stage, is_empty, syncs_each, has_frame_capacity,
}
use f4kvs_lsm.Wal.Indexed.Writing.{append_large, append_entry}
use f4kvs_lsm.Wal.Indexed.Appends.{
  IsIndexed, IsFit, capacity, flush_staging-IsIndexed, stage-IsIndexed, alone-IsIndexed,
  append_large_after,
}

module _ {J : Type 0} (codec : Codec (WalEntry J)) where
  -- The entry is taken and committed, or no frame is left and the entries are what they were; no
  -- byte stays in the buffer.
  abbrev pub IsSynced : IndexedLog × Bool → List (WalEntry J) → WalEntry J → Type 0
  IsSynced r before e =
      ((l : IndexedLog) × (r ≡ (l, true)) × IsIndexed codec l (before ++ e ∷ []) [])
      ⊎ ((l : IndexedLog) × (r ≡ (l, false))
          × IsIndexed codec l before []
          × (has_frame_capacity l.segment ≡ false))

  module _ (crc : List ℕ → ℕ) where
    pub append_large-IsSynced :
        (l : IndexedLog) (es staged : List (WalEntry J)) (e : WalEntry J)
        → IsIndexed codec l es staged
        → IsFit codec e
        → IsSynced (append_large codec crc l (record_bytes codec e)) (es ++ staged) e
    append_large-IsSynced l es staged e i fit =
        let (l', f, i', _) = flush_staging-IsIndexed codec crc l es staged i in
        let after = append_large_after codec crc l l' (record_bytes codec e) f in
        elim (capacity l'.segment i'.frame i'.committed.next) [
          | inl (free, left) ↦ inl (
            commit_frame crc l' l'.segment.staging_frame (record_bytes codec e) 1,
            after ∙ ground (arith, free),
            alone-IsIndexed codec crc l' (es ++ staged) e i' left fit,
          )
          | inr (full, _) ↦ inr (l', after ∙ ground (arith, full), i', full)
        ]

    append_entry_large :
        (l : IndexedLog) (e : WalEntry J)
        → l.segment.frame_size < length (record_bytes codec e)
        → append_entry codec crc l e ≡ append_large codec crc l (record_bytes codec e)
    unfolding append_entry
    append_entry_large l e h = ground (arith, h)

    append_entry_full :
        (l : IndexedLog) (e : WalEntry J)
        → length (record_bytes codec e) ≤ l.segment.frame_size
        → l.segment.staging ≡ []
        → has_frame_capacity l.segment ≡ false
        → append_entry codec crc l e ≡ (l, false)
    unfolding append_entry is_empty
    append_entry_full l e h s c = ground (arith, h, s, c)

    append_entry_staged :
        (l : IndexedLog) (e : WalEntry J)
        → length (record_bytes codec e) ≤ l.segment.frame_size
        → l.segment.staging ≡ []
        → l.segment.entries_in_staging ≡ 0
        → has_frame_capacity l.segment ≡ true
        → syncs_each l.segment.sync_mode ≡ true
        → append_entry codec crc l e ≡ flush_staging crc (stage l (record_bytes codec e) 1)
    unfolding append_entry is_empty
    append_entry_staged l e h s n c m = ground (arith, h, s, n, c, m)

    staged_alone :
        (l : IndexedLog) (es : List (WalEntry J)) (e : WalEntry J) (i : IsIndexed codec l es [])
        → i.frame < l.segment.data_frame_count
        → IsFit codec e
        → length (record_bytes codec e) ≤ l.segment.frame_size
        → IsIndexed codec (stage l (record_bytes codec e) 1) es (e ∷ [])
    unfolding records
    staged_alone l es e i left fit h =
        subst (λ bytes. IsIndexed codec (stage l bytes 1) es (e ∷ []))
          (ap (λ s. s ++ record_bytes codec e) i.bytes)
          (stage-IsIndexed codec crc l es [] e 1 i left fit (omega (arith, h)) refl)

    small_IsSynced :
        (l : IndexedLog) (es : List (WalEntry J)) (e : WalEntry J)
        → IsIndexed codec l es []
        → IsFit codec e
        → syncs_each l.segment.sync_mode ≡ true
        → length (record_bytes codec e) ≤ l.segment.frame_size
        → IsSynced (append_entry codec crc l e) es e
    unfolding records
    small_IsSynced l es e i fit each h = elim (capacity l.segment i.frame i.committed.next) [
      | inl (free, left) ↦
          let (l', f, i', _) =
            flush_staging-IsIndexed codec crc (stage l (record_bytes codec e) 1) es (e ∷ [])
              (staged_alone l es e i left fit h) in
          inl (l', append_entry_staged l e h i.bytes i.counted free each ∙ f, i')
      | inr (full, _) ↦ inr (l, append_entry_full l e h i.bytes full, i, full)
    ]

    -- In the modes that sync each entry, from an empty buffer, and of an entry that `bincode`
    -- reads back and that fits a word with its size: `append_entry` either takes the entry, which
    -- is then the last one in the frames, or says that the segment is full, as it is then, and
    -- leaves the entries of the frames as they were.
    pub append_entry-IsSynced :
        (l : IndexedLog) (es : List (WalEntry J)) (e : WalEntry J)
        → IsIndexed codec l es []
        → IsFit codec e
        → syncs_each l.segment.sync_mode ≡ true
        → IsSynced (append_entry codec crc l e) es e
    append_entry-IsSynced l es e i fit each =
        elim (Bool-cases (ltb l.segment.frame_size (length (record_bytes codec e)))) [
          | inl large ↦
              subst (λ r. IsSynced r es e) (sym (append_entry_large l e (ground (arith, large))))
                (subst (λ fs. IsSynced (append_large codec crc l (record_bytes codec e)) fs e)
                  (append-nil es) (append_large-IsSynced l es [] e i fit))
          | inr small ↦ small_IsSynced l es e i fit each (ground (arith, small))
        ]
