-- ===== src/Wal/Indexed/Writing.antt =====
-- crates/f4kvs-lsm/src/storage/wal_indexed.rs: `append_entry` and `append_entries_batch` of
-- IndexedWalSegment.
use f4kvs_lsm.Base.{
  ℕ, suc, ◌+◌, ◌-◌, Bool, true, false, ◌&&◌, ◌||◌, not, List, [], ◌∷◌, ◌++◌, length, if◌then◌else◌,
  ltb, ◌==◌,
}
use f4kvs_lsm.Base.Words.{u32_add}
use f4kvs_lsm.Wal.{WalEntry, Codec, record_bytes}
use f4kvs_lsm.Wal.Indexed.{
  IndexedLog, commit_frame, flush_staging, stage, is_empty, syncs_each, has_frame_capacity,
}

module _ {J : Type 0} (codec : Codec (WalEntry J)) (crc : List ℕ → ℕ) where
  -- An entry that is larger than a frame gets a file of its own.
  unfoldable pub append_large : IndexedLog → List ℕ → IndexedLog × Bool
  append_large l encoded =
      let (ready, done) =
        if not (is_empty l.segment.staging) then flush_staging crc l else (l, true) in
      if not done || not (has_frame_capacity ready.segment)
      then (ready, false)
      else (commit_frame crc ready ready.segment.staging_frame encoded 1, true)

  -- `false`: the segment is full, and the entry was not written.
  unfoldable pub append_entry : IndexedLog → WalEntry J → IndexedLog × Bool
  append_entry l e =
      let encoded = record_bytes codec e in
      let size = l.segment.frame_size in
      let (ready, done) =
        if not (is_empty l.segment.staging) && ltb size (length l.segment.staging + length encoded)
        then flush_staging crc l
        else (l, true) in
      let staged =
        stage ready (ready.segment.staging ++ encoded)
          (u32_add ready.segment.entries_in_staging 1) in
      if ltb size (length encoded)
      then append_large l encoded
      else if not done
      then (ready, false)
      else if is_empty ready.segment.staging && not (has_frame_capacity ready.segment)
      then (ready, false)
      else if is_empty ready.segment.staging && length encoded == size
      then flush_staging crc (stage ready encoded 1)
      else if syncs_each l.segment.sync_mode
      then flush_staging crc staged
      else (staged, true)

  -- The entry of a batch, which is not flushed behind it.
  unfoldable pub append_unsynced : IndexedLog → WalEntry J → IndexedLog × Bool
  append_unsynced l e =
      let encoded = record_bytes codec e in
      let size = l.segment.frame_size in
      let (ready, done) =
        if not (is_empty l.segment.staging) && ltb size (length l.segment.staging + length encoded)
        then flush_staging crc l
        else (l, true) in
      if ltb size (length encoded)
      then append_large l encoded
      else if not done
      then (ready, false)
      else if is_empty ready.segment.staging && not (has_frame_capacity ready.segment)
      then (ready, false)
      else (
        stage ready (ready.segment.staging ++ encoded) (u32_add ready.segment.entries_in_staging 1),
        true,
      )

  -- The loop over the batch: how many entries were taken, and whether it came to its end.
  unfoldable pub append_all : IndexedLog → List (WalEntry J) → IndexedLog × ℕ × Bool
  append_all l [] = (l, 0, true)
  append_all l (e ∷ es) =
      let (next, done) = append_unsynced l e in
      let (last, written, ended) = append_all next es in
      if done then (last, suc written, ended) else (next, 0, false)

  -- The log, and how many entries of the batch were written. The bytes that no frame is left for
  -- are taken back.
  unfoldable pub append_entries_batch : IndexedLog → List (WalEntry J) → IndexedLog × ℕ
  append_entries_batch l es =
      let (packed, written, ended) = append_all l es in
      let (flushed, done) = flush_staging crc packed in
      if not ended || is_empty packed.segment.staging
      then (packed, written)
      else if done
      then (flushed, written)
      else (stage flushed [] 0, written - flushed.segment.entries_in_staging)
