-- ===== src/Wal/Indexed/Resumed.antt =====
-- crates/f4kvs-lsm/src/storage/wal_indexed.rs: a segment that is opened again after a crash that
-- lost the last write of the index. `commit_volatile` does not sync the index, so that the frame
-- can be on the disk without it.
use f4kvs_lsm.Base.{
  ℕ, suc, ◌+◌, ◌<◌, ◌≡◌, ap, sym, subst, ◌∙◌, some, List, ◌∷◌, ◌++◌, length, arith, inl, inr,
}
use f4kvs_lsm.Base.Words.{u32_mod}
use f4kvs_lsm.Wal.{WalEntry, Codec, records, AllReadable}
use f4kvs_lsm.Wal.Manager.{write_file}
use f4kvs_lsm.Wal.Manager.Files.{write_file-head}
use f4kvs_lsm.Wal.Indexed.{
  IndexedLog, commit_frame, resume, open_existing, write_frame_file, frame_file_size,
  read_committed_entries, u32_saturating_inc,
}
use f4kvs_lsm.Wal.Indexed.Frames.{read_committed_entries-FramesHold, IsMarked-frame}
use f4kvs_lsm.Wal.Indexed.Commits.{
  IsCommitted, commit_frame-IsCommitted, commit_frame_behind, FramesHold-AllBelow,
  write_frame_file-new, frame_file,
}

-- The segment with the frame, and the index as it was before.
abbrev pub resumed : IndexedLog → IndexedLog → IndexedLog
resumed before after = record before {
  segment = resume after.segment.frames before.segment before.state;
}

-- The segment commits the bytes as the frame that it is at, as `flush_staging` does.
abbrev pub commit_next : (List ℕ → ℕ) → IndexedLog → List ℕ → ℕ → IndexedLog
commit_next crc l bytes count = commit_frame crc l l.segment.staging_frame bytes count

module _ {J : Type 0} (codec : Codec (WalEntry J)) (crc : List ℕ → ℕ) where
  frame_known :
      (n : ℕ) (l : IndexedLog) (es : List (WalEntry J))
      → IsCommitted codec n l es
      → l.state.committed_frame ≡ n
  frame_known n l es c =
      IsMarked-frame codec l.segment.frame_size n l.segment.frames es l.state c.frames c.mark

  resumed_next :
      (n k : ℕ) (l : IndexedLog) (es own : List (WalEntry J))
      → IsCommitted codec n l es
      → n + 2 < u32_mod
      → (resumed l (commit_frame crc l (suc n) (records codec own) k)).segment.staging_frame ≡ n + 1
  unfolding resume open_existing u32_saturating_inc
  resumed_next n k l es own c few = let known = frame_known n l es c in ground (arith, known, few)

  overwritten_frames :
      (n k : ℕ) (l : IndexedLog) (es own more : List (WalEntry J))
      → IsCommitted codec n l es
      → (write_frame_file
          (resumed l (commit_frame crc l (suc n) (records codec own) k)).segment
          (suc n)
          (records codec more)).frames
        ≡ (suc n, frame_file l.segment.frame_size (records codec more)) ∷ l.segment.frames
  unfolding write_frame_file frame_file_size resume open_existing commit_frame
  overwritten_frames n k l es own more c =
      let size = l.segment.frame_size in
      ap (λ d. write_file d (suc n) (frame_file size (records codec more)))
        (write_frame_file-new l.segment (suc n) (records codec own)
          (FramesHold-AllBelow codec size n l.segment.frames es c.frames))
      ∙ write_file-head l.segment.frames (suc n) (frame_file size (records codec more))
          (frame_file size (records codec own))

  recovered :
      (n k : ℕ) (l : IndexedLog) (es own : List (WalEntry J))
      → IsCommitted codec n l es
      → AllReadable codec u32_mod own
      → length (records codec own) < u32_mod
      → n + 2 < u32_mod
      → read_committed_entries codec
          (resumed l (commit_frame crc l (suc n) (records codec own) k)).segment
          l.state
        ≡ some (es ++ own)
  unfolding resume open_existing commit_frame write_frame_file
  recovered n k l es own c r small few =
      let after = commit_frame crc l (suc n) (records codec own) k in
      let kept = commit_frame-IsCommitted codec crc n k l es own c r small few in
      let known = frame_known n l es c in
      read_committed_entries-FramesHold codec (resumed l after).segment l.state (suc n) (es ++ own)
        kept.frames (inl (omega (arith, known)))

  overwritten :
      (n j k : ℕ) (l : IndexedLog) (es own more : List (WalEntry J))
      → IsCommitted codec n l es
      → AllReadable codec u32_mod more
      → length (records codec more) < u32_mod
      → n + 2 < u32_mod
      → let again = resumed l (commit_frame crc l (suc n) (records codec own) j) in
        let second = commit_frame crc again (suc n) (records codec more) k in
        read_committed_entries codec second.segment second.state ≡ some (es ++ more)
  unfolding resume open_existing
  overwritten n j k l es own more c s fits few =
      let again = resumed l (commit_frame crc l (suc n) (records codec own) j) in
      let second = commit_frame crc again (suc n) (records codec more) k in
      let kept : IsCommitted codec (suc n) second (es ++ more) =
        commit_frame_behind codec crc n k again l.segment.frames es more
          (resumed_next n j l es own c few) c.frames (overwritten_frames n j l es own more c) s fits
          few in
      read_committed_entries-FramesHold codec second.segment second.state (suc n) (es ++ more)
        kept.frames (inr kept.mark)

  -- A crash after a frame was written loses the write of the index, which is not synced. Recovery
  -- still finds the entries of the frame, but the segment that is opened again takes the number of
  -- that very frame for its next one: the next entries that it commits overwrite the frame, and a
  -- second recovery finds them in the place of the entries of the first. The entries are readable,
  -- and their bytes and the number of the frame fit their words.
  pub commit_frame_overwrites :
      (n j k : ℕ) (l : IndexedLog) (es own more : List (WalEntry J))
      → IsCommitted codec n l es
      → AllReadable codec u32_mod own
      → AllReadable codec u32_mod more
      → length (records codec own) < u32_mod
      → length (records codec more) < u32_mod
      → n + 2 < u32_mod
      → let again = resumed l (commit_next crc l (records codec own) j) in
        let second = commit_next crc again (records codec more) k in
        (read_committed_entries codec again.segment l.state ≡ some (es ++ own))
        × (again.segment.staging_frame ≡ l.segment.staging_frame)
        × (read_committed_entries codec second.segment second.state ≡ some (es ++ more))
  commit_frame_overwrites n j k l es own more c r s small fits few =
      let first : l.segment.staging_frame ≡ suc n = c.next ∙ omega arith in
      let again = resumed l (commit_frame crc l (suc n) (records codec own) j) in
      let next : again.segment.staging_frame ≡ suc n =
        resumed_next n j l es own c few ∙ omega arith in
      let second =
        subst
          (λ frame.
            let third = commit_frame crc again frame (records codec more) k in
            read_committed_entries codec third.segment third.state ≡ some (es ++ more))
          (sym next) (overwritten n j k l es own more c s fits few) in
      subst
        (λ frame.
          (read_committed_entries codec
              (resumed l (commit_frame crc l frame (records codec own) j)).segment l.state
            ≡ some (es ++ own))
          × ((resumed l (commit_frame crc l frame (records codec own) j)).segment.staging_frame
              ≡ frame)
          × (let again = resumed l (commit_frame crc l frame (records codec own) j) in
              let second = commit_next crc again (records codec more) k in
              read_committed_entries codec second.segment second.state ≡ some (es ++ more)))
        (sym first) (recovered n j l es own c r small few, next, second)
