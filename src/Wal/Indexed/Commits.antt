-- ===== src/Wal/Indexed/Commits.antt =====
-- crates/f4kvs-lsm/src/storage/wal_indexed.rs: what a frame that is committed does to the entries
-- that the segment gives back.
use f4kvs_lsm.Base.{
  ℕ, zero, suc, ◌+◌, ◌-◌, ◌%◌, ◌<◌, ◌≡◌, refl, ap, sym, ◌∙◌, List, [], ◌∷◌, ◌++◌, length, take,
  replicate, max, arith, length-append, length-replicate, subst, append-nil,
}
use f4kvs_lsm.Base.Bytes.{take_before}
use f4kvs_lsm.Base.Words.{u32_mod}
use f4kvs_lsm.Wal.{WalEntry, Codec, records, AllReadable}
use f4kvs_lsm.Wal.Framing.{length-records}
use f4kvs_lsm.Wal.Manager.{Disk}
use f4kvs_lsm.Wal.Manager.Files.{AllBelow, AllBelow-le, write_file-new}
use f4kvs_lsm.Wal.Indexed.{
  IndexedWalSegment, IndexedLog, decode_frames, write_frame_file, frame_file_size, commit_frame,
  advance, u32_saturating_inc,
}
use f4kvs_lsm.Wal.Indexed.Frames.{FrameHolds, FramesHold, IsMarked, decoded_whole}
use f4kvs_lsm.Wal.Indexed.Decoding.{IsOver-zeros, decode_frames-records}

-- The file that `write_frame_file` writes for these bytes.
abbrev pub frame_file : ℕ → List ℕ → List ℕ
frame_file frame_size bytes = bytes ++ replicate (max frame_size (length bytes) - length bytes) 0

length-frame_file :
    (frame_size : ℕ) (bytes : List ℕ)
    → length (frame_file frame_size bytes) ≡ max frame_size (length bytes)
length-frame_file frame_size bytes = omega (
  arith,
  length-append {0} bytes (replicate (max frame_size (length bytes) - length bytes) 0),
  length-replicate {A = ℕ} (max frame_size (length bytes) - length bytes) 0,
)

pub write_frame_file-new :
    (s : IndexedWalSegment) (n : ℕ) (bytes : List ℕ)
    → AllBelow n s.frames
    → (write_frame_file s n bytes).frames ≡ (n, frame_file s.frame_size bytes) ∷ s.frames
unfolding write_frame_file frame_file_size
write_frame_file-new s n bytes b = write_file-new s.frames n (frame_file s.frame_size bytes) b

module _ {J : Type 0} (codec : Codec (WalEntry J)) where
  -- The frames 1 to n hold the entries, the next one is n + 1, and the header is about frame n.
  pub record IsCommitted (n : ℕ) (l : IndexedLog) (es : List (WalEntry J)) : Type 0 where
    pub next : l.segment.staging_frame ≡ n + 1
    pub frames : FramesHold codec l.segment.frame_size n l.segment.frames es
    pub mark : IsMarked codec l.state l.segment.frames

  pub FramesHold-AllBelow :
      (frame_size n : ℕ) (frames : Disk) (es : List (WalEntry J))
      → FramesHold codec frame_size n frames es
      → AllBelow (suc n) frames
  unfolding FramesHold
  FramesHold-AllBelow frame_size zero frames es (e, _) = rw e tt
  FramesHold-AllBelow frame_size (suc n) frames es (file, old, earlier, own, e, f, _, _) = rw e (
    omega arith,
    AllBelow-le (suc n) (suc (suc n)) old (omega arith)
        (FramesHold-AllBelow frame_size n old earlier f),
  )

  frame_file-FrameHolds :
      (frame_size : ℕ) (own : List (WalEntry J))
      → AllReadable codec u32_mod own
      → FrameHolds codec frame_size (frame_file frame_size (records codec own)) own
  frame_file-FrameHolds frame_size own r = record {
    pad = max frame_size (length (records codec own)) - length (records codec own);
    content = refl;
    sized = omega (arith, length-frame_file frame_size (records codec own));
    readable = r;
  }

  decoded_used :
      (frame_size : ℕ) (own : List (WalEntry J))
      → AllReadable codec u32_mod own
      → decode_frames codec
          (length (frame_file frame_size (records codec own)))
          (take (length (records codec own)) (frame_file frame_size (records codec own)))
        ≡ decode_frames codec
            (length (frame_file frame_size (records codec own)))
            (frame_file frame_size (records codec own))
  decoded_used frame_size own r =
      let bytes = records codec own in
      let file = frame_file frame_size bytes in
      let used : take (length bytes) file ≡ bytes ++ [] =
        take_before bytes (replicate (max frame_size (length bytes) - length bytes) 0) file
          (length bytes) refl refl
        ∙ sym (append-nil bytes) in
      ap (decode_frames codec (length file)) used
      ∙ decode_frames-records codec (length file) own [] r (IsOver-zeros codec 0)
          (omega (arith, length-frame_file frame_size bytes, length-records codec own))
      ∙ sym (decoded_whole codec frame_size file own (frame_file-FrameHolds frame_size own r))

  module _ (crc : List ℕ → ℕ) where
    marked_end :
        (n entries : ℕ) (l : IndexedLog) (own : List (WalEntry J))
        → AllReadable codec u32_mod own
        → length (records codec own) < u32_mod
        → decode_frames codec (length (frame_file l.segment.frame_size (records codec own))) (
            take
              (advance l.state (suc n) (length (records codec own)) entries).committed_offset
              (frame_file l.segment.frame_size (records codec own)))
          ≡ decode_frames codec
              (length (frame_file l.segment.frame_size (records codec own)))
              (frame_file l.segment.frame_size (records codec own))
    unfolding advance
    marked_end n entries l own r small =
        let file = frame_file l.segment.frame_size (records codec own) in
        let used : length (records codec own) % u32_mod ≡ length (records codec own) =
          omega (arith, small) in
        ap (λ k. decode_frames codec (length file) (take k file)) used
        ∙ decoded_used l.segment.frame_size own r

    -- A frame that is written behind the frames 1 to n, or over what stands there.
    pub commit_frame_behind :
        (n entries : ℕ) (l : IndexedLog) (old : Disk) (es own : List (WalEntry J))
        → l.segment.staging_frame ≡ n + 1
        → FramesHold codec l.segment.frame_size n old es
        → (write_frame_file l.segment (suc n) (records codec own)).frames
          ≡ (suc n, frame_file l.segment.frame_size (records codec own)) ∷ old
        → AllReadable codec u32_mod own
        → length (records codec own) < u32_mod
        → n + 2 < u32_mod
        → IsCommitted (suc n) (commit_frame crc l (suc n) (records codec own) entries) (es ++ own)
    unfolding commit_frame FramesHold IsMarked write_frame_file u32_saturating_inc advance
    commit_frame_behind n entries l old es own next frames disk r small few =
        let file = frame_file l.segment.frame_size (records codec own) in
        record {
          next = ground (arith, next, few);
          frames = (
            file,
            old,
            es,
            own,
            disk,
            frames,
            frame_file-FrameHolds l.segment.frame_size own r,
            refl,
          );
          mark =
              subst (IsMarked codec (advance l.state (suc n) (length (records codec own)) entries))
                (sym disk)
                (
                  refl,
                  omega (arith, length-frame_file l.segment.frame_size (records codec own)),
                  marked_end n entries l own r small,
                );
        }

    -- Committing the records of some entries as the next frame adds these entries at the end.
    pub commit_frame-IsCommitted :
        (n entries : ℕ) (l : IndexedLog) (es own : List (WalEntry J))
        → IsCommitted n l es
        → AllReadable codec u32_mod own
        → length (records codec own) < u32_mod
        → n + 2 < u32_mod
        → IsCommitted (suc n) (commit_frame crc l (suc n) (records codec own) entries) (es ++ own)
    commit_frame-IsCommitted n entries l es own c r small few =
        commit_frame_behind n entries l l.segment.frames es own c.next c.frames
          (write_frame_file-new l.segment (suc n) (records codec own)
            (FramesHold-AllBelow l.segment.frame_size n l.segment.frames es c.frames))
          r small few
