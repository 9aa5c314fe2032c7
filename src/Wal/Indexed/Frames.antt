-- ===== src/Wal/Indexed/Frames.antt =====
-- crates/f4kvs-lsm/src/storage/wal_indexed.rs: the frames of a segment give back the entries that
-- were written to them.
use f4kvs_lsm.Base.{
  ℕ, zero, suc, ◌≤◌, ◌<◌, ◌≡◌, refl, ap, sym, ◌∙◌, Option, some, List, [], ◌∷◌, ◌++◌, length, take,
  replicate, max, arith, length-append, ◌⊎◌, inl, inr, ltb, subst, append-nil, Bool-cases,
}
use f4kvs_lsm.Base.Bytes.{take-append}
use f4kvs_lsm.Base.Words.{u32_mod}
use f4kvs_lsm.Wal.{WalEntry, Codec, records, AllReadable}
use f4kvs_lsm.Wal.Framing.{length-records}
use f4kvs_lsm.Wal.Manager.{Disk, file_at, max_segment_id}
use f4kvs_lsm.Wal.Index.{WalIndexHeader}
use f4kvs_lsm.Wal.Indexed.Decoding.{IsOver-zeros, decode_frames-records}
use f4kvs_lsm.Wal.Indexed.{
  IndexedWalSegment, decode_frames, join, read_frame, read_frames, read_committed_entries,
}

narrower : (n last frame : ℕ) → (suc n < last) ⊎ (frame < last) → (n < last) ⊎ (frame < last)
narrower n last frame (inl l) = inl (omega (arith, l))
narrower n last frame (inr l) = inr l

module _ {J : Type 0} (codec : Codec (WalEntry J)) where
  -- The file of a frame: the records of its entries, with zeros up to the size of a frame at least.
  pub record FrameHolds (frame_size : ℕ) (file : List ℕ) (own : List (WalEntry J)) : Type 0 where
    pub pad : ℕ
    pub content : file ≡ records codec own ++ replicate pad 0
    pub sized : frame_size ≤ length file
    pub readable : AllReadable codec u32_mod own

  -- The frames 1 to n, the newest first, hold the entries.
  unfoldable pub FramesHold : ℕ → ℕ → Disk → List (WalEntry J) → Type 0
  FramesHold frame_size zero frames es = (frames ≡ []) × (es ≡ [])
  FramesHold frame_size (suc n) frames es =
      (file : List ℕ) × (old : Disk) × (earlier : List (WalEntry J)) × (own : List (WalEntry J))
      × (frames ≡ (suc n, file) ∷ old)
      × FramesHold frame_size n old earlier
      × FrameHolds frame_size file own
      × (es ≡ earlier ++ own)

  pub decoded_whole :
      (frame_size : ℕ) (file : List ℕ) (own : List (WalEntry J))
      → FrameHolds frame_size file own
      → decode_frames codec (length file) file ≡ some own
  decoded_whole frame_size file own f = rw f.content (
      decode_frames-records codec (length (records codec own ++ replicate f.pad 0)) own
        (replicate f.pad 0) f.readable (IsOver-zeros codec f.pad)
        (omega (
          arith,
          length-append {0} (records codec own) (replicate f.pad 0),
          length-records codec own,
        )))

  max_segment_id-FramesHold :
      (frame_size n : ℕ) (frames : Disk) (es : List (WalEntry J))
      → FramesHold frame_size n frames es
      → max_segment_id frames ≡ n
  unfolding FramesHold max_segment_id
  max_segment_id-FramesHold frame_size zero frames es (e, _) = rw e refl
  max_segment_id-FramesHold frame_size (suc n) frames es (file, old, earlier, own, e, f, _, _) =
      rw e (rw (max_segment_id-FramesHold frame_size n old earlier f) (omega arith))

  read_frame_older :
      (frame_size id i last : ℕ) (file : List ℕ) (old : Disk) (h : WalIndexHeader)
      → i < id
      → read_frame codec frame_size ((id, file) ∷ old) h last i
        ≡ read_frame codec frame_size old h last i
  unfolding read_frame file_at
  read_frame_older frame_size id i last file old h l = ground (arith, l)

  read_frames_older :
      (frame_size id n last : ℕ) (file : List ℕ) (old : Disk) (h : WalIndexHeader)
      → n < id
      → read_frames codec frame_size ((id, file) ∷ old) h last n
        ≡ read_frames codec frame_size old h last n
  unfolding read_frames
  read_frames_older frame_size id zero last file old h l = refl
  read_frames_older frame_size id (suc n) last file old h l =
      rw
        (
          read_frames_older frame_size id n last file old h (omega arith),
          read_frame_older frame_size id (suc n) last file old h l,
        )
        refl

  -- How many bytes of a frame are read, where not its end is what the index knows.
  read_frame_whole :
      (frame_size id last : ℕ) (file : List ℕ) (old : Disk) (h : WalIndexHeader)
      → frame_size ≤ length file
      → (id < last) ⊎ (h.committed_frame < last)
      → read_frame codec frame_size ((id, file) ∷ old) h last id
        ≡ decode_frames codec (length file) (take (length file) file)
  unfolding read_frame file_at
  read_frame_whole frame_size id last file old h l (inl c) = ground (arith, l, c)
  read_frame_whole frame_size id last file old h l (inr c) = ground (arith, l, c)

  joined :
      (o p : Option (List (WalEntry J))) (es fs : List (WalEntry J))
      → o ≡ some es
      → p ≡ some fs
      → join o p ≡ some (es ++ fs)
  unfolding join
  joined o p es fs a b = rw (a, b) refl

  take_all : (file : List ℕ) → take (length file) file ≡ file
  take_all file = ap (take (length file)) (sym (append-nil file)) ∙ take-append file []

  read_frame-FrameHolds :
      (frame_size id last : ℕ) (file : List ℕ) (old : Disk) (own : List (WalEntry J))
      (h : WalIndexHeader)
      → FrameHolds frame_size file own
      → (id < last) ⊎ (h.committed_frame < last)
      → read_frame codec frame_size ((id, file) ∷ old) h last id ≡ some own
  read_frame-FrameHolds frame_size id last file old own h f c =
      read_frame_whole frame_size id last file old h f.sized c
      ∙ ap (decode_frames codec (length file)) (take_all file)
      ∙ decoded_whole frame_size file own f

  read_frames-FramesHold :
      (frame_size n last : ℕ) (frames : Disk) (es : List (WalEntry J)) (h : WalIndexHeader)
      → FramesHold frame_size n frames es
      → (n < last) ⊎ (h.committed_frame < last)
      → read_frames codec frame_size frames h last n ≡ some es
  unfolding FramesHold read_frames join
  read_frames-FramesHold frame_size zero last frames es h (_, e) c = ap some (sym e)
  read_frames-FramesHold frame_size (suc n) last frames es h (file, old, earlier, own, e, f, g, a)
        c =
      ap (λ d. read_frames codec frame_size d h last (suc n)) e
      ∙ joined (read_frames codec frame_size ((suc n, file) ∷ old) h last n)
          (read_frame codec frame_size ((suc n, file) ∷ old) h last (suc n)) earlier own
          (read_frames_older frame_size (suc n) n last file old h (omega arith)
            ∙ read_frames-FramesHold frame_size n last old earlier h f
                (narrower n last h.committed_frame c))
          (read_frame-FrameHolds frame_size (suc n) last file old own h g c)
      ∙ ap some (sym a)

  -- The header is about the newest frame, and what it leaves out of it are no entries.
  unfoldable pub IsMarked : WalIndexHeader → Disk → Type 0
  IsMarked h [] = h.committed_frame ≡ 0
  IsMarked h ((id, file) ∷ old) =
      (h.committed_frame ≡ id)
      × (h.committed_offset ≤ length file)
      × (decode_frames codec (length file) (take h.committed_offset file)
          ≡ decode_frames codec (length file) file)

  read_frame_limited :
      (frame_size id : ℕ) (file : List ℕ) (old : Disk) (h : WalIndexHeader)
      → frame_size ≤ length file
      → h.committed_frame ≡ id
      → h.committed_offset ≤ length file
      → 0 < h.committed_offset
      → read_frame codec frame_size ((id, file) ∷ old) h id id
        ≡ decode_frames codec (length file) (take h.committed_offset file)
  unfolding read_frame file_at
  read_frame_limited frame_size id file old h l c o p = ground (arith, l, c, o, p)

  read_frame_unlimited :
      (frame_size id : ℕ) (file : List ℕ) (old : Disk) (h : WalIndexHeader)
      → frame_size ≤ length file
      → h.committed_offset ≡ 0
      → read_frame codec frame_size ((id, file) ∷ old) h id id
        ≡ decode_frames codec (length file) (take (length file) file)
  unfolding read_frame file_at
  read_frame_unlimited frame_size id file old h l z = ground (arith, l, z)

  read_frame_marked :
      (frame_size id : ℕ) (file : List ℕ) (old : Disk) (h : WalIndexHeader)
      → frame_size ≤ length file
      → IsMarked h ((id, file) ∷ old)
      → read_frame codec frame_size ((id, file) ∷ old) h id id
        ≡ decode_frames codec (length file) file
  unfolding IsMarked
  read_frame_marked frame_size id file old h l (c, o, d) =
      elim (Bool-cases (ltb 0 h.committed_offset)) [
        | inl pos ↦ read_frame_limited frame_size id file old h l c o (ground (arith, pos)) ∙ d
        | inr neg ↦
            read_frame_unlimited frame_size id file old h l (ground (arith, neg))
            ∙ ap (decode_frames codec (length file)) (take_all file)
      ]

  pub IsMarked-frame :
      (frame_size n : ℕ) (frames : Disk) (es : List (WalEntry J)) (h : WalIndexHeader)
      → FramesHold frame_size n frames es
      → IsMarked h frames
      → h.committed_frame ≡ n
  unfolding FramesHold IsMarked
  IsMarked-frame frame_size zero frames es h (e, _) m = subst (IsMarked h) e m
  IsMarked-frame frame_size (suc n) frames es h (file, old, earlier, own, e, _, _, _) m =
      let (c, _, _) = subst (IsMarked h) e m in c

  read_frames-IsMarked :
      (frame_size n : ℕ) (frames : Disk) (es : List (WalEntry J)) (h : WalIndexHeader)
      → FramesHold frame_size n frames es
      → IsMarked h frames
      → read_frames codec frame_size frames h n n ≡ some es
  unfolding FramesHold read_frames
  read_frames-IsMarked frame_size zero frames es h (_, e) m = ap some (sym e)
  read_frames-IsMarked frame_size (suc n) frames es h (file, old, earlier, own, e, f, g, a) m =
      ap (λ d. read_frames codec frame_size d h (suc n) (suc n)) e
      ∙ joined (read_frames codec frame_size ((suc n, file) ∷ old) h (suc n) n)
          (read_frame codec frame_size ((suc n, file) ∷ old) h (suc n) (suc n)) earlier own
          (read_frames_older frame_size (suc n) n (suc n) file old h (omega arith)
            ∙ read_frames-FramesHold frame_size n (suc n) old earlier h f (inl (omega arith)))
          (read_frame_marked frame_size (suc n) file old h g.sized (subst (IsMarked h) e m)
            ∙ decoded_whole frame_size file own g)
      ∙ ap some (sym a)

  -- A segment whose frames hold entries gives back just these, both where the header that is
  -- passed is about the newest frame and where it is from before that frame was written.
  pub read_committed_entries-FramesHold :
      (s : IndexedWalSegment) (h : WalIndexHeader) (n : ℕ) (es : List (WalEntry J))
      → FramesHold s.frame_size n s.frames es
      → (h.committed_frame < n) ⊎ IsMarked h s.frames
      → read_committed_entries codec s h ≡ some es
  unfolding read_committed_entries
  read_committed_entries-FramesHold s h n es f (inl c) =
      ap (λ m. read_frames codec s.frame_size s.frames h m m)
        (ap (max h.committed_frame) (max_segment_id-FramesHold s.frame_size n s.frames es f)
          ∙ omega (arith, c))
      ∙ read_frames-FramesHold s.frame_size n n s.frames es h f (inr c)
  read_committed_entries-FramesHold s h n es f (inr m) =
      let c : h.committed_frame ≡ n = IsMarked-frame s.frame_size n s.frames es h f m in
      ap (λ m. read_frames codec s.frame_size s.frames h m m)
        (ap (max h.committed_frame) (max_segment_id-FramesHold s.frame_size n s.frames es f)
          ∙ omega (arith, c))
      ∙ read_frames-IsMarked s.frame_size n s.frames es h f m
