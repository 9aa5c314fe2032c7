-- ===== src/Wal/Indexed/Appends.antt =====
-- crates/f4kvs-lsm/src/storage/wal_indexed.rs: the entries that a segment holds in its frames and
-- in its staging buffer, and what a flush and an append in the modes that sync each do to them.
use f4kvs_lsm.Base.{
  ℕ, zero, suc, ◌+◌, ◌-◌, ◌%◌, ◌≤◌, ◌<◌, ◌≡◌, refl, ap, sym, ◌∙◌, some, none, List, [], ◌∷◌, ◌++◌,
  length, ltb, not, Bool-cases, arith, length-append, Bool, true, false, ◌⊎◌, inl, inr, subst,
  append-nil, append_assoc, if◌then◌else◌,
}
use f4kvs_lsm.Base.Words.{u32_mod}
use f4kvs_lsm.Wal.{WalEntry, Codec, records, record_bytes, AllReadable, IsReadable}
use f4kvs_lsm.Wal.Framing.{records-append, AllReadable-append}
use f4kvs_lsm.Wal.Indexed.{
  IndexedWalSegment, IndexedLog, commit_frame, flush_staging, stage, is_empty, frames_remaining,
  has_frame_capacity, read_committed_entries, write_frame_file,
}
use f4kvs_lsm.Wal.Indexed.Writing.{append_large}
use f4kvs_lsm.Wal.Indexed.Frames.{read_committed_entries-FramesHold}
use f4kvs_lsm.Wal.Indexed.Commits.{IsCommitted, commit_frame-IsCommitted}

pub is_empty-record_bytes :
    {J : Type 0} (codec : Codec (WalEntry J)) (e : WalEntry J) (rest : List ℕ)
    → is_empty (record_bytes codec e ++ rest) ≡ false
unfolding is_empty record_bytes f4kvs_lsm.Base.Bytes.le_bytes
is_empty-record_bytes codec e rest = refl

pub capacity :
    (s : IndexedWalSegment) (n : ℕ)
    → s.staging_frame ≡ n + 1
    → ((has_frame_capacity s ≡ true) × (n < s.data_frame_count))
      ⊎ ((has_frame_capacity s ≡ false) × (s.data_frame_count ≤ n))
unfolding has_frame_capacity frames_remaining
capacity s n e = elim (Bool-cases (ltb n s.data_frame_count)) [
  | inl l ↦ inl (ground (arith, e, l), ground (arith, l))
  | inr l ↦ inr (ground (arith, e, l), ground (arith, l))
]

module _ {J : Type 0} (codec : Codec (WalEntry J)) where
  -- The frames hold the entries `es`, the staging buffer the entries `staged`, which another
  -- frame is left for.
  pub record IsIndexed (l : IndexedLog) (es staged : List (WalEntry J)) : Type 0 where
    pub frame : ℕ
    pub committed : IsCommitted codec frame l es
    pub bytes : l.segment.staging ≡ records codec staged
    pub counted : l.segment.entries_in_staging ≡ length staged
    pub room : (staged ≡ []) ⊎ (frame < l.segment.data_frame_count)
    pub within : length (records codec staged) ≤ l.segment.frame_size
    pub readable : AllReadable codec u32_mod staged
    pub small : l.segment.data_frame_count + 1 < u32_mod
    pub size : l.segment.frame_size < u32_mod

  pub frame_left :
      (l : IndexedLog) (es : List (WalEntry J)) (e : WalEntry J) (staged : List (WalEntry J))
      (i : IsIndexed l es (e ∷ staged))
      → i.frame < l.segment.data_frame_count
  frame_left l es e staged i = elim i.room [
    | inl none_staged ↦ ground (arith, none_staged)
    | inr left ↦ left
  ]

  -- The entry, with its size, fits a word of 32 bits.
  pub record IsFit (e : WalEntry J) : Type 0 where
    pub readable : IsReadable codec u32_mod e
    pub fits : length (record_bytes codec e) < u32_mod

  -- What recovery reads from the segment, the staging buffer left aside.
  pub read_committed_entries-IsIndexed :
      (l : IndexedLog) (es staged : List (WalEntry J))
      → IsIndexed l es staged
      → read_committed_entries codec l.segment l.state ≡ some es
  read_committed_entries-IsIndexed l es staged i =
      let c = i.committed in
      read_committed_entries-FramesHold codec l.segment l.state i.frame es c.frames (inr c.mark)

  records_snoc :
      (es : List (WalEntry J)) (e : WalEntry J)
      → records codec (es ++ e ∷ []) ≡ records codec es ++ record_bytes codec e
  unfolding records
  records_snoc es e =
      records-append codec es (e ∷ [])
      ∙ ap (λ bytes. records codec es ++ bytes) (append-nil (record_bytes codec e))

  module _ (crc : List ℕ → ℕ) where
    flush_nothing : (l : IndexedLog) → l.segment.staging ≡ [] → flush_staging crc l ≡ (l, true)
    unfolding flush_staging is_empty
    flush_nothing l e = ground (arith, e)

    flushed : IndexedLog → IndexedLog
    unfolding stage
    flushed l =
        stage
          (commit_frame crc l l.segment.staging_frame l.segment.staging
            l.segment.entries_in_staging)
          [] 0

    flush_something :
        (l : IndexedLog)
        → is_empty l.segment.staging ≡ false
        → has_frame_capacity l.segment ≡ true
        → flush_staging crc l ≡ (flushed l, true)
    unfolding flush_staging flushed stage
    flush_something l e c = ground (arith, e, c)

    commit_frame_next :
        (n entries : ℕ) (l : IndexedLog) (es own : List (WalEntry J)) (bytes : List ℕ)
        → IsCommitted codec n l es
        → bytes ≡ records codec own
        → AllReadable codec u32_mod own
        → length (records codec own) < u32_mod
        → n + 2 < u32_mod
        → IsCommitted codec
            (suc n)
            (commit_frame crc l l.segment.staging_frame bytes entries)
            (es ++ own)
    commit_frame_next n entries l es own bytes c b r small few =
        let id : suc n ≡ l.segment.staging_frame = omega (arith, c.next) in
        subst (λ m. IsCommitted codec (suc n) (commit_frame crc l m bytes entries) (es ++ own)) id
          (subst (λ x. IsCommitted codec (suc n) (commit_frame crc l (suc n) x entries) (es ++ own))
            (sym b) (commit_frame-IsCommitted codec crc n entries l es own c r small few))

    -- A committed frame, on a segment whose buffer is empty then.
    flushed-IsIndexed :
        (l : IndexedLog) (es staged : List (WalEntry J)) (i : IsIndexed l es staged)
        → i.frame < l.segment.data_frame_count
        → IsIndexed (flushed l) (es ++ staged) []
    unfolding flushed stage commit_frame write_frame_file records
    flushed-IsIndexed l es staged i room =
        let kept =
          commit_frame_next i.frame l.segment.entries_in_staging l es staged l.segment.staging
            i.committed i.bytes i.readable (omega (arith, i.within, i.size))
            (omega (arith, room, i.small)) in
        record {
          frame = suc i.frame;
          committed = record { next = kept.next; frames = kept.frames; mark = kept.mark };
          bytes = refl;
          counted = refl;
          room = inl refl;
          within = omega arith;
          readable = tt;
          small = i.small;
          size = i.size;
        }

    -- A flush puts the staged entries into a frame, and there is one for them.
    pub flush_staging-IsIndexed :
        (l : IndexedLog) (es staged : List (WalEntry J))
        → IsIndexed l es staged
        → (l' : IndexedLog) × (flush_staging crc l ≡ (l', true))
          × IsIndexed l' (es ++ staged) []
          × (l'.segment.frame_size ≡ l.segment.frame_size)
    unfolding records flushed stage commit_frame write_frame_file
    flush_staging-IsIndexed l es [] i =
        (l, flush_nothing l i.bytes, subst (λ fs. IsIndexed l fs []) (sym (append-nil es)) i, refl)
    flush_staging-IsIndexed l es (e ∷ staged) i =
        let left = frame_left l es e staged i in
        elim (capacity l.segment i.frame i.committed.next) [
          | inl (free, _) ↦ (
            flushed l,
            flush_something l
                (ap is_empty i.bytes ∙ is_empty-record_bytes codec e (records codec staged)) free,
            flushed-IsIndexed l es (e ∷ staged) i left,
            refl,
          )
          | inr (_, full) ↦ absurd (omega (arith, left, full))
        ]

    pub stage-IsIndexed :
        (l : IndexedLog) (es staged : List (WalEntry J)) (e : WalEntry J) (n : ℕ)
        (i : IsIndexed l es staged)
        → i.frame < l.segment.data_frame_count
        → IsFit e
        → length (records codec staged) + length (record_bytes codec e) ≤ l.segment.frame_size
        → n ≡ length staged + 1
        → IsIndexed (stage l (l.segment.staging ++ record_bytes codec e) n) es (staged ++ e ∷ [])
    unfolding stage
    stage-IsIndexed l es staged e n i left fit room c = record {
      frame = i.frame;
      committed = record {
        next = i.committed.next;
        frames = i.committed.frames;
        mark = i.committed.mark;
      };
      bytes = ap (λ bytes. bytes ++ record_bytes codec e) i.bytes ∙ sym (records_snoc staged e);
      counted = c ∙ omega (arith, length-append {0} staged (e ∷ []));
      room = inr left;
      within = omega (
        arith,
        room,
        ap length (records_snoc staged e),
        length-append {0} (records codec staged) (record_bytes codec e),
      );
      readable = AllReadable-append codec u32_mod staged (e ∷ []) i.readable (fit.readable, tt);
      small = i.small;
      size = i.size;
    }

    -- A frame of its own for an entry, behind an empty buffer.
    pub alone-IsIndexed :
        (l : IndexedLog) (es : List (WalEntry J)) (e : WalEntry J) (i : IsIndexed l es [])
        → i.frame < l.segment.data_frame_count
        → IsFit e
        → IsIndexed
            (commit_frame crc l l.segment.staging_frame (record_bytes codec e) 1)
            (es ++ e ∷ [])
            []
    unfolding commit_frame write_frame_file records
    alone-IsIndexed l es e i left fit =
        let bytes : record_bytes codec e ≡ record_bytes codec e ++ [] =
          sym (append-nil (record_bytes codec e)) in
        let kept =
          commit_frame_next i.frame 1 l es (e ∷ []) (record_bytes codec e) i.committed bytes
            (fit.readable, tt) (omega (arith, fit.fits, ap length bytes))
            (omega (arith, left, i.small)) in
        record {
          frame = suc i.frame;
          committed = record { next = kept.next; frames = kept.frames; mark = kept.mark };
          bytes = i.bytes;
          counted = i.counted;
          room = inl refl;
          within = i.within;
          readable = tt;
          small = i.small;
          size = i.size;
        }

    cleared :
        (l : IndexedLog)
        → (if not (is_empty l.segment.staging) then flush_staging crc l else (l, true))
          ≡ flush_staging crc l
    unfolding flush_staging
    cleared l = elim (Bool-cases (is_empty l.segment.staging)) [
      | inl e ↦ ground (arith, e)
      | inr e ↦ ground (arith, e)
    ]

    pub append_large_after :
        (l l' : IndexedLog) (encoded : List ℕ)
        → flush_staging crc l ≡ (l', true)
        → append_large codec crc l encoded ≡ (
            if not (has_frame_capacity l'.segment)
            then (l', false)
            else (commit_frame crc l' l'.segment.staging_frame encoded 1, true))
    unfolding append_large
    append_large_after l l' encoded f = rw (cleared l, f) refl
