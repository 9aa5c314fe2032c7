-- ===== src/Wal/Indexed/Packing.antt =====
-- crates/f4kvs-lsm/src/storage/wal_indexed.rs: what the loop of `append_entries_batch` does with one entry.
use f4kvs_lsm.Base.{
  ℕ, ◌+◌, ◌≤◌, ◌<◌, ◌≡◌, refl, ap, sym, ◌∙◌, List, [], ◌∷◌, ◌++◌, length, ltb, not, ◌&&◌,
  Bool-cases, if◌then◌else◌, arith, Bool, true, false, ◌⊎◌, inl, inr, subst, append-nil,
  append_assoc,
}
use f4kvs_lsm.Wal.{WalEntry, Codec, records, record_bytes}
use f4kvs_lsm.Base.Words.{u32_add}
use f4kvs_lsm.Wal.Framing.{length-records, length-record_bytes}
use f4kvs_lsm.Wal.Indexed.{IndexedLog, flush_staging, stage, is_empty, has_frame_capacity}
use f4kvs_lsm.Wal.Indexed.Writing.{append_large, append_unsynced}
use f4kvs_lsm.Wal.Indexed.Appends.{
  IsIndexed, IsFit, capacity, flush_staging-IsIndexed, stage-IsIndexed, frame_left,
  is_empty-record_bytes,
}
use f4kvs_lsm.Wal.Indexed.Entries.{append_large-IsSynced}

module _ {J : Type 0} (codec : Codec (WalEntry J)) where
  abbrev pub AllFit : List (WalEntry J) → Type 0
  AllFit [] = Unit {0}
  AllFit (e ∷ es) = IsFit codec e × AllFit es

  -- The entry is taken, into a frame or into the buffer, or no frame is left and the entries are
  -- what they were, all of them in frames.
  abbrev pub IsPacked : IndexedLog × Bool → List (WalEntry J) → WalEntry J → Type 0
  IsPacked r before e =
      ((l : IndexedLog) × (es : List (WalEntry J)) × (staged : List (WalEntry J)) × (r ≡ (l, true))
        × IsIndexed codec l es staged
        × (es ++ staged ≡ before ++ e ∷ []))
      ⊎ ((l : IndexedLog) × (r ≡ (l, false))
          × IsIndexed codec l before []
          × (has_frame_capacity l.segment ≡ false))

  module _ (crc : List ℕ → ℕ) where
    -- The log after the flush that makes room in the buffer.
    abbrev make_room : IndexedLog → List ℕ → IndexedLog × Bool
    make_room l encoded =
        if not (is_empty l.segment.staging)
          && ltb l.segment.frame_size (length l.segment.staging + length encoded)
        then flush_staging crc l
        else (l, true)

    abbrev IsReady : IndexedLog → List (WalEntry J) → List ℕ → Type 0
    IsReady l before encoded =
        (l' : IndexedLog) × (es : List (WalEntry J)) × (staged : List (WalEntry J)) × (make_room l
            encoded
          ≡ (l', true))
        × IsIndexed codec l' es staged
        × (es ++ staged ≡ before)
        × (length (records codec staged) + length encoded ≤ l'.segment.frame_size)

    make_room-empty :
        (l : IndexedLog) (encoded : List ℕ)
        → l.segment.staging ≡ []
        → make_room l encoded ≡ (l, true)
    unfolding is_empty
    make_room-empty l encoded e = ground (arith, e)

    make_room-flush :
        (l : IndexedLog) (encoded : List ℕ)
        → is_empty l.segment.staging ≡ false
        → l.segment.frame_size < length l.segment.staging + length encoded
        → make_room l encoded ≡ flush_staging crc l
    make_room-flush l encoded e h = ground (arith, e, h)

    make_room-kept :
        (l : IndexedLog) (encoded : List ℕ)
        → length l.segment.staging + length encoded ≤ l.segment.frame_size
        → make_room l encoded ≡ (l, true)
    make_room-kept l encoded h = ground (arith, h)

    make_room-IsReady :
        (l : IndexedLog) (es staged : List (WalEntry J)) (encoded : List ℕ)
        → IsIndexed codec l es staged
        → length encoded ≤ l.segment.frame_size
        → IsReady l (es ++ staged) encoded
    unfolding records
    make_room-IsReady l es [] encoded i h =
        (l, es, [], make_room-empty l encoded i.bytes, i, refl, omega (arith, h))
    make_room-IsReady l es (e ∷ staged) encoded i h =
        elim (Bool-cases (ltb l.segment.frame_size (length l.segment.staging + length encoded))) [
          | inl over ↦
              let (l', f, i', s) = flush_staging-IsIndexed codec crc l es (e ∷ staged) i in
              (
                l',
                es ++ e ∷ staged,
                [],
                make_room-flush l encoded
                      (ap is_empty i.bytes ∙ is_empty-record_bytes codec e (records codec staged))
                      (ground (arith, over))
                    ∙ f,
                i',
                append-nil (es ++ e ∷ staged),
                omega (arith, h, s),
              )
          | inr under ↦
              let fits : length l.segment.staging + length encoded ≤ l.segment.frame_size =
                ground (arith, under) in
              (
                l,
                es,
                e ∷ staged,
                make_room-kept l encoded fits,
                i,
                refl,
                omega (arith, fits, ap length i.bytes),
              )
        ]

    append_unsynced_large :
        (l : IndexedLog) (e : WalEntry J)
        → l.segment.frame_size < length (record_bytes codec e)
        → append_unsynced codec crc l e ≡ append_large codec crc l (record_bytes codec e)
    unfolding append_unsynced
    append_unsynced_large l e h = ground (arith, h)

    append_unsynced_after :
        (l l' : IndexedLog) (e : WalEntry J)
        → length (record_bytes codec e) ≤ l.segment.frame_size
        → make_room l (record_bytes codec e) ≡ (l', true)
        → append_unsynced codec crc l e ≡ (
            if is_empty l'.segment.staging && not (has_frame_capacity l'.segment)
            then (l', false)
            else (
              stage l'
                  (l'.segment.staging ++ record_bytes codec e)
                  (u32_add l'.segment.entries_in_staging 1),
              true,
            ))
    unfolding append_unsynced
    append_unsynced_after l l' e h r =
        let small : ltb l.segment.frame_size (length (record_bytes codec e)) ≡ false =
          ground (arith, h) in
        rw (r, small) refl

    added :
        (es staged before : List (WalEntry J)) (e : WalEntry J)
        → es ++ staged ≡ before
        → es ++ (staged ++ e ∷ []) ≡ before ++ e ∷ []
    added es staged before e p = sym (append_assoc es staged (e ∷ [])) ∙ ap (λ fs. fs ++ e ∷ []) p

    counted_next :
        (l : IndexedLog) (es staged : List (WalEntry J)) (e : WalEntry J)
        → IsIndexed codec l es staged
        → length (records codec staged) + length (record_bytes codec e) ≤ l.segment.frame_size
        → u32_add l.segment.entries_in_staging 1 ≡ length staged + 1
    counted_next l es staged e i room =
        let most = length-records codec staged in
        omega (arith, i.counted, i.within, i.size, room, most, length-record_bytes codec e)

    stage-IsPacked :
        (l l' : IndexedLog) (es staged before : List (WalEntry J)) (e : WalEntry J)
        (i : IsIndexed codec l' es staged)
        → i.frame < l'.segment.data_frame_count
        → IsFit codec e
        → length (records codec staged) + length (record_bytes codec e) ≤ l'.segment.frame_size
        → es ++ staged ≡ before
        → append_unsynced codec crc l e ≡ (
          stage l'
              (l'.segment.staging ++ record_bytes codec e)
              (u32_add l'.segment.entries_in_staging 1),
          true,
        )
        → IsPacked (append_unsynced codec crc l e) before e
    stage-IsPacked l l' es staged before e i left fit room p r = inl (
      stage l' (l'.segment.staging ++ record_bytes codec e)
          (u32_add l'.segment.entries_in_staging 1),
      es,
      staged ++ e ∷ [],
      r,
      stage-IsIndexed codec crc l' es staged e (u32_add l'.segment.entries_in_staging 1) i left fit
          room (counted_next l' es staged e i room),
      added es staged before e p,
    )

    make_room-IsPacked :
        (l l' : IndexedLog) (es staged before : List (WalEntry J)) (e : WalEntry J)
        → IsIndexed codec l' es staged
        → IsFit codec e
        → length (record_bytes codec e) ≤ l.segment.frame_size
        → length (records codec staged) + length (record_bytes codec e) ≤ l'.segment.frame_size
        → es ++ staged ≡ before
        → make_room l (record_bytes codec e) ≡ (l', true)
        → IsPacked (append_unsynced codec crc l e) before e
    unfolding records is_empty
    make_room-IsPacked l l' es [] before e i fit h room p r =
        let after = append_unsynced_after l l' e h r in
        elim (capacity l'.segment i.frame i.committed.next) [
          | inl (free, left) ↦
              stage-IsPacked l l' es [] before e i left fit room p (after ∙ ground (arith, free))
          | inr (full, _) ↦ inr (
            l',
            after ∙ ground (arith, full, i.bytes),
            subst (λ fs. IsIndexed codec l' fs []) (sym (append-nil es) ∙ p) i,
            full,
          )
        ]
    make_room-IsPacked l l' es (x ∷ staged) before e i fit h room p r =
        let after = append_unsynced_after l l' e h r in
        let busy : is_empty l'.segment.staging ≡ false =
          ap is_empty i.bytes ∙ is_empty-record_bytes codec x (records codec staged) in
        stage-IsPacked l l' es (x ∷ staged) before e i (frame_left codec l' es x staged i) fit room
          p (after ∙ ground (arith, busy))

    pub append_unsynced-IsPacked :
        (l : IndexedLog) (es staged : List (WalEntry J)) (e : WalEntry J)
        → IsIndexed codec l es staged
        → IsFit codec e
        → IsPacked (append_unsynced codec crc l e) (es ++ staged) e
    append_unsynced-IsPacked l es staged e i fit =
        elim (Bool-cases (ltb l.segment.frame_size (length (record_bytes codec e)))) [
          | inl large ↦ elim (append_large-IsSynced codec crc l es staged e i fit) [
            | inl (l', r, i') ↦ inl (
              l',
              (es ++ staged) ++ e ∷ [],
              [],
              append_unsynced_large l e (ground (arith, large)) ∙ r,
              i',
              append-nil ((es ++ staged) ++ e ∷ []),
            )
            | inr (l', r, i', full) ↦
                inr (l', append_unsynced_large l e (ground (arith, large)) ∙ r, i', full)
          ]
          | inr small ↦
              let h : length (record_bytes codec e) ≤ l.segment.frame_size =
                ground (arith, small) in
              let (l', es', staged', r, i', p, room) =
                make_room-IsReady l es staged (record_bytes codec e) i h in
              make_room-IsPacked l l' es' staged' (es ++ staged) e i' fit h room p r
        ]
