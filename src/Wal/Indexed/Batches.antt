-- ===== src/Wal/Indexed/Batches.antt =====
-- crates/f4kvs-lsm/src/storage/wal_indexed.rs: `append_entries_batch`, in every mode.
use f4kvs_lsm.Base.{
  ℕ, suc, ◌≡◌, refl, ap, sym, ◌∙◌, List, [], ◌∷◌, ◌++◌, length, take, Bool, true, false, ◌⊎◌, inl,
  inr, subst, append-nil, append_assoc,
}
use f4kvs_lsm.Base.Bytes.{take-append}
use f4kvs_lsm.Wal.{WalEntry, Codec, records}
use f4kvs_lsm.Wal.Indexed.{IndexedLog, flush_staging, is_empty, has_frame_capacity}
use f4kvs_lsm.Wal.Indexed.Writing.{append_unsynced, append_all, append_entries_batch}
use f4kvs_lsm.Wal.Indexed.Appends.{IsIndexed, flush_staging-IsIndexed, is_empty-record_bytes}
use f4kvs_lsm.Wal.Indexed.Packing.{AllFit, append_unsynced-IsPacked}

module _ {J : Type 0} (codec : Codec (WalEntry J)) where
  -- The loop took all entries, or it stopped behind `n` of them, which are in frames then, since
  -- no frame is left.
  abbrev IsPackedUpTo : IndexedLog × ℕ × Bool → List (WalEntry J) → List (WalEntry J) → Type 0
  IsPackedUpTo r before entries =
      ((l : IndexedLog) × (es : List (WalEntry J)) × (staged : List (WalEntry J)) × (r
          ≡ (l, length entries, true))
        × IsIndexed codec l es staged
        × (es ++ staged ≡ before ++ entries))
      ⊎ ((l : IndexedLog) × (n : ℕ) × (r ≡ (l, n, false))
          × IsIndexed codec l (before ++ take n entries) []
          × (has_frame_capacity l.segment ≡ false))

  module _ (crc : List ℕ → ℕ) where
    append_all_taken :
        (l l1 l2 : IndexedLog) (e : WalEntry J) (es : List (WalEntry J)) (n : ℕ) (ended : Bool)
        → append_unsynced codec crc l e ≡ (l1, true)
        → append_all codec crc l1 es ≡ (l2, n, ended)
        → append_all codec crc l (e ∷ es) ≡ (l2, suc n, ended)
    unfolding append_all
    append_all_taken l l1 l2 e es n ended r s = rw (r, s) refl

    append_all_refused :
        (l l1 : IndexedLog) (e : WalEntry J) (es : List (WalEntry J))
        → append_unsynced codec crc l e ≡ (l1, false)
        → append_all codec crc l (e ∷ es) ≡ (l1, 0, false)
    unfolding append_all
    append_all_refused l l1 e es r = rw r refl

    append_all_nil : (l : IndexedLog) → append_all codec crc l [] ≡ (l, 0, true)
    unfolding append_all
    append_all_nil l = refl

    append_all-IsPackedUpTo :
        (l : IndexedLog) (es staged before entries : List (WalEntry J))
        → IsIndexed codec l es staged
        → es ++ staged ≡ before
        → AllFit codec entries
        → IsPackedUpTo (append_all codec crc l entries) before entries
    append_all-IsPackedUpTo l es staged before [] i p fit =
        inl (l, es, staged, append_all_nil l, i, p ∙ sym (append-nil before))
    append_all-IsPackedUpTo l es staged before (e ∷ entries) i p (fit, fits) =
        elim (append_unsynced-IsPacked codec crc l es staged e i fit) [
          | inr (l1, r, i1, full) ↦ inr (
            l1,
            0,
            append_all_refused l l1 e entries r,
            subst (λ fs. IsIndexed codec l1 fs []) (p ∙ sym (append-nil before)) i1,
            full,
          )
          | inl (l1, es1, staged1, r, i1, p1) ↦
              elim (append_all-IsPackedUpTo l1 es1 staged1 (before ++ e ∷ []) entries i1
                (p1 ∙ ap (λ fs. fs ++ e ∷ []) p) fits) [
                  | inl (l2, es2, staged2, s, i2, p2) ↦ inl (
                    l2,
                    es2,
                    staged2,
                    append_all_taken l l1 l2 e entries (length entries) true r s,
                    i2,
                    p2 ∙ append_assoc before (e ∷ []) entries,
                  )
                  | inr (l2, n, s, i2, full) ↦ inr (
                    l2,
                    suc n,
                    append_all_taken l l1 l2 e entries n false r s,
                    subst (λ fs. IsIndexed codec l2 fs [])
                        (append_assoc before (e ∷ []) (take n entries)) i2,
                    full,
                  )
                ]
        ]

    batch_stopped :
        (l p : IndexedLog) (entries : List (WalEntry J)) (n : ℕ)
        → append_all codec crc l entries ≡ (p, n, false)
        → append_entries_batch codec crc l entries ≡ (p, n)
    unfolding append_entries_batch
    batch_stopped l p entries n r = rw r refl

    batch_clear :
        (l p : IndexedLog) (entries : List (WalEntry J)) (n : ℕ)
        → append_all codec crc l entries ≡ (p, n, true)
        → is_empty p.segment.staging ≡ true
        → append_entries_batch codec crc l entries ≡ (p, n)
    unfolding append_entries_batch
    batch_clear l p entries n r e = rw (r, e) refl

    batch_flushed :
        (l p l' : IndexedLog) (entries : List (WalEntry J)) (n : ℕ)
        → append_all codec crc l entries ≡ (p, n, true)
        → is_empty p.segment.staging ≡ false
        → flush_staging crc p ≡ (l', true)
        → append_entries_batch codec crc l entries ≡ (l', n)
    unfolding append_entries_batch
    batch_flushed l p l' entries n r e f = rw (r, e, f) refl

    take_all : (entries : List (WalEntry J)) → take (length entries) entries ≡ entries
    take_all entries =
        ap (take (length entries)) (sym (append-nil entries)) ∙ take-append entries []

    abbrev IsBatched : IndexedLog → List (WalEntry J) → List (WalEntry J) → Type 0
    IsBatched l before entries =
        (l' : IndexedLog) × (n : ℕ) × (append_entries_batch codec crc l entries ≡ (l', n))
        × IsIndexed codec l' (before ++ take n entries) []
        × ((n ≡ length entries) ⊎ (has_frame_capacity l'.segment ≡ false))

    batch_ended :
        (l p : IndexedLog) (es staged before entries : List (WalEntry J))
        → append_all codec crc l entries ≡ (p, length entries, true)
        → IsIndexed codec p es staged
        → es ++ staged ≡ before ++ entries
        → IsBatched l before entries
    unfolding records is_empty
    batch_ended l p es [] before entries r i q = (
      p,
      length entries,
      batch_clear l p entries (length entries) r (ap is_empty i.bytes),
      subst (λ fs. IsIndexed codec p fs [])
          (sym (append-nil es) ∙ q ∙ ap (λ fs. before ++ fs) (sym (take_all entries))) i,
      inl refl,
    )
    batch_ended l p es (x ∷ staged) before entries r i q =
        let (l', f, i', _) = flush_staging-IsIndexed codec crc p es (x ∷ staged) i in
        (
          l',
          length entries,
          batch_flushed l p l' entries (length entries) r
              (ap is_empty i.bytes ∙ is_empty-record_bytes codec x (records codec staged)) f,
          subst (λ fs. IsIndexed codec l' fs [])
              (q ∙ ap (λ fs. before ++ fs) (sym (take_all entries))) i',
          inl refl,
        )

    -- A batch, from an empty buffer and of entries that `bincode` reads back and that each fit a
    -- word with their size: as many of its first entries as the result says are in frames then,
    -- behind those that were there, and no byte stays in the buffer. These are all entries of the
    -- batch, or no frame is left.
    pub append_entries_batch-IsIndexed :
        (l : IndexedLog) (es entries : List (WalEntry J))
        → IsIndexed codec l es []
        → AllFit codec entries
        → (l' : IndexedLog) × (n : ℕ) × (append_entries_batch codec crc l entries ≡ (l', n))
          × IsIndexed codec l' (es ++ take n entries) []
          × ((n ≡ length entries) ⊎ (has_frame_capacity l'.segment ≡ false))
    append_entries_batch-IsIndexed l es entries i fit =
        elim (append_all-IsPackedUpTo l es [] es entries i (append-nil es) fit) [
          | inl (p, es1, staged1, r, i1, q) ↦ batch_ended l p es1 staged1 es entries r i1 q
          | inr (p, n, r, i1, full) ↦ (p, n, batch_stopped l p entries n r, i1, inr full)
        ]
