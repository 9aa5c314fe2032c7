-- ===== src/Wal/Manager/Batches.antt =====
-- crates/f4kvs-lsm/src/storage/wal.rs: what a batch does to the log.
use f4kvs_lsm.Base.{
  ℕ, ◌+◌, ◌%◌, ◌≤◌, ◌<◌, ◌≡◌, refl, sym, ◌∙◌, Bool, true, false, some, List, [], ◌∷◌, ◌++◌, length,
  if◌then◌else◌, arith, append-nil, subst,
}
use f4kvs_lsm.Base.Words.{u64_mod, u32_mod}
use f4kvs_lsm.Wal.{WalEntry, Codec, records, AllReadable}
use f4kvs_lsm.Wal.Segment.{WalSegment, WalSegmentHeader, write_header}
use f4kvs_lsm.Wal.Manager.{
  WalManager, contents_at, rotate_segment, store, append_batch, batch_write_entries, is_full,
  overflows,
}
use f4kvs_lsm.Wal.Manager.Log.{IsLog, store-IsLogAt}
use f4kvs_lsm.Wal.Manager.Writes.{contents-IsLogAt, counted, counted-IsHeader, rotated}
use f4kvs_lsm.Wal.Manager.Files.{IsHeaderCodec, FileHolds-append, FileHolds-overwrite}

module _ {J : Type 0} (codec : Codec (WalEntry J)) (headers : Codec WalSegmentHeader)
    (lawful : IsHeaderCodec headers) where
  segment_counter-rotate :
      (now : ℕ) (m : WalManager)
      → m.segment_counter + 1 < u64_mod
      → (rotate_segment codec headers now m).segment_counter ≡ m.segment_counter + 1
  unfolding rotate_segment
  segment_counter-rotate now m h = omega arith

  -- A rotation that is made on a test keeps the log.
  maybe_rotated :
      (b : Bool) (now : ℕ) (m : WalManager) (es : List (WalEntry J))
      → IsLog codec headers lawful m es
      → now < u64_mod
      → m.segment_counter + 1 < u64_mod
      → IsLog codec headers lawful (if b then rotate_segment codec headers now m else m) es
        × ((if b then rotate_segment codec headers now m else m).segment_size ≡ m.segment_size)
        × ((if b then rotate_segment codec headers now m else m).segment_counter
            ≤ m.segment_counter + 1)
  maybe_rotated true now m es (s, file, l) n small =
      let (t, file', l', empty, size) = rotated codec headers lawful now m s file es l n small in
      ((t, file', l'), size, omega (arith, segment_counter-rotate now m small))
  maybe_rotated false now m es log n small = (log, refl, omega arith)

  append_batch-eq :
      (m : WalManager) (s : WalSegment) (file : List ℕ) (es : List (WalEntry J))
      → m.current_segment ≡ some s
      → contents_at m.disk s.path ≡ file
      → append_batch codec headers m es
        ≡ some (
            store codec headers m
              (counted codec headers lawful s ((s.entry_count + length es) % u32_mod))
              (write_header headers
                (counted codec headers lawful s ((s.entry_count + length es) % u32_mod))
                (file ++ records codec es)))
  unfolding append_batch
  append_batch-eq m s file es c d = ground (arith, c, d)

  append_batch-IsLog :
      (m : WalManager) (es fs : List (WalEntry J))
      → IsLog codec headers lawful m es
      → AllReadable codec m.segment_size fs
      → (m' : WalManager) × (append_batch codec headers m fs ≡ some m')
        × IsLog codec headers lawful m' (es ++ fs)
        × (m'.segment_size ≡ m.segment_size)
        × (m'.segment_counter ≡ m.segment_counter)
  unfolding write_header store
  append_batch-IsLog m es fs (s, file, l) r =
      let n = (s.entry_count + length fs) % u32_mod in
      let next = counted codec headers lawful s n in
      let head = counted-IsHeader codec headers lawful s n l.head (omega arith) in
      let grown = file ++ records codec fs in
      let file' = write_header headers next grown in
      (
        store codec headers m next file',
        append_batch-eq m s file fs l.current (contents-IsLogAt codec headers lawful m s file es l),
        (
          next,
          file',
          store-IsLogAt codec headers lawful m s next file file' es fs l refl refl head (
              FileHolds-overwrite codec headers lawful m.segment_size grown (l.own ++ fs) []
                next.header
                (FileHolds-append codec headers lawful m.segment_size file l.own fs l.here r) head),
        ),
        refl,
        refl,
      )

  pub batch_written :
      (now : ℕ) (m : WalManager) (es fs : List (WalEntry J))
      → IsLog codec headers lawful m es
      → AllReadable codec m.segment_size fs
      → now < u64_mod
      → m.segment_counter + 2 < u64_mod
      → (m' : WalManager) × (batch_write_entries codec headers now m fs ≡ some m')
        × IsLog codec headers lawful m' (es ++ fs)
        × (m'.segment_size ≡ m.segment_size)
        × (m'.segment_counter ≤ m.segment_counter + 2)
  unfolding batch_write_entries
  batch_written now m es [] l r n small =
      (m, refl, subst (IsLog codec headers lawful m) (sym (append-nil es)) l, refl, omega arith)
  batch_written now m es (f ∷ fs) l r n small =
      let emptied = if is_full m then rotate_segment codec headers now m else m in
      let (l1, z1, c1) = maybe_rotated (is_full m) now m es l n (omega arith) in
      let (l2, z2, c2) =
        maybe_rotated (overflows codec headers emptied (f ∷ fs)) now emptied es l1 n
          (omega (arith, c1)) in
      let (m', w, log, z3, c3) =
        append_batch-IsLog
          (if overflows codec headers emptied (f ∷ fs)
            then rotate_segment codec headers now emptied
            else emptied)
          es (f ∷ fs) l2 (subst (λ limit. AllReadable codec limit (f ∷ fs)) (sym z1 ∙ sym z2) r) in
      (m', w, log, z3 ∙ z2 ∙ z1, omega (arith, c1, c2, c3))

  -- Every batch whose entries are readable one by one, however large it is as a whole, stands at
  -- the end of the log once `batch_write_entries` returns, as it does, while the time and the
  -- numbers of the next two segments fit their words.
  pub batch_write_entries-IsLog :
      (now : ℕ) (m : WalManager) (es fs : List (WalEntry J))
      → IsLog codec headers lawful m es
      → AllReadable codec m.segment_size fs
      → now < u64_mod
      → m.segment_counter + 2 < u64_mod
      → (m' : WalManager) × (batch_write_entries codec headers now m fs ≡ some m')
        × IsLog codec headers lawful m' (es ++ fs)
  batch_write_entries-IsLog now m es fs l r n small =
      let (m', w, log, _, _) = batch_written now m es fs l r n small in (m', w, log)
