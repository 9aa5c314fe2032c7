-- ===== src/Wal/Manager/Writes.antt =====
-- crates/f4kvs-lsm/src/storage/wal.rs: what a write does to the log.
use f4kvs_lsm.Base.{
  ℕ, ◌+◌, ◌≤◌, ◌<◌, ◌≡◌, refl, ap, sym, ◌∙◌, Bool, true, false, some, List, [], ◌∷◌, ◌++◌, length,
  leb, arith, append-nil, length-append, Bool-cases, inl, inr, subst, ◌⊎◌,
}
use f4kvs_lsm.Base.Words.{u64_mod, u32_mod, u32_add}
use f4kvs_lsm.Wal.{WalEntry, Codec, records, record_bytes, IsReadable}
use f4kvs_lsm.Wal.Segment
use f4kvs_lsm.Wal.Segment.{
  WalSegment, WalSegmentHeader, header_of, header_size, write_header, should_rotate,
}
use f4kvs_lsm.Wal.Manager.{WalManager, contents_at, rotate_segment, store, try_write, write_entry}
use f4kvs_lsm.Wal.Manager.Log.{IsLogAt, IsLog, store-IsLogAt, rotate-IsLogAt, fresh, fresh_file}
use f4kvs_lsm.Wal.Manager.Files.{
  IsHeader, IsHeaderCodec, FileHolds, FileHolds-append, contents_at-head, header_of-IsHeader,
}

module _ {J : Type 0} (codec : Codec (WalEntry J)) (headers : Codec WalSegmentHeader)
    (lawful : IsHeaderCodec headers) where
  pub contents-IsLogAt :
      (m : WalManager) (s : WalSegment) (file : List ℕ) (es : List (WalEntry J))
      → IsLogAt codec headers lawful m s file es
      → contents_at m.disk s.path ≡ file
  contents-IsLogAt m s file es l =
      ap (λ d. contents_at d s.path) l.disk ∙ contents_at-head l.old s.path file

  -- The segment after it took an entry.
  abbrev pub counted : WalSegment → ℕ → WalSegment
  counted s count = record s {
    entry_count = count;
    header = record (s.header) { entry_count = count };
  }

  pub counted-IsHeader :
      (s : WalSegment) (n : ℕ) → IsHeader s.header → n < u32_mod → IsHeader (counted s n).header
  counted-IsHeader s n h l = record {
    magical = h.magical;
    versioned = h.versioned;
    dated = h.dated;
    counted = l;
  }

  try_write_taken :
      (m : WalManager) (s : WalSegment) (file : List ℕ) (e : WalEntry J)
      → m.current_segment ≡ some s
      → contents_at m.disk s.path ≡ file
      → length file + (length (codec.serialize e) + 4) ≤ s.max_size
      → try_write codec headers m e
        ≡ some (
          store codec headers m
              (counted s (u32_add s.entry_count 1))
              (file ++ record_bytes codec e),
          true,
        )
  unfolding try_write Segment.write_entry
  try_write_taken m s file e c d room = ground (arith, c, d, room)

  try_write_full :
      (m : WalManager) (s : WalSegment) (file : List ℕ) (e : WalEntry J)
      → m.current_segment ≡ some s
      → contents_at m.disk s.path ≡ file
      → s.max_size < length file + (length (codec.serialize e) + 4)
      → try_write codec headers m e ≡ some (store codec headers m s file, false)
  unfolding try_write Segment.write_entry
  try_write_full m s file e c d full = ground (arith, c, d, full)

  taken-IsLog :
      (m : WalManager) (s : WalSegment) (file : List ℕ) (e : WalEntry J) (es : List (WalEntry J))
      → IsLogAt codec headers lawful m s file es
      → IsReadable codec m.segment_size e
      → length file + (length (codec.serialize e) + 4) ≤ m.segment_size
      → (m' : WalManager) × (try_write codec headers m e ≡ some (m', true))
        × IsLog codec headers lawful m' (es ++ e ∷ [])
  unfolding records
  taken-IsLog m s file e es l r room =
      let next = counted s (u32_add s.entry_count 1) in
      let file' = file ++ record_bytes codec e in
      let grown =
        FileHolds-append codec headers lawful m.segment_size file l.own (e ∷ []) l.here (r, tt) in
      (
        store codec headers m next file',
        try_write_taken m s file e l.current (contents-IsLogAt m s file es l)
            (omega (arith, l.sized)),
        (
          next,
          file',
          store-IsLogAt codec headers lawful m s next file file' es (e ∷ []) l refl refl
              (counted-IsHeader s (u32_add s.entry_count 1) l.head (omega arith))
              (subst
                (λ bytes.
                  FileHolds codec headers lawful m.segment_size (file ++ bytes) (l.own ++ e ∷ [])
                    [])
                (append-nil (record_bytes codec e)) grown),
        ),
      )

  -- A full segment stays as it is.
  full-IsLogAt :
      (m : WalManager) (s : WalSegment) (file : List ℕ) (es : List (WalEntry J))
      → IsLogAt codec headers lawful m s file es
      → IsLogAt codec headers lawful (store codec headers m s file) s file es
  full-IsLogAt m s file es l =
      subst (λ fs. IsLogAt codec headers lawful (store codec headers m s file) s file fs)
        (append-nil es)
        (store-IsLogAt codec headers lawful m s s file file es [] l refl refl l.head (
          subst (λ own. FileHolds codec headers lawful m.segment_size file own [])
            (sym (append-nil l.own)) l.here))

  -- What a full segment leaves to do: the log as it was, on a fresh segment.
  pub rotated :
      (now : ℕ) (m : WalManager) (s : WalSegment) (file : List ℕ) (es : List (WalEntry J))
      → IsLogAt codec headers lawful m s file es
      → now < u64_mod
      → m.segment_counter + 1 < u64_mod
      → (t : WalSegment) × (file' : List ℕ) × IsLogAt codec headers lawful
          (rotate_segment codec headers now m)
          t
          file'
          es
        × (length file' ≡ header_size headers (header_of 0))
        × ((rotate_segment codec headers now m).segment_size ≡ m.segment_size)
  unfolding header_size
  rotated now m s file es l n small =
      let r = rotate-IsLogAt codec headers lawful now m s file es l n small in
      (
        fresh codec headers lawful now m,
        fresh_file codec headers lawful now,
        r,
        lawful.sized (header_of now) (header_of-IsHeader now n),
        sym r.sized,
      )

  write_entry_first :
      (now : ℕ) (m m' : WalManager) (e : WalEntry J)
      → try_write codec headers m e ≡ some (m', true)
      → write_entry codec headers now m e ≡ some m'
  unfolding write_entry
  write_entry_first now m m' e t = ground (arith, t)

  write_entry_second :
      (now : ℕ) (m full m' : WalManager) (e : WalEntry J) (done : Bool)
      → try_write codec headers m e ≡ some (full, false)
      → try_write codec headers (rotate_segment codec headers now full) e ≡ some (m', done)
      → write_entry codec headers now m e ≡ some m'
  unfolding write_entry
  write_entry_second now m full m' e done t u = ground (arith, t, u)

  room_left : (a b : ℕ) → (a ≤ b) ⊎ (b < a)
  room_left a b = elim (Bool-cases (leb a b)) [
    | inl h ↦ inl (ground arith)
    | inr h ↦ inr (ground arith)
  ]

  -- An entry that `bincode` reads back and that fits an empty segment is the last one of the log
  -- once `write_entry` returns, as it does, while the time and the number of the next segment fit
  -- their words; the log rotates where the open segment is full.
  pub write_entry-IsLog :
      (now : ℕ) (m : WalManager) (e : WalEntry J) (es : List (WalEntry J))
      → IsLog codec headers lawful m es
      → IsReadable codec m.segment_size e
      → header_size headers (header_of 0) + (length (codec.serialize e) + 4) ≤ m.segment_size
      → now < u64_mod
      → m.segment_counter + 1 < u64_mod
      → (m' : WalManager) × (write_entry codec headers now m e ≡ some m')
        × IsLog codec headers lawful m' (es ++ e ∷ [])
  unfolding store
  write_entry-IsLog now m e es (s, file, l) r fits n small =
      elim (room_left (length file + (length (codec.serialize e) + 4)) m.segment_size) [
        | inl room ↦
            let (m', t, log) = taken-IsLog m s file e es l r room in
            (m', write_entry_first now m m' e t, log)
        | inr full ↦
            let m1 = store codec headers m s file in
            let first =
              try_write_full m s file e l.current (contents-IsLogAt m s file es l)
                (omega (arith, l.sized)) in
            let (t, file', l', empty, size) =
              rotated now m1 s file es (full-IsLogAt m s file es l) n small in
            let (m', second, log) =
              taken-IsLog (rotate_segment codec headers now m1) t file' e es l'
                (subst (λ limit. IsReadable codec limit e) (sym size) r)
                (omega (arith, empty, size)) in
            (m', write_entry_second now m m1 m' e true first second, log)
      ]

  headed :
      (m : WalManager) (s : WalSegment) (file : List ℕ) (es : List (WalEntry J))
      → IsLogAt codec headers lawful m s file es
      → header_size headers (header_of 0) ≤ length file
  unfolding header_size
  headed m s file es l = omega (
    arith,
    lawful.sized l.here.header l.here.head,
    ap length l.here.content,
    length-append {0} (headers.serialize l.here.header) (records codec l.own ++ []),
  )

  -- An entry that does not fit even an empty segment is not in the log after `write_entry`, which
  -- reports success all the same, while the time and the number of the next segment fit their
  -- words.
  pub write_entry_dropped :
      (now : ℕ) (m : WalManager) (e : WalEntry J) (es : List (WalEntry J))
      → IsLog codec headers lawful m es
      → m.segment_size < header_size headers (header_of 0) + (length (codec.serialize e) + 4)
      → now < u64_mod
      → m.segment_counter + 1 < u64_mod
      → (m' : WalManager) × (write_entry codec headers now m e ≡ some m')
        × IsLog codec headers lawful m' es
  unfolding store
  write_entry_dropped now m e es (s, file, l) big n small =
      let m1 = store codec headers m s file in
      let first =
        try_write_full m s file e l.current (contents-IsLogAt m s file es l)
          (omega (arith, l.sized, headed m s file es l)) in
      let (t, file', l', empty, size) =
        rotated now m1 s file es (full-IsLogAt m s file es l) n small in
      let m2 = rotate_segment codec headers now m1 in
      let second =
        try_write_full m2 t file' e l'.current (contents-IsLogAt m2 t file' es l')
          (omega (arith, l'.sized, size, empty)) in
      let m' = store codec headers m2 t file' in
      (
        m',
        write_entry_second now m m1 m' e false first second,
        (t, file', full-IsLogAt m2 t file' es l'),
      )
