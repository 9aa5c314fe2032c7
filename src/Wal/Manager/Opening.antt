-- ===== src/Wal/Manager/Opening.antt =====
-- crates/f4kvs-lsm/src/storage/wal.rs: opening the log on the files of an earlier session, also of
-- one that ended in the middle of a write.
use f4kvs_lsm.Base.{
  ℕ, zero, suc, ◌+◌, ◌-◌, ◌≤◌, ◌<◌, ◌≡◌, refl, ap, sym, Option, none, some, List, [], ◌∷◌, ◌++◌,
  length, take, if◌then◌else◌, ltb, leb, ◌==◌, arith, append_assoc, append-nil, length-append,
  Bool-cases, inl, inr, subst, ==_iff,
}
use f4kvs_lsm.Base.Sort.{sort_by}
use f4kvs_lsm.Base.Words.{u64_mod, u32_mod}
use f4kvs_lsm.Wal.{WalEntry, Codec, records, record_bytes, entry_timestamp}
use f4kvs_lsm.Wal.Segment.{
  WalSegment, WalSegmentHeader, header_of, header_size, open_empty_for_append,
}
use f4kvs_lsm.Wal.Segment.ReadBack.{IsEnd-torn}
use f4kvs_lsm.Wal.Manager.{
  Disk, WalManager, file_at, max_segment_id, scan_existing_segments, try_reuse_last_empty_segment,
  rotate_segment, initialize, read_entries_from_disk,
}
use f4kvs_lsm.Wal.Manager.Recovery.{read_entries-DiskHolds}
use f4kvs_lsm.Wal.Manager.Log.{IsLogAt, IsLog, rotate_closed, fresh, fresh_file}
use f4kvs_lsm.Wal.Manager.Files.{
  AllBelow, AllBelow-max, IsHeaderCodec, header_of-IsHeader, FileHolds, DiskHolds,
}

max_of_below :
    (id bound : ℕ) (disk : Disk) → 0 < bound → AllBelow bound disk → max_segment_id disk < bound
unfolding max_segment_id
max_of_below id bound [] p b = p
max_of_below id bound ((j, file) ∷ disk) p (l, ls) = omega (arith, max_of_below id bound disk p ls)

max_of_none : max_segment_id [] ≡ 0
unfolding max_segment_id
max_of_none = refl

-- The newest file has the largest number.
max_segment_id-newest :
    (id : ℕ) (file : List ℕ) (old : Disk) → AllBelow id old → max_segment_id ((id, file) ∷ old) ≡ id
unfolding max_segment_id
max_segment_id-newest zero file [] b = omega arith
max_segment_id-newest zero file (o ∷ old) b = absurd (omega arith)
max_segment_id-newest (suc id) file old b =
    omega (arith, max_of_below id (suc id) old (omega arith) b)

module _ {J : Type 0} (codec : Codec (WalEntry J)) (headers : Codec WalSegmentHeader)
    (lawful : IsHeaderCodec headers) where
  -- The segment that is opened again for writing.
  abbrev reused : ℕ → WalManager → ℕ → WalSegment
  reused now m id = record {
    path = id;
    header = header_of now;
    entry_count = 0;
    max_size = m.segment_size;
  }

  try_reuse-eq :
      (now : ℕ) (m : WalManager) (id : ℕ) (file : List ℕ) (old : Disk)
      → m.disk ≡ (id, file) ∷ old
      → m.segment_counter ≡ id + 1
      → try_reuse_last_empty_segment codec headers now m ≡ (
          if leb id 0
          then none
          else if length file == header_size headers (header_of 0)
          then some (record m { current_segment = some (reused now m id) })
          else none)
  unfolding try_reuse_last_empty_segment open_empty_for_append file_at
  try_reuse-eq now m id file old d c =
      let last : m.segment_counter - 1 ≡ id = omega arith in
      let here : file_at m.disk (m.segment_counter - 1) ≡ some file = rw (d, last) (ground arith) in
      rw (here, last) (ground (arith, c))

  nothing_to_reuse :
      (now : ℕ) (m : WalManager)
      → m.segment_counter ≤ 1
      → try_reuse_last_empty_segment codec headers now m ≡ none
  unfolding try_reuse_last_empty_segment
  nothing_to_reuse now m h = ground (arith, h)

  empty_of_length : (xs ys : List ℕ) → length (xs ++ ys) ≡ 0 → ys ≡ []
  empty_of_length [] [] h = refl
  empty_of_length [] (y ∷ ys) h = absurd (omega arith)
  empty_of_length (x ∷ xs) ys h = absurd (omega arith)

  -- A file of the size of a header has no torn entry.
  untorn :
      (limit : ℕ) (file : List ℕ) (own : List (WalEntry J)) (torn : List ℕ)
      → FileHolds codec headers lawful limit file own torn
      → length file ≡ header_size headers (header_of 0)
      → FileHolds codec headers lawful limit file own []
  unfolding header_size
  untorn limit file own torn f e =
      subst (λ t. FileHolds codec headers lawful limit file own t)
        (empty_of_length (records codec own) torn (
          omega (
            arith,
            e,
            lawful.sized f.header f.head,
            ap length f.content,
            length-append {0} (headers.serialize f.header) (records codec own ++ torn),
          )))
        f

  abbrev or_rotate : ℕ → WalManager → Option WalManager → WalManager
  or_rotate now m o = elim o [ none ↦ rotate_segment codec headers now m | some r ↦ r ]

  rotated_open :
      (now : ℕ) (m : WalManager) (es : List (WalEntry J)) (disk : Disk)
      → m.current_segment ≡ none
      → m.disk ≡ disk
      → m.segment_counter ≡ max_segment_id disk + 1
      → DiskHolds codec headers lawful m.segment_size disk es
      → now < u64_mod
      → max_segment_id disk + 2 < u64_mod
      → IsLog codec headers lawful (rotate_segment codec headers now m) es
  rotated_open now m es disk c d i h n small = (
    fresh codec headers lawful now m,
    fresh_file codec headers lawful now,
    rotate_closed codec headers lawful now m es c (rw d h) (rw (d, i) (AllBelow-max disk)) n
        (omega arith),
  )

  opened :
      (now : ℕ) (m : WalManager) (es : List (WalEntry J)) (disk : Disk)
      → m.current_segment ≡ none
      → m.disk ≡ disk
      → m.segment_counter ≡ max_segment_id disk + 1
      → DiskHolds codec headers lawful m.segment_size disk es
      → now < u64_mod
      → max_segment_id disk + 2 < u64_mod
      → IsLog codec headers lawful
          (or_rotate now m (try_reuse_last_empty_segment codec headers now m))
          es
  opened now m es [] c d i h n small =
      subst (λ o. IsLog codec headers lawful (or_rotate now m o) es)
        (sym (nothing_to_reuse now m (omega (arith, i, max_of_none))))
        (rotated_open now m es [] c d i h n small)
  opened now m es ((id, file) ∷ old) c d i (earlier, own, torn, below, before, f, all) n small =
      let count : m.segment_counter ≡ id + 1 =
        omega (arith, i, max_segment_id-newest id file old below) in
      let tried = try_reuse-eq now m id file old d count in
      let rotation =
        rotated_open now m es ((id, file) ∷ old) c d i (earlier, own, torn, below, before, f, all) n
          small in
      let back =
        λ (o : Option WalManager) (e : try_reuse_last_empty_segment codec headers now m ≡ o)
            (l : IsLog codec headers lawful (or_rotate now m o) es).
          subst (λ x. IsLog codec headers lawful (or_rotate now m x) es) (sym e) l in
      elim (Bool-cases (leb id 0)) [
        | inl first ↦ back none (ground (arith, tried, first)) rotation
        | inr later ↦ elim (Bool-cases (length file == header_size headers (header_of 0))) [
          | inr used ↦ back none (ground (arith, tried, later, used)) rotation
          | inl unused ↦
              back (some (record m { current_segment = some (reused now m id) }))
                (ground (arith, tried, later, unused))
                (
                  reused now m id,
                  file,
                  record {
                    old = old;
                    earlier = earlier;
                    own = own;
                    current = refl;
                    disk = d;
                    below = below;
                    before = before;
                    here =
                        untorn m.segment_size file own torn f
                          ((==_iff (length file) (header_size headers (header_of 0))).0 unused);
                    all = all;
                    counter = omega (arith, count);
                    sized = refl;
                    head = header_of-IsHeader now n;
                  },
                )
        ]
      ]

  -- On the files of an earlier session the log opens with the entries that they hold.
  pub initialize-IsLog :
      (now : ℕ) (m : WalManager) (es : List (WalEntry J))
      → m.current_segment ≡ none
      → DiskHolds codec headers lawful m.segment_size m.disk es
      → now < u64_mod
      → max_segment_id m.disk + 2 < u64_mod
      → IsLog codec headers lawful (initialize codec headers now m) es
  unfolding initialize scan_existing_segments
  initialize-IsLog now m es c h n small =
      opened now (scan_existing_segments m) es m.disk c refl refl h n small

  -- The newest file with more bytes at its end.
  abbrev pub lengthen : Disk → List ℕ → Disk
  lengthen [] bytes = []
  lengthen ((id, file) ∷ disk) bytes = (id, file ++ bytes) ∷ disk

  -- What a process that dies leaves to the next one: the files, and of the entry that it was
  -- writing the first `n` bytes.
  abbrev pub crashed : WalManager → WalEntry J → ℕ → WalManager
  crashed m e n = record {
    segment_size = m.segment_size;
    current_segment = none;
    segments = [];
    segment_counter = 0;
    disk = lengthen m.disk (take n (record_bytes codec e));
  }

  torn-DiskHolds :
      (m : WalManager) (s : WalSegment) (file : List ℕ) (es : List (WalEntry J)) (e : WalEntry J)
      (n : ℕ)
      → IsLogAt codec headers lawful m s file es
      → length (codec.serialize e) < u32_mod
      → n < length (record_bytes codec e)
      → DiskHolds codec headers lawful m.segment_size (crashed m e n).disk es
        × (max_segment_id (crashed m e n).disk ≡ s.path)
  torn-DiskHolds m s file es e n l fits cut = rw l.disk (
    (
      l.earlier,
      l.own,
      take n (record_bytes codec e),
      l.below,
      l.before,
      record {
        header = l.here.header;
        head = l.here.head;
        content = simp (l.here.content, append_assoc, append-nil);
        ends = IsEnd-torn codec m.segment_size e n fits cut;
        readable = l.here.readable;
      },
      l.all,
    ),
    max_segment_id-newest s.path (file ++ take n (record_bytes codec e)) l.old l.below,
  )

  -- A process that dies in the middle of a write loses no entry but that one, if its size, the
  -- time and the number of the next segment fit their words: recovery reads all the others, sorted
  -- by their timestamps, and the log opens with them.
  pub crashed-IsLog :
      (now : ℕ) (m : WalManager) (es : List (WalEntry J)) (e : WalEntry J) (n : ℕ)
      → IsLog codec headers lawful m es
      → length (codec.serialize e) < u32_mod
      → n < length (record_bytes codec e)
      → now < u64_mod
      → m.segment_counter + 1 < u64_mod
      → (read_entries_from_disk codec headers (crashed m e n)
          ≡ some (sort_by (λ a b. ltb (entry_timestamp a) (entry_timestamp b)) es))
        × IsLog codec headers lawful (initialize codec headers now (crashed m e n)) es
  crashed-IsLog now m es e n (s, file, l) fits cut clock small =
      let c = crashed m e n in
      let (holds, newest) = torn-DiskHolds m s file es e n l fits cut in
      (
        read_entries-DiskHolds codec headers lawful c (max_segment_id c.disk + 1) es holds
            (AllBelow-max c.disk),
        initialize-IsLog now c es refl holds clock (omega (arith, newest, l.counter)),
      )
