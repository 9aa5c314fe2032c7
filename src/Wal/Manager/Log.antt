-- ===== src/Wal/Manager/Log.antt =====
-- crates/f4kvs-lsm/src/storage/wal.rs: the log as the list of its entries, and what rotation,
-- truncation and opening do to it.
use f4kvs_lsm.Base.{
  ℕ, zero, suc, ◌+◌, ◌%◌, ◌<◌, ◌≡◌, refl, ap, sym, ◌∙◌, true, none, some, List, [], ◌∷◌, ◌++◌,
  length, drop, ltb, arith, append_assoc, append-nil, subst,
}
use f4kvs_lsm.Base.Words.{u64_mod}
use f4kvs_lsm.Base.Sort.{sort_by}
use f4kvs_lsm.Wal.{WalEntry, Codec, records, entry_timestamp}
use f4kvs_lsm.Wal.Segment.{WalSegment, WalSegmentHeader, header_of, new, write_header, overwrite}
use f4kvs_lsm.Wal.Manager.{
  Disk, WalManager, close_current, rotate_segment, store, truncate_after_flush,
  read_entries_from_disk, verify_truncated, insert_segment,
}
use f4kvs_lsm.Wal.Segment.ReadBack.{IsEnd-nil}
use f4kvs_lsm.Wal.Manager.Recovery.{read_entries-DiskHolds}
use f4kvs_lsm.Wal.Manager.Files.{
  AllBelow, AllBelow-le, IsHeader, IsHeaderCodec, header_of-IsHeader, FileHolds,
  FileHolds-overwrite, DiskHolds, write_file-new, write_file-head, contents_at-new,
  contents_at-head,
}

module _ {J : Type 0} (codec : Codec (WalEntry J)) (headers : Codec WalSegmentHeader)
    (lawful : IsHeaderCodec headers) where
  -- The log holds the entries `es`: the segment is open on the newest file, and the files hold
  -- the entries in their order.
  pub record IsLogAt (m : WalManager) (s : WalSegment) (file : List ℕ) (es : List (WalEntry J))
      : Type 0 where
    pub old : Disk
    pub earlier : List (WalEntry J)
    pub own : List (WalEntry J)
    pub current : m.current_segment ≡ some s
    pub disk : m.disk ≡ (s.path, file) ∷ old
    pub below : AllBelow s.path old
    pub before : DiskHolds codec headers lawful m.segment_size old earlier
    pub here : FileHolds codec headers lawful m.segment_size file own []
    pub all : es ≡ earlier ++ own
    pub counter : s.path < m.segment_counter
    pub sized : s.max_size ≡ m.segment_size
    pub head : IsHeader s.header

  abbrev pub IsLog : WalManager → List (WalEntry J) → Type 0
  IsLog m es = (s : WalSegment) × (file : List ℕ) × IsLogAt m s file es

  pub IsLogAt-DiskHolds :
      (m : WalManager) (s : WalSegment) (file : List ℕ) (es : List (WalEntry J))
      → IsLogAt m s file es
      → DiskHolds codec headers lawful m.segment_size m.disk es × AllBelow m.segment_counter m.disk
  IsLogAt-DiskHolds m s file es l = rw l.disk (
    (l.earlier, l.own, [], l.below, l.before, l.here, l.all),
    (l.counter, AllBelow-le s.path m.segment_counter l.old (omega (arith, l.counter)) l.below),
  )

  -- The open segment with another file, which holds more entries.
  pub store-IsLogAt :
      (m : WalManager) (s t : WalSegment) (file file' : List ℕ) (es fs : List (WalEntry J))
      (l : IsLogAt m s file es)
      → t.path ≡ s.path
      → t.max_size ≡ s.max_size
      → IsHeader t.header
      → FileHolds codec headers lawful m.segment_size file' (l.own ++ fs) []
      → IsLogAt (store codec headers m t file') t file' (es ++ fs)
  unfolding store
  store-IsLogAt m s t file file' es fs l p z h f = record {
    old = l.old;
    earlier = l.earlier;
    own = l.own ++ fs;
    current = refl;
    disk = rw (l.disk, p) (write_file-head l.old s.path file' file);
    below = rw p l.below;
    before = l.before;
    here = f;
    all = rw l.all (append_assoc l.earlier l.own fs);
    counter = rw p l.counter;
    sized = z ∙ l.sized;
    head = h;
  }

  drop_nil : (n : ℕ) → drop {A = ℕ} n [] ≡ []
  drop_nil zero = refl
  drop_nil (suc n) = refl

  -- The segment that rotation opens, and its file.
  abbrev pub fresh : ℕ → WalManager → WalSegment
  fresh now m = record {
    path = m.segment_counter;
    header = header_of now;
    entry_count = 0;
    max_size = m.segment_size;
  }

  abbrev pub fresh_file : ℕ → List ℕ
  fresh_file now = headers.serialize (header_of now)

  close_current-closed :
      (m : WalManager) → m.current_segment ≡ none → close_current codec headers m ≡ m
  unfolding close_current
  close_current-closed m c = ground (arith, c)

  rotate_closed-eq :
      (now : ℕ) (m : WalManager)
      → m.current_segment ≡ none
      → AllBelow m.segment_counter m.disk
      → rotate_segment codec headers now m ≡ record m {
        current_segment = some (fresh now m);
        segment_counter = (m.segment_counter + 1) % u64_mod;
        disk = (m.segment_counter, fresh_file now) ∷ m.disk;
      }
  unfolding rotate_segment new write_header overwrite
  rotate_closed-eq now m c b =
      rw
        (
          close_current-closed m c,
          contents_at-new m.disk m.segment_counter b,
          drop_nil (length (fresh_file now)),
          append-nil (fresh_file now),
          write_file-new m.disk m.segment_counter (fresh_file now) b,
        )
        refl

  -- Where no segment is open, rotation opens an empty one.
  pub rotate_closed :
      (now : ℕ) (m : WalManager) (es : List (WalEntry J))
      → m.current_segment ≡ none
      → DiskHolds codec headers lawful m.segment_size m.disk es
      → AllBelow m.segment_counter m.disk
      → now < u64_mod
      → m.segment_counter + 1 < u64_mod
      → IsLogAt (rotate_segment codec headers now m) (fresh now m) (fresh_file now) es
  unfolding records
  rotate_closed now m es c d b n small =
      subst (λ r. IsLogAt r (fresh now m) (fresh_file now) es) (sym (rotate_closed-eq now m c b))
        (record {
          old = m.disk;
          earlier = es;
          own = [];
          current = refl;
          disk = refl;
          below = b;
          before = d;
          here = record {
            header = header_of now;
            head = header_of-IsHeader now n;
            content = sym (append-nil (fresh_file now));
            ends = IsEnd-nil codec m.segment_size;
            readable = tt;
          };
          all = sym (append-nil es);
          counter = omega arith;
          sized = refl;
          head = header_of-IsHeader now n;
        })

  -- Closing the open segment writes its header once more.
  abbrev closed : WalManager → WalSegment → List ℕ → Disk → WalManager
  closed m s file old = record m {
    current_segment = none;
    segments = insert_segment m.segments m.segment_counter s.path;
    disk = (s.path, write_header headers s file) ∷ old;
  }

  close_current-open :
      (m : WalManager) (s : WalSegment) (file : List ℕ) (old : Disk)
      → m.current_segment ≡ some s
      → m.disk ≡ (s.path, file) ∷ old
      → close_current codec headers m ≡ closed m s file old
  unfolding close_current
  close_current-open m s file old c d = ground (
    arith,
    c,
    d,
    contents_at-head old s.path file,
    write_file-head old s.path (write_header headers s file) file,
  )

  rotate-closed :
      (now : ℕ) (m : WalManager) (s : WalSegment) (file : List ℕ) (old : Disk)
      → m.current_segment ≡ some s
      → m.disk ≡ (s.path, file) ∷ old
      → rotate_segment codec headers now m ≡ rotate_segment codec headers now (closed m s file old)
  unfolding rotate_segment
  rotate-closed now m s file old c d =
      cc (close_current-open m s file old c d, close_current-closed (closed m s file old) refl)

  -- Rotation keeps the log, on a new file with nothing but a header.
  pub rotate-IsLogAt :
      (now : ℕ) (m : WalManager) (s : WalSegment) (file : List ℕ) (es : List (WalEntry J))
      → IsLogAt m s file es
      → now < u64_mod
      → m.segment_counter + 1 < u64_mod
      → IsLogAt (rotate_segment codec headers now m) (fresh now m) (fresh_file now) es
  unfolding write_header
  rotate-IsLogAt now m s file es l n small =
      let c = closed m s file l.old in
      subst (λ r. IsLogAt r (fresh now m) (fresh_file now) es)
        (sym (rotate-closed now m s file l.old l.current l.disk))
        (rotate_closed now c es refl
          (
            l.earlier,
            l.own,
            [],
            l.below,
            l.before,
            FileHolds-overwrite codec headers lawful m.segment_size file l.own [] s.header l.here
                l.head,
            l.all,
          )
          (l.counter, AllBelow-le s.path m.segment_counter l.old (omega (arith, l.counter)) l.below)
          n small)

  -- After a truncation the log holds nothing, and the check of the truncation succeeds.
  pub truncate_after_flush-IsLog :
      (now : ℕ) (m : WalManager)
      → now < u64_mod
      → m.segment_counter + 1 < u64_mod
      → IsLog (truncate_after_flush codec headers now m) []
        × (verify_truncated codec headers (truncate_after_flush codec headers now m) ≡ true)
  unfolding truncate_after_flush verify_truncated
  truncate_after_flush-IsLog now m n small =
      let c : WalManager = record m { current_segment = none; segments = []; disk = [] } in
      (
        (fresh now c, fresh_file now, rotate_closed now c [] refl refl tt n small),
        ap (verify_truncated codec headers) (rotate_closed-eq now c refl tt) ∙ ground arith,
      )

  -- What recovery reads from the disk: the entries of the log, sorted by their timestamps.
  pub read_entries-IsLog :
      (m : WalManager) (es : List (WalEntry J))
      → IsLog m es
      → read_entries_from_disk codec headers m
        ≡ some (sort_by (λ a b. ltb (entry_timestamp a) (entry_timestamp b)) es)
  read_entries-IsLog m es (s, file, l) =
      let (holds, below) = IsLogAt-DiskHolds m s file es l in
      read_entries-DiskHolds codec headers lawful m m.segment_counter es holds below
