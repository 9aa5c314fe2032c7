-- ===== src/Wal/Manager/Files.antt =====
-- crates/f4kvs-lsm/src/storage/wal.rs: the files of the log on the disk, and which entries they
-- hold.
use f4kvs_lsm.Base.{
  ℕ, ◌+◌, ◌≤◌, ◌<◌, ◌≡◌, refl, ap, sym, ◌∙◌, none, some, List, [], ◌∷◌, ◌++◌, max, length, drop,
  leb, arith, append_assoc, append-nil, length-append, Bool-cases, leb→le, inl, inr, key_eq_refl,
}
use f4kvs_lsm.Base.Bytes.{drop_before, take_before}
use f4kvs_lsm.Base.Words.{u32_mod, u64_mod}
use f4kvs_lsm.Wal.{WalEntry, Codec, records, AllReadable}
use f4kvs_lsm.Wal.Framing.{records-append, length-records, AllReadable-append}
use f4kvs_lsm.Wal.Segment.{
  WalSegment, WalSegmentHeader, magic, header_of, header_size, open_for_reading, read_entries,
  overwrite,
}
use f4kvs_lsm.Wal.Segment.ReadBack.{read_records-records, IsEnd, IsEnd-nil}
use f4kvs_lsm.Wal.Manager.{Disk, file_at, contents_at, write_file, replace_file, max_segment_id}

-- Every file has a number below `bound`.
abbrev pub AllBelow : ℕ → Disk → Type 0
AllBelow bound [] = Unit {0}
AllBelow bound ((id, file) ∷ disk) = (id < bound) × AllBelow bound disk

pub AllBelow-le : (a b : ℕ) (disk : Disk) → a ≤ b → AllBelow a disk → AllBelow b disk
AllBelow-le a b [] h l = tt
AllBelow-le a b ((id, file) ∷ disk) h (l, ls) = (omega arith, AllBelow-le a b disk h ls)

pub file_at-AllBelow : (disk : Disk) (path : ℕ) → AllBelow path disk → file_at disk path ≡ none
unfolding file_at
file_at-AllBelow [] path b = refl
file_at-AllBelow ((id, file) ∷ disk) path (l, ls) = ground (arith, file_at-AllBelow disk path ls)

pub write_file-new :
    (disk : Disk) (path : ℕ) (file : List ℕ)
    → AllBelow path disk
    → write_file disk path file ≡ (path, file) ∷ disk
unfolding write_file
write_file-new disk path file b = ground (arith, file_at-AllBelow disk path b)

pub write_file-head :
    (disk : Disk) (path : ℕ) (file old : List ℕ)
    → write_file ((path, old) ∷ disk) path file ≡ (path, file) ∷ disk
unfolding write_file replace_file file_at
write_file-head disk path file old = ground arith

pub contents_at-head :
    (disk : Disk) (path : ℕ) (file : List ℕ) → contents_at ((path, file) ∷ disk) path ≡ file
unfolding contents_at file_at
contents_at-head disk path file = ground arith

pub contents_at-new : (disk : Disk) (path : ℕ) → AllBelow path disk → contents_at disk path ≡ []
unfolding contents_at
contents_at-new disk path b = ground (arith, file_at-AllBelow disk path b)

pub AllBelow-max : (disk : Disk) → AllBelow (max_segment_id disk + 1) disk
unfolding max_segment_id
AllBelow-max [] = tt
AllBelow-max ((id, file) ∷ disk) = (
  omega arith,
  AllBelow-le (max_segment_id disk + 1) (max (max_segment_id disk) id + 1) disk (omega arith)
      (AllBelow-max disk),
)

-- A header as this version writes it, with its numbers in their words.
pub record IsHeader (h : WalSegmentHeader) : Type 0 where
  pub magical : h.magic ≡ magic
  pub versioned : h.version ≡ 1
  pub dated : h.created_at < u64_mod
  pub counted : h.entry_count < u32_mod

pub header_of-IsHeader : (now : ℕ) → now < u64_mod → IsHeader (header_of now)
unfolding header_of
header_of-IsHeader now h = record {
  magical = refl;
  versioned = refl;
  dated = h;
  counted = omega arith;
}

-- `bincode` gives all such headers one size, and reads them back.
pub record IsHeaderCodec (headers : Codec WalSegmentHeader) : Type 0 where
  pub sized :
      (h : WalSegmentHeader)
      → IsHeader h
      → header_size headers h ≡ header_size headers (header_of 0)
  pub decodes :
      (h : WalSegmentHeader) → IsHeader h → headers.deserialize (headers.serialize h) ≡ some h

module _ {J : Type 0} (codec : Codec (WalEntry J)) (headers : Codec WalSegmentHeader)
    (lawful : IsHeaderCodec headers) where
  -- A file with a header and these entries, each within the limit. What stands behind them, such
  -- as a torn entry, gives none.
  pub record FileHolds (limit : ℕ) (file : List ℕ) (es : List (WalEntry J)) (torn : List ℕ)
      : Type 0 where
    pub header : WalSegmentHeader
    pub head : IsHeader header
    pub content : file ≡ headers.serialize header ++ (records codec es ++ torn)
    pub ends : IsEnd codec limit torn
    pub readable : AllReadable codec limit es

  abbrev pub DiskHolds : ℕ → Disk → List (WalEntry J) → Type 0
  DiskHolds limit [] es = es ≡ []
  DiskHolds limit ((id, file) ∷ disk) es =
      (earlier own : List (WalEntry J)) × (torn : List ℕ) × AllBelow id disk
      × DiskHolds limit disk earlier
      × FileHolds limit file own torn
      × (es ≡ earlier ++ own)

  pub FileHolds-append :
      (limit : ℕ) (file : List ℕ) (es fs : List (WalEntry J))
      → FileHolds limit file es []
      → AllReadable codec limit fs
      → FileHolds limit (file ++ records codec fs) (es ++ fs) []
  FileHolds-append limit file es fs f r = record {
    header = f.header;
    head = f.head;
    content = simp (f.content, records-append, append_assoc, append-nil);
    ends = IsEnd-nil codec limit;
    readable = AllReadable-append codec limit es fs f.readable r;
  }

  -- Writing another header leaves the entries.
  pub FileHolds-overwrite :
      (limit : ℕ) (file : List ℕ) (es : List (WalEntry J)) (torn : List ℕ) (h : WalSegmentHeader)
      → FileHolds limit file es torn
      → IsHeader h
      → FileHolds limit (overwrite (headers.serialize h) file) es torn
  unfolding overwrite header_size
  FileHolds-overwrite limit file es torn h f head = record {
    header = h;
    head = head;
    ends = f.ends;
    content =
        ap (λ rest. headers.serialize h ++ rest)
          (drop_before (headers.serialize f.header) (records codec es ++ torn) file
            (length (headers.serialize h)) f.content
            (lawful.sized f.header f.head ∙ sym (lawful.sized h head)));
    readable = f.readable;
  }

  -- What `open_for_reading` makes of such a file.
  abbrev pub reader : ℕ → ℕ → WalSegmentHeader → WalSegment
  reader path limit h = record {
    path = path;
    header = h;
    entry_count = h.entry_count;
    max_size = limit;
  }

  pub open_for_reading-FileHolds :
      (limit path : ℕ) (file : List ℕ) (es : List (WalEntry J)) (torn : List ℕ)
      (f : FileHolds limit file es torn)
      → open_for_reading headers path limit file ≡ some (reader path limit f.header)
  unfolding open_for_reading header_size
  open_for_reading-FileHolds limit path file es torn f =
      let size : length (headers.serialize f.header) ≡ header_size headers (header_of 0) =
        lawful.sized f.header f.head in
      let long : header_size headers (header_of 0) ≤ length file = omega (
        arith,
        size,
        ap length f.content,
        length-append {0} (headers.serialize f.header) (records codec es ++ torn),
      ) in
      let head =
        take_before (headers.serialize f.header) (records codec es ++ torn) file
          (header_size headers (header_of 0)) f.content size in
      ground (
        arith,
        long,
        ap headers.deserialize head,
        lawful.decodes f.header f.head,
        f.head.magical,
        key_eq_refl magic,
      )

  no_entries : (es : List (WalEntry J)) → length es ≤ 0 → [] ≡ es
  no_entries [] h = refl
  no_entries (e ∷ es) h = absurd (omega arith)

  pub read_entries-FileHolds :
      (limit path : ℕ) (file : List ℕ) (es : List (WalEntry J)) (torn : List ℕ)
      (f : FileHolds limit file es torn)
      → read_entries codec headers (reader path limit f.header) file ≡ es
  unfolding read_entries header_size
  read_entries-FileHolds limit path file es torn f =
      let size = header_size headers f.header in
      let total : length file ≡ size + length (records codec es ++ torn) =
        ap length f.content
        ∙ length-append (headers.serialize f.header) (records codec es ++ torn) in
      let body : drop size file ≡ records codec es ++ torn =
        drop_before (headers.serialize f.header) (records codec es ++ torn) file size f.content
          refl in
      let parts = length-append (records codec es) torn in
      elim (Bool-cases (leb (length file) size)) [
        | inl short ↦ rw short (
            no_entries es (omega (arith, length-records codec es, leb→le (length file) size short)))
        | inr long ↦
            rw (long, body)
              (read_records-records codec (length file) limit es torn f.readable f.ends
                (omega (arith, length-records codec es)))
      ]
