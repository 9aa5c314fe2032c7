-- ===== src/Wal/Manager/Recovery.antt =====
-- crates/f4kvs-lsm/src/storage/wal.rs: reading the log back from the disk.
use f4kvs_lsm.Base.{
  ℕ, ◌+◌, ◌≡◌, refl, ap, sym, ◌∙◌, some, List, [], ◌∷◌, ◌++◌, length, ltb, arith, append_assoc,
  append-nil, Option-cases, inl, inr,
}
use f4kvs_lsm.Base.Sort.{sort_by, insert_by}
use f4kvs_lsm.Wal.{WalEntry, Codec, entry_timestamp}
use f4kvs_lsm.Wal.Segment.{WalSegmentHeader, open_for_reading, read_entries}
use f4kvs_lsm.Wal.Manager.{Disk, WalManager, collect_files, read_entries_from_disk}
use f4kvs_lsm.Wal.Manager.Files.{
  AllBelow, AllBelow-le, IsHeaderCodec, FileHolds, DiskHolds, open_for_reading-FileHolds,
  read_entries-FileHolds,
}

-- the order of the files that are read
abbrev by_id : Disk → Disk
by_id disk = sort_by (λ a b. ltb a.0 b.0) disk

AllBelow-append :
    (bound : ℕ) (xs ys : Disk) → AllBelow bound xs → AllBelow bound ys → AllBelow bound (xs ++ ys)
AllBelow-append bound [] ys b c = c
AllBelow-append bound ((id, file) ∷ xs) ys (l, ls) c = (l, AllBelow-append bound xs ys ls c)

insert_last :
    (id : ℕ) (file : List ℕ) (disk : Disk)
    → AllBelow id disk
    → insert_by (λ a b. ltb a.0 b.0) (id, file) disk ≡ disk ++ (id, file) ∷ []
unfolding insert_by
insert_last id file [] b = refl
insert_last id file ((j, other) ∷ disk) (l, ls) = ground (arith, l, insert_last id file disk ls)

module _ {J : Type 0} (codec : Codec (WalEntry J)) (headers : Codec WalSegmentHeader)
    (lawful : IsHeaderCodec headers) where
  collect_files-last :
      (limit id : ℕ) (disk : Disk) (file : List ℕ) (own : List (WalEntry J)) (torn : List ℕ)
      → FileHolds codec headers lawful limit file own torn
      → collect_files codec headers limit (disk ++ (id, file) ∷ []) ≡ (
        (collect_files codec headers limit disk).0 ++ own,
        (collect_files codec headers limit disk).1 + 1,
      )
  unfolding collect_files
  collect_files-last limit id [] file own torn f = ground (
    arith,
    open_for_reading-FileHolds codec headers lawful limit id file own torn f,
    read_entries-FileHolds codec headers lawful limit id file own torn f,
    append-nil own,
  )
  collect_files-last limit id ((j, other) ∷ disk) file own torn f =
      let rest = collect_files-last limit id disk file own torn f in
      elim (Option-cases (open_for_reading headers j limit other)) [
        | inl bad ↦ ground (arith, bad, rest)
        | inr (s, good) ↦ ground (
          arith,
          good,
          rest,
          append_assoc (read_entries codec headers s other)
              (collect_files codec headers limit disk).0 own,
        )
      ]

  -- The files are read from the oldest to the newest, and all of them can be read.
  collect_files-by_id :
      (limit bound : ℕ) (disk : Disk) (es : List (WalEntry J))
      → DiskHolds codec headers lawful limit disk es
      → AllBelow bound disk
      → (collect_files codec headers limit (by_id disk) ≡ (es, length disk))
        × AllBelow bound (by_id disk)
  unfolding sort_by
  collect_files-by_id limit bound [] es h b =
      (unfold collect_files in ap (λ xs. (xs, 0)) (sym h), tt)
  collect_files-by_id limit bound ((id, file) ∷ disk) es (earlier, own, torn, below, d, f, e)
        (l, ls) =
      let (rest, lower) = collect_files-by_id limit id disk earlier d below in
      let last = insert_last id file (by_id disk) lower in
      (
        rw last (
            collect_files-last limit id (by_id disk) file own torn f ∙ rw (rest, e) (ground arith)),
        rw last (
            AllBelow-append bound (by_id disk) ((id, file) ∷ [])
              (AllBelow-le id bound (by_id disk) (omega arith) lower) (l, tt)),
      )

  -- What recovery reads: the entries of the files, sorted by their timestamps.
  pub read_entries-DiskHolds :
      (m : WalManager) (bound : ℕ) (es : List (WalEntry J))
      → DiskHolds codec headers lawful m.segment_size m.disk es
      → AllBelow bound m.disk
      → read_entries_from_disk codec headers m
        ≡ some (sort_by (λ a b. ltb (entry_timestamp a) (entry_timestamp b)) es)
  unfolding read_entries_from_disk
  read_entries-DiskHolds m bound es d b =
      rw (collect_files-by_id m.segment_size bound m.disk es d b).0 (ground arith)
