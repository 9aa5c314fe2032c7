-- ===== src/Tests/IndexedLogs.antt =====
-- The segment of the indexed log at concrete inputs.
use f4kvs_lsm.Base.{ℕ, ◌≡◌, refl, some, List, [], ◌∷◌, arith, inl, inr, take, ◌⊎◌, false}
use f4kvs_lsm.Base.Bytes.{le_bytes}
use f4kvs_lsm.Wal.{WalEntry, records, record_bytes, IsReadable}
use f4kvs_lsm.Wal.Index.{new}
use f4kvs_lsm.Wal.Indexed.{
  IndexedLog, create, fsync, commit_frame, read_committed_entries, has_frame_capacity, syncs_each,
}
use f4kvs_lsm.Wal.Indexed.Writing.{append_entry, append_entries_batch}
use f4kvs_lsm.Wal.Indexed.Frames.{FramesHold, IsMarked, read_committed_entries-FramesHold}
use f4kvs_lsm.Wal.Indexed.Commits.{IsCommitted, commit_frame-IsCommitted}
use f4kvs_lsm.Wal.Indexed.Appends.{IsIndexed, IsFit}
use f4kvs_lsm.Wal.Indexed.Entries.{IsSynced, append_entry-IsSynced}
use f4kvs_lsm.Wal.Indexed.Batches.{append_entries_batch-IsIndexed}
use f4kvs_lsm.Wal.Indexed.Resumed.{resumed, commit_next, commit_frame_overwrites}
use f4kvs_lsm.Tests.Indexes.{crc, first_index}
use f4kvs_lsm.Tests.Logs.{test_codec, put_a}

-- A segment that was just made, with frames of 16 bytes.
abbrev first_log : IndexedLog
first_log = record { segment = create 1 16 64 fsync; index = first_index; state = new crc 1 16 }

first_log-IsCommitted : IsCommitted test_codec 0 first_log []
unfolding create new FramesHold IsMarked
first_log-IsCommitted = record { next = refl; frames = (refl, refl); mark = refl }

first_log-IsIndexed : IsIndexed test_codec first_log [] []
unfolding create records
first_log-IsIndexed = record {
  frame = 0;
  committed = first_log-IsCommitted;
  bytes = refl;
  counted = refl;
  room = inl refl;
  within = omega arith;
  readable = tt;
  small = omega arith;
  size = omega arith;
}

put_a-IsReadable : IsReadable test_codec 4294967296 put_a
put_a-IsReadable = record {
  decodes = refl;
  nonempty = omega arith;
  within = omega arith;
  fits = omega arith;
}

put_a-IsFit : IsFit test_codec put_a
unfolding record_bytes le_bytes
put_a-IsFit = record { readable = put_a-IsReadable; fits = omega arith }

append_entry-IsSynced_example :
    IsSynced test_codec (append_entry test_codec crc first_log put_a) [] put_a
unfolding syncs_each create
append_entry-IsSynced_example =
    append_entry-IsSynced test_codec crc first_log [] put_a first_log-IsIndexed put_a-IsFit refl

abbrev three_puts : List (WalEntry ℕ)
three_puts = put_a ∷ put_a ∷ put_a ∷ []

append_entries_batch-IsIndexed_example :
    (l' : IndexedLog) × (n : ℕ) × (append_entries_batch test_codec crc first_log three_puts
      ≡ (l', n))
    × IsIndexed test_codec l' (take n three_puts) []
    × ((n ≡ 3) ⊎ (has_frame_capacity l'.segment ≡ false))
append_entries_batch-IsIndexed_example =
    append_entries_batch-IsIndexed test_codec crc first_log [] three_puts first_log-IsIndexed
      (put_a-IsFit, (put_a-IsFit, (put_a-IsFit, tt)))

abbrev one_frame : IndexedLog
one_frame = commit_frame crc first_log 1 (records test_codec (put_a ∷ [])) 1

one_frame-IsCommitted : IsCommitted test_codec 1 one_frame (put_a ∷ [])
unfolding records record_bytes le_bytes
one_frame-IsCommitted =
    commit_frame-IsCommitted test_codec crc 0 1 first_log [] (put_a ∷ []) first_log-IsCommitted
      (put_a-IsReadable, tt) (omega arith) (omega arith)

read_committed_entries-FramesHold_example :
    read_committed_entries test_codec one_frame.segment one_frame.state ≡ some (put_a ∷ [])
read_committed_entries-FramesHold_example =
    read_committed_entries-FramesHold test_codec one_frame.segment one_frame.state 1 (put_a ∷ [])
      one_frame-IsCommitted.frames (inr one_frame-IsCommitted.mark)

abbrev reopened : IndexedLog
reopened = resumed first_log (commit_next crc first_log (records test_codec (put_a ∷ [])) 1)

commit_frame_overwrites_example :
    (read_committed_entries test_codec reopened.segment first_log.state ≡ some (put_a ∷ []))
    × (reopened.segment.staging_frame ≡ first_log.segment.staging_frame)
    × (read_committed_entries test_codec
          (commit_next crc reopened (records test_codec (put_a ∷ put_a ∷ [])) 2).segment
          (commit_next crc reopened (records test_codec (put_a ∷ put_a ∷ [])) 2).state
        ≡ some (put_a ∷ put_a ∷ []))
unfolding records record_bytes le_bytes
commit_frame_overwrites_example =
    commit_frame_overwrites test_codec crc 0 1 2 first_log [] (put_a ∷ []) (put_a ∷ put_a ∷ [])
      first_log-IsCommitted (put_a-IsReadable, tt) (put_a-IsReadable, (put_a-IsReadable, tt))
      (omega arith) (omega arith) (omega arith)
