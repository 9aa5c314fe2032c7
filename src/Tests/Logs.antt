-- ===== src/Tests/Logs.antt =====
-- The write-ahead log at concrete inputs.
use f4kvs_lsm.Base.{
  false, none, ℕ, zero, suc, ◌≡◌, refl, none, some, List, [], ◌∷◌, ◌++◌, get_or, replicate, take,
  drop, arith,
}
use f4kvs_lsm.Base.Bytes.{le_bytes, from_le, from_le-le_bytes}
use f4kvs_lsm.Base.Sort.{sort_by}
use f4kvs_lsm.Memtable
use f4kvs_lsm.Wal.{
  WalEntry, Codec, put, delete, flush, checkpoint, IsReadable, entry_timestamp, record_bytes,
}
use f4kvs_lsm.Wal.Segment.{WalSegmentHeader, header_of, header_size}
use f4kvs_lsm.Wal.Manager.{
  WalManager, write_entry, batch_write_entries, read_entries_from_disk, rotate_segment, initialize,
}
use f4kvs_lsm.Wal.Manager.Files.{IsHeader, IsHeaderCodec}
use f4kvs_lsm.Wal.Manager.Log.{IsLogAt, IsLog, rotate_closed, fresh, fresh_file}
use f4kvs_lsm.Wal.Manager.Writes.{write_entry-IsLog, write_entry_dropped}
use f4kvs_lsm.Wal.Manager.Batches.{batch_write_entries-IsLog}
use f4kvs_lsm.Wal.Manager.Opening.{crashed-IsLog, crashed}
use f4kvs_lsm.Wal.Replay.{recover_from_wal, apply_entries, last_checkpoint, checkpoint_time}
use f4kvs_lsm.Wal.Replay.Outcome.{
  lookup-recover_from_wal, recover_from_wal_same_second, last_word, or_before,
}
use f4kvs_lsm.Wal.Replay.Written.{write_operation-recovered}
use f4kvs_lsm.Wal.Operations.{write_operation}
use f4kvs_lsm.Wal.GroupCommit.{GroupCommit}
use f4kvs_lsm.Memtable.Lookup.{seen}
use f4kvs_lsm.Wal.Replay.Durable.{recover_from_wal-crashed}
use f4kvs_lsm.Tests.{one_byte, key_a, new_value, bare_memtable}

-- Puts of one value and deletes, as a tag, the time and the key.
abbrev pub test_codec : Codec (WalEntry ℕ)
test_codec = record {
  serialize = λ e. elim e [
    | put key value timestamp ↦ 0 ∷ timestamp ∷ key
    | delete key timestamp ↦ 1 ∷ timestamp ∷ key
    | flush memtable_id timestamp ↦ 2 ∷ timestamp ∷ []
    | checkpoint timestamp ↦ 3 ∷ timestamp ∷ []
  ];
  deserialize = λ bytes. elim bytes [
    | zero ∷ timestamp ∷ key ↦ some (put key new_value timestamp)
    | suc zero ∷ timestamp ∷ key ↦ some (delete key timestamp)
    | _ ↦ none
  ];
}

-- The form of `bincode`: the fields one behind the other, at their fixed widths.
abbrev pub header_codec : Codec WalSegmentHeader
header_codec = record {
  serialize = λ h. h.magic ++ (h.version ∷ (le_bytes 8 h.created_at ++ le_bytes 4 h.entry_count));
  deserialize = λ bytes. some (record {
    magic = take 4 bytes;
    version = get_or bytes 4 0;
    created_at = from_le (take 8 (drop 5 bytes));
    entry_count = from_le (take 4 (drop 13 bytes));
  });
}

header_codec-sized : (h : WalSegmentHeader) → IsHeader h → header_size header_codec h ≡ 17
unfolding header_size le_bytes
header_codec-sized h i = rw i.magical refl

header_codec-decodes :
    (h : WalSegmentHeader)
    → IsHeader h
    → header_codec.deserialize (header_codec.serialize h) ≡ some h
unfolding le_bytes
header_codec-decodes h i =
    let created : from_le (le_bytes 8 h.created_at) ≡ h.created_at =
      from_le-le_bytes 8 h.created_at i.dated in
    let count : from_le (le_bytes 4 h.entry_count) ≡ h.entry_count =
      from_le-le_bytes 4 h.entry_count i.counted in
    ground (arith, i.magical, created, count)

pub header_codec-IsHeaderCodec : IsHeaderCodec header_codec
unfolding header_size header_of le_bytes
header_codec-IsHeaderCodec = record { sized = header_codec-sized; decodes = header_codec-decodes }

-- A directory without files, and a log that was just made in it.
abbrev empty_dir : WalManager
empty_dir = record {
  segment_size = 40;
  current_segment = none;
  segments = [];
  segment_counter = 1;
  disk = [];
}

abbrev pub first_log : WalManager
first_log = rotate_segment test_codec header_codec 5 empty_dir

first_log-IsLogAt :
    IsLogAt test_codec header_codec header_codec-IsHeaderCodec first_log
      (fresh test_codec header_codec header_codec-IsHeaderCodec 5 empty_dir)
      (fresh_file test_codec header_codec header_codec-IsHeaderCodec 5)
      []
first_log-IsLogAt =
    rotate_closed test_codec header_codec header_codec-IsHeaderCodec 5 empty_dir [] refl refl tt
      (omega arith) (omega arith)

pub first_log-IsLog : IsLog test_codec header_codec header_codec-IsHeaderCodec first_log []
first_log-IsLog = (
  fresh test_codec header_codec header_codec-IsHeaderCodec 5 empty_dir,
  fresh_file test_codec header_codec header_codec-IsHeaderCodec 5,
  first_log-IsLogAt,
)

abbrev pub put_a : WalEntry ℕ
put_a = put key_a new_value 7

abbrev crashed_log : WalManager
crashed_log = crashed test_codec header_codec header_codec-IsHeaderCodec first_log put_a 5

pub put_a-IsReadable : IsReadable test_codec 40 put_a
put_a-IsReadable = record {
  decodes = refl;
  nonempty = omega arith;
  within = omega arith;
  fits = omega arith;
}

write_entry-IsLog_example :
    (m : WalManager) × (write_entry test_codec header_codec 6 first_log put_a ≡ some m)
    × IsLog test_codec header_codec header_codec-IsHeaderCodec m (put_a ∷ [])
unfolding rotate_segment header_of header_size le_bytes
write_entry-IsLog_example =
    write_entry-IsLog test_codec header_codec header_codec-IsHeaderCodec 6 first_log put_a []
      first_log-IsLog put_a-IsReadable (omega arith) (omega arith) (omega arith)

-- More than a segment takes.
abbrev large : WalEntry ℕ
large = delete (replicate 30 97) 8

write_entry_dropped_example :
    (m : WalManager) × (write_entry test_codec header_codec 6 first_log large ≡ some m)
    × IsLog test_codec header_codec header_codec-IsHeaderCodec m []
unfolding rotate_segment header_of header_size le_bytes
write_entry_dropped_example =
    write_entry_dropped test_codec header_codec header_codec-IsHeaderCodec 6 first_log large []
      first_log-IsLog (omega arith) (omega arith) (omega arith)

abbrev four_puts : List (WalEntry ℕ)
four_puts = put_a ∷ put_a ∷ put_a ∷ put_a ∷ []

batch_write_entries-IsLog_example :
    (m : WalManager) × (batch_write_entries test_codec header_codec 6 first_log four_puts ≡ some m)
    × IsLog test_codec header_codec header_codec-IsHeaderCodec m four_puts
unfolding rotate_segment
batch_write_entries-IsLog_example =
    batch_write_entries-IsLog test_codec header_codec header_codec-IsHeaderCodec 6 first_log []
      four_puts first_log-IsLog
      (put_a-IsReadable, (put_a-IsReadable, (put_a-IsReadable, (put_a-IsReadable, tt))))
      (omega arith) (omega arith)

crashed-IsLog_example :
    (read_entries_from_disk test_codec header_codec crashed_log ≡ some [])
    × IsLog test_codec header_codec header_codec-IsHeaderCodec
        (initialize test_codec header_codec 9 crashed_log)
        []
unfolding le_bytes record_bytes sort_by rotate_segment
crashed-IsLog_example =
    crashed-IsLog test_codec header_codec header_codec-IsHeaderCodec 9 first_log [] put_a 5
      first_log-IsLog (omega arith) (omega arith) (omega arith) (omega arith)

recover_from_wal-crashed_example :
    (read : List (WalEntry ℕ)) × (read_entries_from_disk test_codec header_codec crashed_log
      ≡ some read)
    × (recover_from_wal one_byte bare_memtable read ≡ apply_entries one_byte bare_memtable [])
unfolding le_bytes record_bytes last_checkpoint rotate_segment
recover_from_wal-crashed_example =
    recover_from_wal-crashed test_codec header_codec header_codec-IsHeaderCodec one_byte first_log
      [] put_a 5 bare_memtable first_log-IsLog (omega arith) (omega arith) (omega arith) tt refl

-- A checkpoint between a put of its own second and a delete of the next.
abbrev around_checkpoint : List (WalEntry ℕ)
around_checkpoint = put_a ∷ checkpoint 7 ∷ delete key_a 8 ∷ []

lookup-recover_from_wal_example :
    Memtable.lookup (recover_from_wal one_byte bare_memtable around_checkpoint) key_a
    ≡ or_before
        (last_word (last_checkpoint around_checkpoint) around_checkpoint key_a)
        (Memtable.lookup bare_memtable key_a)
lookup-recover_from_wal_example =
    lookup-recover_from_wal one_byte bare_memtable around_checkpoint key_a

recover_from_wal_same_second_example :
    recover_from_wal one_byte bare_memtable (checkpoint 7 ∷ put_a ∷ [])
    ≡ recover_from_wal one_byte bare_memtable (checkpoint 7 ∷ [])
unfolding entry_timestamp checkpoint_time
recover_from_wal_same_second_example =
    recover_from_wal_same_second one_byte bare_memtable [] put_a 7 (omega arith) refl

abbrev queue_and_log : GroupCommit ℕ
queue_and_log = record {
  manager = first_log;
  pending = [];
  timing = record { first_pending_at = none; last_enqueue_at = none };
  acks = [];
}

write_operation-recovered_example :
    (g : GroupCommit ℕ) × (read : List (WalEntry ℕ)) × (write_operation test_codec header_codec
        false 7 3 0 queue_and_log key_a new_value
      ≡ some g)
    × (read_entries_from_disk test_codec header_codec g.manager ≡ some read)
    × (Memtable.lookup (recover_from_wal one_byte bare_memtable read) key_a ≡ seen new_value)
unfolding header_size header_of le_bytes rotate_segment last_checkpoint
write_operation-recovered_example =
    write_operation-recovered test_codec header_codec header_codec-IsHeaderCodec one_byte 7 3 0
      queue_and_log [] key_a new_value bare_memtable first_log-IsLog put_a-IsReadable (omega arith)
      (omega arith) (omega arith) tt refl
