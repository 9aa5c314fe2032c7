-- ===== src/Wal/Indexed.antt =====
-- crates/f4kvs-lsm/src/storage/wal_indexed.rs: IndexedWalSegment, which packs entries into frames,
-- each a file of its own, and keeps the end of what is committed in the index. The files below
-- `frames_dir` stand in the segment; a segment, the index and the header that its methods take
-- are passed along as one record. Reads and writes of files do not fail, except at an end.
pub mod Writing
pub mod Decoding
pub mod Frames
pub mod Commits
pub mod Appends
pub mod Entries
pub mod Packing
pub mod Batches
pub mod Resumed
use f4kvs_lsm.Base.{
  ℕ, zero, suc, ◌+◌, ◌-◌, ◌%◌, ◌<◌, Bool, true, false, ◌&&◌, ◌||◌, not, Option, none, some, List,
  [], ◌∷◌, ◌++◌, max, length, take, drop, replicate, if◌then◌else◌, leb, ltb, ◌==◌,
}
use f4kvs_lsm.Base.Bytes.{from_le}
use f4kvs_lsm.Base.Words.{u32_mod, u32_add, u64_saturating_add}
use f4kvs_lsm.Wal.{WalEntry, Codec, record_bytes}
use f4kvs_lsm.Wal.Manager.{Disk, file_at, write_file, max_segment_id}
use f4kvs_lsm.Wal.Index.{WalIndexHeader, WalIndexFile, write_slot}

pub data WalSyncMode : Type 0 where
  no_sync : WalSyncMode
  flush_only : WalSyncMode
  fsync : WalSyncMode
  fsync_async : WalSyncMode

pub record IndexedWalSegment : Type 0 where
  pub frame_size : ℕ
  pub data_frame_count : ℕ
  pub segment_id : ℕ
  pub sync_mode : WalSyncMode
  pub staging_frame : ℕ
  pub staging : List ℕ
  pub entries_in_staging : ℕ
  pub frames : Disk

pub record IndexedLog : Type 0 where
  pub segment : IndexedWalSegment
  pub index : WalIndexFile
  pub state : WalIndexHeader

unfoldable pub is_empty : List ℕ → Bool
is_empty [] = true
is_empty (b ∷ bs) = false

-- The modes in which each entry gets a frame of its own.
unfoldable pub syncs_each : WalSyncMode → Bool
syncs_each no_sync = false
syncs_each flush_only = false
syncs_each fsync = true
syncs_each fsync_async = true

unfoldable pub create : ℕ → ℕ → ℕ → WalSyncMode → IndexedWalSegment
create segment_id frame_size data_frame_count sync_mode = record {
  frame_size = frame_size;
  data_frame_count = data_frame_count;
  segment_id = segment_id;
  sync_mode = sync_mode;
  staging_frame = 1;
  staging = [];
  entries_in_staging = 0;
  frames = [];
}

-- On the frames that are there.
unfoldable pub open_existing : Disk → ℕ → ℕ → ℕ → WalSyncMode → ℕ → IndexedWalSegment
open_existing frames segment_id frame_size data_frame_count sync_mode resume_frame = record {
  frame_size = frame_size;
  data_frame_count = data_frame_count;
  segment_id = segment_id;
  sync_mode = sync_mode;
  staging_frame = max resume_frame 1;
  staging = [];
  entries_in_staging = 0;
  frames = frames;
}

unfoldable pub u32_saturating_inc : ℕ → ℕ
u32_saturating_inc n = if ltb (n + 1) u32_mod then n + 1 else n

-- The segment that `initialize` of IndexedWalManager goes on with: the frames that are there, and
-- the frame behind the one that the index knows.
unfoldable pub resume : Disk → IndexedWalSegment → WalIndexHeader → IndexedWalSegment
resume frames s h =
    open_existing frames h.segment_id s.frame_size s.data_frame_count s.sync_mode
      (u32_saturating_inc h.committed_frame)

unfoldable pub frame_file_size : IndexedWalSegment → ℕ → ℕ
frame_file_size s bytes_len = max s.frame_size bytes_len

-- The bytes, with zeros up to the size of the file.
unfoldable pub write_frame_file : IndexedWalSegment → ℕ → List ℕ → IndexedWalSegment
write_frame_file s frame_id bytes = record s {
  frames =
      write_file s.frames frame_id
        (bytes ++ replicate (frame_file_size s (length bytes) - length bytes) 0);
}

unfoldable pub frames_remaining : IndexedWalSegment → ℕ
frames_remaining s =
    if s.staging_frame == 0 || ltb s.data_frame_count s.staging_frame
    then 0
    else s.data_frame_count - s.staging_frame + 1

unfoldable pub has_frame_capacity : IndexedWalSegment → Bool
unfolding frames_remaining
has_frame_capacity s = ltb 0 (frames_remaining s)

-- The header after a frame with that many bytes and entries was written.
unfoldable pub advance : WalIndexHeader → ℕ → ℕ → ℕ → WalIndexHeader
advance h frame_id used entries = record h {
  committed_frame = frame_id;
  committed_offset = used % u32_mod;
  entry_count = u64_saturating_add h.entry_count entries;
}

unfoldable pub stage : IndexedLog → List ℕ → ℕ → IndexedLog
stage l bytes entries = record l {
  segment = record (l.segment) { staging = bytes; entries_in_staging = entries };
}

module _ (crc : List ℕ → ℕ) where
  unfoldable pub commit_frame : IndexedLog → ℕ → List ℕ → ℕ → IndexedLog
  commit_frame l frame_id bytes entries =
      let written = write_frame_file l.segment frame_id bytes in
      let state = advance l.state frame_id (length bytes) entries in
      record {
        segment = record written { staging_frame = u32_saturating_inc written.staging_frame };
        index = write_slot crc l.index state;
        state = state;
      }

  -- `false`: the segment has no frame left, and the staged bytes stay.
  unfoldable pub flush_staging : IndexedLog → IndexedLog × Bool
  flush_staging l =
      if is_empty l.segment.staging
      then (l, true)
      else if not (has_frame_capacity l.segment)
      then (l, false)
      else let committed =
          commit_frame l l.segment.staging_frame l.segment.staging l.segment.entries_in_staging in
        (
          record committed {
            segment = record (committed.segment) { staging = []; entries_in_staging = 0 };
          },
          true,
        )

module _ {J : Type 0} where
  -- `?` on what was decoded, and the entries after it
  unfoldable pub with_entry :
      Option (WalEntry J) → Option (List (WalEntry J)) → Option (List (WalEntry J))
  with_entry (some e) (some es) = some (e ∷ es)
  with_entry none es = none
  with_entry (some e) none = none

  -- One list behind the other, where both were read
  unfoldable pub join :
      Option (List (WalEntry J)) → Option (List (WalEntry J)) → Option (List (WalEntry J))
  join (some es) (some fs) = some (es ++ fs)
  join none fs = none
  join (some es) none = none

module _ {J : Type 0} (codec : Codec (WalEntry J)) where
  -- The loop of `decode_frames` over the bytes that are left; `none` is the error of an entry
  -- that `bincode` cannot read.
  unfoldable pub decode_frames : ℕ → List ℕ → Option (List (WalEntry J))
  decode_frames zero bytes = some []
  decode_frames (suc fuel) bytes =
      let size = from_le (take 4 bytes) in
      let body = drop 4 bytes in
      let rest = decode_frames fuel (drop size body) in
      let decoded = with_entry (codec.deserialize (take size body)) rest in
      if ltb (length bytes) 4 || size == 0 || ltb (length body) size then some [] else decoded

  -- What `read_committed_entries` takes from one frame: a frame that is missing is skipped, and
  -- one that is shorter than a frame is an error, as is a limit behind its end.
  unfoldable pub read_frame : ℕ → Disk → WalIndexHeader → ℕ → ℕ → Option (List (WalEntry J))
  read_frame frame_size frames h last_frame frame_id = elim (file_at frames frame_id) [
    | none ↦ some []
    | some file ↦
        let limit =
          if frame_id == last_frame && h.committed_frame == last_frame && ltb 0 h.committed_offset
          then h.committed_offset
          else length file in
        if ltb (length file) frame_size || ltb (length file) limit
        then none
        else decode_frames (length file) (take limit file)
  ]

  -- The frames from 1 to `n`.
  unfoldable pub read_frames : ℕ → Disk → WalIndexHeader → ℕ → ℕ → Option (List (WalEntry J))
  read_frames frame_size frames h last_frame zero = some []
  read_frames frame_size frames h last_frame (suc n) =
      join (read_frames frame_size frames h last_frame n)
        (read_frame frame_size frames h last_frame (suc n))

  unfoldable pub read_committed_entries :
      IndexedWalSegment → WalIndexHeader → Option (List (WalEntry J))
  read_committed_entries s h =
      let last_frame = max h.committed_frame (max_segment_id s.frames) in
      read_frames s.frame_size s.frames h last_frame last_frame
