-- ===== src/Wal/Segment.antt =====
-- crates/f4kvs-lsm/src/storage/wal.rs: WALSegment, one file of the log. The bytes of the file stand
-- beside the segment and are passed along. Reads and writes of the file do not fail, except at its
-- end; syncing changes no bytes and is left out.
pub mod ReadBack
use f4kvs_lsm.Base.{
  ℕ, zero, suc, ◌+◌, Bool, true, false, ◌||◌, Option, none, some, List, [], ◌∷◌, ◌++◌, Key, key_eq,
  length, take, drop, if◌then◌else◌, leb, ltb, ◌==◌,
}
use f4kvs_lsm.Base.Bytes.{from_le}
use f4kvs_lsm.Base.Words.{u32_add}
use f4kvs_lsm.Wal.{WalEntry, Codec, record_bytes}

pub record WalSegmentHeader : Type 0 where
  pub magic : List ℕ
  pub version : ℕ
  pub created_at : ℕ
  pub entry_count : ℕ

-- The file is named for `path`, the number in its name.
pub record WalSegment : Type 0 where
  pub path : ℕ
  pub header : WalSegmentHeader
  pub entry_count : ℕ
  pub max_size : ℕ

-- b"WAL1"
abbrev pub magic : List ℕ
magic = 87 ∷ 65 ∷ 76 ∷ 49 ∷ []

unfoldable pub header_of : ℕ → WalSegmentHeader
header_of created_at = record {
  magic = magic;
  version = 1;
  created_at = created_at;
  entry_count = 0;
}

-- `write_all` at the start of the file
unfoldable pub overwrite : List ℕ → List ℕ → List ℕ
overwrite bytes file = bytes ++ drop (length bytes) file

unfoldable pub should_rotate : WalSegment → List ℕ → Bool
should_rotate s file = leb s.max_size (length file)

module _ (headers : Codec WalSegmentHeader) where
  -- `bincode::serialized_size` of a header
  unfoldable pub header_size : WalSegmentHeader → ℕ
  header_size h = length (headers.serialize h)

  unfoldable pub write_header : WalSegment → List ℕ → List ℕ
  unfolding overwrite
  write_header s file = overwrite (headers.serialize s.header) file

  -- The file is not truncated where it is there already.
  unfoldable pub new : ℕ → ℕ → ℕ → List ℕ → WalSegment × List ℕ
  unfolding header_of write_header
  new path max_size now file =
      let s : WalSegment = record {
        path = path;
        header = header_of now;
        entry_count = 0;
        max_size = max_size;
      } in
      (s, write_header s file)

  -- `none` for the file: it is not there.
  unfoldable pub open_empty_for_append : ℕ → ℕ → ℕ → Option (List ℕ) → Option WalSegment
  unfolding header_of header_size
  open_empty_for_append path max_size now none = none
  open_empty_for_append path max_size now (some file) =
      if length file == header_size (header_of 0)
      then some
          (record { path = path; header = header_of now; entry_count = 0; max_size = max_size })
      else none

  -- `none` is an error.
  unfoldable pub open_for_reading : ℕ → ℕ → List ℕ → Option WalSegment
  unfolding header_of header_size
  open_for_reading path max_size file =
      if ltb (length file) (header_size (header_of 0))
      then some (record { path = path; header = header_of 0; entry_count = 0; max_size = max_size })
      else elim (headers.deserialize (take (header_size (header_of 0)) file)) [
        | none ↦ none
        | some h ↦
            if key_eq h.magic magic
            then some (record {
              path = path;
              header = h;
              entry_count = h.entry_count;
              max_size = max_size;
            })
            else none
      ]

module _ {J : Type 0} (codec : Codec (WalEntry J)) where
  -- `false`: the segment is full, and nothing was written.
  unfoldable pub write_entry : WalSegment → List ℕ → WalEntry J → WalSegment × List ℕ × Bool
  unfolding record_bytes
  write_entry s file e =
      if ltb s.max_size (length file + (length (codec.serialize e) + 4))
      then (s, file, false)
      else (
        record s {
          entry_count = u32_add s.entry_count 1;
          header = record (s.header) { entry_count = u32_add s.entry_count 1 };
        },
        file ++ record_bytes codec e,
        true,
      )

  -- The loop of `read_entries` over the bytes that are left. It ends at the end of the file, at a
  -- size of 0 or above the limit, and at a torn entry; what `bincode` cannot read is skipped.
  unfoldable pub read_records : ℕ → ℕ → List ℕ → List (WalEntry J)
  read_records zero max_size bytes = []
  read_records (suc fuel) max_size bytes =
      let size = from_le (take 4 bytes) in
      let body = drop 4 bytes in
      let rest = read_records fuel max_size (drop size body) in
      let read : List (WalEntry J) = elim (codec.deserialize (take size body)) [
        | none ↦ rest
        | some e ↦ e ∷ rest
      ] in
      if ltb (length bytes) 4 || size == 0 || ltb max_size size || ltb (length body) size
      then []
      else read

module _ {J : Type 0} (codec : Codec (WalEntry J)) (headers : Codec WalSegmentHeader) where
  -- Each round takes bytes off, so that the length of the file is fuel enough.
  unfoldable pub read_entries : WalSegment → List ℕ → List (WalEntry J)
  unfolding header_size read_records
  read_entries s file =
      if leb (length file) (header_size headers s.header)
      then []
      else read_records codec (length file) s.max_size (drop (header_size headers s.header) file)
