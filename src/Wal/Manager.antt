-- ===== src/Wal/Manager.antt =====
-- crates/f4kvs-lsm/src/storage/wal.rs: WALManager, the segments of the log on the disk and the one
-- that is written. The directory is the list of the files that the log made, each under the number
-- in its name, the newest first; removing and writing files succeed. A `none` is an error.
pub mod Files
pub mod Recovery
pub mod Log
pub mod Writes
pub mod Batches
pub mod Opening
use f4kvs_lsm.Base.{
  ℕ, zero, suc, ◌+◌, ◌-◌, ◌%◌, ◌<◌, Bool, true, false, ◌&&◌, ◌||◌, not, Option, none, some, List,
  [], ◌∷◌, ◌++◌, max, map, Key, length, if◌then◌else◌, leb, ltb, ◌==◌,
}
use f4kvs_lsm.Base.Sort.{sort_by}
use f4kvs_lsm.Base.Words.{u32_mod, u64_mod}
use f4kvs_lsm.Value.{Value}
use f4kvs_lsm.Wal.{WalEntry, Codec, records, entry_timestamp, put, delete, checkpoint}
use f4kvs_lsm.Wal.Segment
use f4kvs_lsm.Wal.Segment.{
  WalSegment, WalSegmentHeader, write_header, new, open_empty_for_append, open_for_reading,
  should_rotate, read_entries,
}

abbrev pub Disk : Type 0
Disk = List (ℕ × List ℕ)

pub record WalManager : Type 0 where
  pub segment_size : ℕ
  pub current_segment : Option WalSegment
  pub segments : List (ℕ × ℕ)
  pub segment_counter : ℕ
  pub disk : Disk

unfoldable pub file_at : Disk → ℕ → Option (List ℕ)
file_at [] path = none
file_at ((id, file) ∷ disk) path = if id == path then some file else file_at disk path

-- What opening the file with `create` finds in it.
unfoldable pub contents_at : Disk → ℕ → List ℕ
unfolding file_at
contents_at disk path = elim (file_at disk path) [ none ↦ [] | some file ↦ file ]

unfoldable pub replace_file : Disk → ℕ → List ℕ → Disk
replace_file [] path file = []
replace_file ((id, old) ∷ disk) path file =
    let rest = replace_file disk path file in
    if id == path then (id, file) ∷ disk else (id, old) ∷ rest

unfoldable pub write_file : Disk → ℕ → List ℕ → Disk
unfolding file_at replace_file
write_file disk path file = elim (file_at disk path) [
  | none ↦ (path, file) ∷ disk
  | some old ↦ replace_file disk path file
]

-- `HashMap::insert`
unfoldable pub insert_segment : List (ℕ × ℕ) → ℕ → ℕ → List (ℕ × ℕ)
insert_segment [] id path = (id, path) ∷ []
insert_segment ((j, p) ∷ segments) id path =
    if j == id then (id, path) ∷ segments else (j, p) ∷ insert_segment segments id path

-- The largest number of a file, from 0 on.
unfoldable pub max_segment_id : Disk → ℕ
max_segment_id [] = 0
max_segment_id ((id, file) ∷ disk) = max (max_segment_id disk) id

unfoldable pub scan_existing_segments : WalManager → WalManager
unfolding max_segment_id
scan_existing_segments m = record m { segment_counter = max_segment_id m.disk + 1 }

-- `should_rotate` on the segment that is open
unfoldable pub is_full : WalManager → Bool
unfolding contents_at should_rotate
is_full m = elim m.current_segment [
  | none ↦ false
  | some s ↦ should_rotate s (contents_at m.disk s.path)
]

module _ {J : Type 0} (codec : Codec (WalEntry J)) (headers : Codec WalSegmentHeader) where
  -- The segment that `rotate_segment` closes: its header is written, and it joins the list under
  -- the number that the new one takes.
  unfoldable pub close_current : WalManager → WalManager
  unfolding write_file contents_at insert_segment
  close_current m = elim m.current_segment [
    | none ↦ m
    | some s ↦ record m {
      current_segment = none;
      segments = insert_segment m.segments m.segment_counter s.path;
      disk = write_file m.disk s.path (write_header headers s (contents_at m.disk s.path));
    }
  ]

  unfoldable pub rotate_segment : ℕ → WalManager → WalManager
  unfolding close_current
  rotate_segment now m =
      let closed = close_current m in
      let id = m.segment_counter in
      let (s, file) = new headers id m.segment_size now (contents_at closed.disk id) in
      record closed {
        current_segment = some s;
        segment_counter = (id + 1) % u64_mod;
        disk = write_file closed.disk id file;
      }

  -- The manager after a write to its segment.
  unfoldable pub store : WalManager → WalSegment → List ℕ → WalManager
  store m s file = record m { current_segment = some s; disk = write_file m.disk s.path file }

  unfoldable pub try_write : WalManager → WalEntry J → Option (WalManager × Bool)
  unfolding store
  try_write m e = elim m.current_segment [
    | none ↦ none
    | some s ↦
        let (s', file, done) = Segment.write_entry codec s (contents_at m.disk s.path) e in
        some (store m s' file, done)
  ]

  -- The second attempt does not look at whether the segment took the entry.
  unfoldable pub write_entry : ℕ → WalManager → WalEntry J → Option WalManager
  unfolding try_write rotate_segment
  write_entry now m e = elim (try_write m e) [
    | none ↦ none
    | some (written, true) ↦ some written
    | some (full, false) ↦ elim (try_write (rotate_segment now full) e) [
      | none ↦ none
      | some (written, done) ↦ some written
    ]
  ]

  unfoldable pub append_batch : WalManager → List (WalEntry J) → Option WalManager
  unfolding store
  append_batch m es = elim m.current_segment [
    | none ↦ none
    | some s ↦
        let count = (s.entry_count + length es) % u32_mod in
        let counted : WalSegment = record s {
          entry_count = count;
          header = record (s.header) { entry_count = count };
        } in
        let file = contents_at m.disk s.path ++ records codec es in
        some (store m counted (write_header headers counted file))
  ]

  unfoldable pub overflows : WalManager → List (WalEntry J) → Bool
  overflows m es = elim m.current_segment [
    | none ↦ false
    | some s ↦ ltb s.max_size (length (contents_at m.disk s.path) + length (records codec es))
  ]

  unfoldable pub batch_write_entries : ℕ → WalManager → List (WalEntry J) → Option WalManager
  unfolding append_batch is_full overflows rotate_segment
  batch_write_entries now m [] = some m
  batch_write_entries now m (e ∷ es) =
      let emptied = if is_full m then rotate_segment now m else m in
      let ready = if overflows emptied (e ∷ es) then rotate_segment now emptied else emptied in
      append_batch ready (e ∷ es)

  unfoldable pub try_reuse_last_empty_segment : ℕ → WalManager → Option WalManager
  try_reuse_last_empty_segment now m =
      if leb m.segment_counter 1
      then none
      else elim (open_empty_for_append headers (m.segment_counter - 1) m.segment_size now
          (file_at m.disk (m.segment_counter - 1))) [
            | none ↦ none
            | some s ↦ some (record m { current_segment = some s })
          ]

  unfoldable pub initialize : ℕ → WalManager → WalManager
  unfolding scan_existing_segments try_reuse_last_empty_segment rotate_segment
  initialize now m =
      let scanned = scan_existing_segments m in
      elim (try_reuse_last_empty_segment now scanned) [
        | none ↦ rotate_segment now scanned
        | some reused ↦ reused
      ]

  -- All files of the log go, and a new one is made.
  unfoldable pub truncate_after_flush : ℕ → WalManager → WalManager
  unfolding rotate_segment
  truncate_after_flush now m =
      rotate_segment now (record m { current_segment = none; segments = []; disk = [] })

  -- A checkpoint goes to the log, where there is one, and then the log goes.
  unfoldable pub mark_clean_shutdown : ℕ → WalManager → Option WalManager
  unfolding write_entry truncate_after_flush
  mark_clean_shutdown now m = elim m.current_segment [
    | none ↦ some (truncate_after_flush now m)
    | some s ↦ elim (write_entry now m (checkpoint now)) [
      | none ↦ none
      | some written ↦ some (truncate_after_flush now written)
    ]
  ]

  unfoldable pub verify_truncated : WalManager → Bool
  verify_truncated m = elim m.current_segment [
    | none ↦ false
    | some s ↦ elim m.segments [
      | _ ∷ _ ↦ false
      | [] ↦ elim m.disk [ [] ↦ true | (id, file) ∷ [] ↦ s.path == id | _ ∷ _ ∷ _ ↦ false ]
    ]
  ]

  -- The entries of each file that can be read, and the number of these files.
  unfoldable pub collect_files : ℕ → Disk → List (WalEntry J) × ℕ
  unfolding open_for_reading read_entries
  collect_files max_size [] = ([], 0)
  collect_files max_size ((id, file) ∷ disk) =
      let (later, count) = collect_files max_size disk in
      elim (open_for_reading headers id max_size file) [
        | none ↦ (later, count)
        | some s ↦ (read_entries codec headers s file ++ later, count + 1)
      ]

  -- `sort_by_key` on the numbers of the files, and at the end on the timestamps.
  unfoldable pub read_entries_from_disk : WalManager → Option (List (WalEntry J))
  unfolding collect_files
  read_entries_from_disk m =
      let (entries, ok) = collect_files m.segment_size (sort_by (λ a b. ltb a.0 b.0) m.disk) in
      if ltb 0 (length m.disk) && ok == 0
      then none
      else some (sort_by (λ a b. ltb (entry_timestamp a) (entry_timestamp b)) entries)
