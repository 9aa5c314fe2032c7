-- ===== src/Wal/Index.antt =====
-- crates/f4kvs-lsm/src/storage/wal_index.rs: the durable index of the indexed log, with its two
-- slots of 4096 bytes. The file is its two slots. The CRC-32 of `crc32fast` is the parameter `crc`.
pub mod Slots
pub mod Commits
use f4kvs_lsm.Base.{
  ℕ, zero, suc, ◌+◌, ◌%◌, ◌<◌, ◌≡◌, Bool, true, false, ◌||◌, not, Option, none, some, List, [], ◌∷◌,
  ◌++◌, key_eq, length, take, drop, get_or, replicate, if◌then◌else◌, ltb, ◌==◌,
}
use f4kvs_lsm.Base.Bytes.{le_bytes, from_le}
use f4kvs_lsm.Base.Words.{u32_mod, u64_mod, u64_saturating_add}

pub record WalIndexHeader : Type 0 where
  pub generation : ℕ
  pub segment_id : ℕ
  pub frame_size : ℕ
  pub committed_frame : ℕ
  pub committed_offset : ℕ
  pub entry_count : ℕ
  pub checksum : ℕ

-- b"WIDX"
abbrev pub magic : List ℕ
magic = 87 ∷ 73 ∷ 68 ∷ 88 ∷ []

abbrev pub version : ℕ
version = 1

-- The bytes of a slot behind the checksum, which stay 0.
unfoldable pub padding : List ℕ
padding = replicate 4052 0

-- The file: the slot at its start and the one behind it.
pub record WalIndexFile : Type 0 where
  pub slot_a : List ℕ
  pub slot_b : List ℕ
  pub latest : WalIndexHeader

unfoldable pub to_slot_bytes : WalIndexHeader → List ℕ
to_slot_bytes h =
    magic
    ++ (version
        ∷ 0
        ∷ 0
        ∷ 0
        ∷ (le_bytes 8 h.generation
            ++ (le_bytes 4 h.segment_id
                ++ (le_bytes 4 h.frame_size
                    ++ (le_bytes 4 h.committed_frame
                        ++ (le_bytes 4 h.committed_offset
                            ++ (le_bytes 8 h.entry_count
                                ++ (le_bytes 4 h.checksum ++ padding))))))))

-- The number in `w` bytes from `at` on.
unfoldable pub word_at : List ℕ → ℕ → ℕ → ℕ
word_at slot at w = from_le (take w (drop at slot))

unfoldable pub fields_of : List ℕ → WalIndexHeader
unfolding word_at
fields_of slot = record {
  generation = word_at slot 8 8;
  segment_id = word_at slot 16 4;
  frame_size = word_at slot 20 4;
  committed_frame = word_at slot 24 4;
  committed_offset = word_at slot 28 4;
  entry_count = word_at slot 32 8;
  checksum = word_at slot 40 4;
}

-- `max_by_key`, which takes the last of equal ones; `none` is an error.
unfoldable pub newest : Option WalIndexHeader → Option WalIndexHeader → Option WalIndexHeader
newest none b = b
newest (some a) none = some a
newest (some a) (some b) = if ltb b.generation a.generation then some a else some b

-- The slot of the file at `(generation % 2) * WAL_INDEX_SLOT_SIZE`.
unfoldable pub slot_at : ℕ → WalIndexFile → List ℕ
slot_at generation f = if generation % 2 == 0 then f.slot_a else f.slot_b

-- The file after `write_all` of a whole slot there.
unfoldable pub put_slot : ℕ → List ℕ → WalIndexFile → WalIndexFile
put_slot generation bytes f =
    if generation % 2 == 0 then record f { slot_a = bytes } else record f { slot_b = bytes }

-- `if let Ok(header)`: the header that was read becomes the latest.
unfoldable pub keep_latest : Option WalIndexHeader → WalIndexFile → WalIndexFile
keep_latest none f = f
keep_latest (some h) f = record f { latest = h }

module _ (crc : List ℕ → ℕ) where
  unfoldable pub compute_checksum : WalIndexHeader → ℕ
  compute_checksum h = crc (
      magic
      ++ (version
          ∷ (le_bytes 8 h.generation
              ++ (le_bytes 4 h.segment_id
                  ++ (le_bytes 4 h.frame_size
                      ++ (le_bytes 4 h.committed_frame
                          ++ (le_bytes 4 h.committed_offset ++ le_bytes 8 h.entry_count)))))))

  unfoldable pub new : ℕ → ℕ → WalIndexHeader
  new segment_id frame_size =
      let h : WalIndexHeader = record {
        generation = 0;
        segment_id = segment_id;
        frame_size = frame_size;
        committed_frame = 0;
        committed_offset = 0;
        entry_count = 0;
        checksum = 0;
      } in
      record h { checksum = compute_checksum h }

  unfoldable pub verify : WalIndexHeader → Bool
  verify h = h.checksum == compute_checksum h

  -- `none` is the error `Corruption`.
  unfoldable pub from_slot_bytes : List ℕ → Option WalIndexHeader
  from_slot_bytes slot =
      if ltb (length slot) 44
        || not (key_eq (take 4 slot) magic)
        || not (get_or slot 4 0 == version)
      then none
      else if verify (fields_of slot)
      then some (fields_of slot)
      else none

  -- A slot without the magic is not looked at.
  unfoldable pub candidate : List ℕ → Option WalIndexHeader
  candidate slot = if key_eq (take 4 slot) magic then from_slot_bytes slot else none

  unfoldable pub read_latest : WalIndexFile → Option WalIndexHeader
  read_latest f = newest (candidate f.slot_a) (candidate f.slot_b)

  -- On the two slots of the file, `open` takes what it can read, and else a new header.
  unfoldable pub open_index : List ℕ → List ℕ → ℕ → ℕ → WalIndexFile
  open_index slot_a slot_b segment_id frame_size =
      let f : WalIndexFile = record {
        slot_a = slot_a;
        slot_b = slot_b;
        latest = new segment_id frame_size;
      } in
      keep_latest (read_latest f) f

  -- The header with the next generation and its checksum.
  unfoldable pub stamped : WalIndexFile → WalIndexHeader → WalIndexHeader
  stamped f h =
      let next : WalIndexHeader = record h {
        generation = u64_saturating_add f.latest.generation 1;
      } in
      record next { checksum = compute_checksum next }

  -- `commit` and `commit_volatile` differ in whether the slot is synced.
  unfoldable pub write_slot : WalIndexFile → WalIndexHeader → WalIndexFile
  write_slot f h =
      let next = stamped f h in
      record (put_slot next.generation (to_slot_bytes next) f) { latest = next }
