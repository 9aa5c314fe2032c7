-- ===== src/Tests/Indexes.antt =====
-- The index of the indexed log at concrete inputs.
use f4kvs_lsm.Base.{ℕ, ◌+◌, ◌%◌, ◌<◌, ◌≡◌, refl, some, List, [], ◌∷◌, arith, inr, cmp}
use f4kvs_lsm.Base.Bytes.{from_le}
use f4kvs_lsm.Base.Words.{u32_mod}
use f4kvs_lsm.Wal.Index.{
  WalIndexHeader, WalIndexFile, new, compute_checksum, candidate, slot_at, stamped, write_slot,
  read_latest, put_slot, from_slot_bytes,
}
use f4kvs_lsm.Wal.Index.Slots.{FieldsFit}
use f4kvs_lsm.Wal.Index.Commits.{IsIndex, IsOlder, read_latest-put_slot_torn, write_slot-IsIndex}

abbrev pub crc : List ℕ → ℕ
crc bytes = from_le bytes % 65521

crc_bounded : (bytes : List ℕ) → crc bytes < u32_mod
crc_bounded bytes = omega arith

abbrev pub first_index : WalIndexFile
first_index = record { slot_a = []; slot_b = []; latest = new crc 1 8192 }

first_index-IsIndex : IsIndex crc first_index
unfolding candidate slot_at cmp IsOlder new
first_index-IsIndex = record { newest = inr (refl, refl); older = tt }

abbrev tail : WalIndexHeader
tail = record (new crc 1 8192) { committed_frame = 1; committed_offset = 100; entry_count = 1 }

tail-FieldsFit : FieldsFit tail
unfolding new compute_checksum
tail-FieldsFit = record {
  generation = omega arith;
  segment_id = omega arith;
  frame_size = omega arith;
  committed_frame = omega arith;
  committed_offset = omega arith;
  entry_count = omega arith;
  checksum = crc_bounded _;
}

write_slot-IsIndex_example :
    IsIndex crc (write_slot crc first_index tail)
    × (read_latest crc (write_slot crc first_index tail) ≡ some (stamped crc first_index tail))
unfolding new
write_slot-IsIndex_example =
    write_slot-IsIndex crc crc_bounded first_index tail first_index-IsIndex tail-FieldsFit
      (omega arith)

read_latest-put_slot_torn_example :
    read_latest crc
      (put_slot (first_index.latest.generation + 1) (87 ∷ 73 ∷ 68 ∷ 88 ∷ 1 ∷ []) first_index)
    ≡ read_latest crc first_index
unfolding new candidate from_slot_bytes cmp
read_latest-put_slot_torn_example =
    read_latest-put_slot_torn crc first_index (87 ∷ 73 ∷ 68 ∷ 88 ∷ 1 ∷ []) first_index-IsIndex refl
