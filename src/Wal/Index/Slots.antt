-- ===== src/Wal/Index/Slots.antt =====
-- crates/f4kvs-lsm/src/storage/wal_index.rs: a slot is read back as the header that it was made of.
use f4kvs_lsm.Base.{
  ℕ, ◌<◌, ◌≡◌, refl, true, false, some, List, length, take, get_or, ltb, arith, cmp,
}
use f4kvs_lsm.Base.Bytes.{le_bytes, from_le, from_le-le_bytes}
use f4kvs_lsm.Base.Words.{u32_mod, u64_mod}
use f4kvs_lsm.Wal.Index.{
  WalIndexHeader, magic, version, compute_checksum, verify, to_slot_bytes, from_slot_bytes,
  fields_of, word_at, candidate,
}

-- Each field fits its word.
pub record FieldsFit (h : WalIndexHeader) : Type 0 where
  pub generation : h.generation < u64_mod
  pub segment_id : h.segment_id < u32_mod
  pub frame_size : h.frame_size < u32_mod
  pub committed_frame : h.committed_frame < u32_mod
  pub committed_offset : h.committed_offset < u32_mod
  pub entry_count : h.entry_count < u64_mod
  pub checksum : h.checksum < u32_mod

pub fields_of-to_slot_bytes : (h : WalIndexHeader) → FieldsFit h → fields_of (to_slot_bytes h) ≡ h
unfolding fields_of word_at to_slot_bytes le_bytes
fields_of-to_slot_bytes h f =
    let generation : from_le (le_bytes 8 h.generation) ≡ h.generation =
      from_le-le_bytes 8 h.generation f.generation in
    let segment_id : from_le (le_bytes 4 h.segment_id) ≡ h.segment_id =
      from_le-le_bytes 4 h.segment_id f.segment_id in
    let frame_size : from_le (le_bytes 4 h.frame_size) ≡ h.frame_size =
      from_le-le_bytes 4 h.frame_size f.frame_size in
    let frame : from_le (le_bytes 4 h.committed_frame) ≡ h.committed_frame =
      from_le-le_bytes 4 h.committed_frame f.committed_frame in
    let offset : from_le (le_bytes 4 h.committed_offset) ≡ h.committed_offset =
      from_le-le_bytes 4 h.committed_offset f.committed_offset in
    let count : from_le (le_bytes 8 h.entry_count) ≡ h.entry_count =
      from_le-le_bytes 8 h.entry_count f.entry_count in
    let checksum : from_le (le_bytes 4 h.checksum) ≡ h.checksum =
      from_le-le_bytes 4 h.checksum f.checksum in
    rw (generation, segment_id, frame_size, frame, offset, count, checksum) refl

length-to_slot_bytes : (h : WalIndexHeader) → ltb (length (to_slot_bytes h)) 44 ≡ false
unfolding to_slot_bytes le_bytes
length-to_slot_bytes h = ground (arith)

pub take-to_slot_bytes : (h : WalIndexHeader) → take 4 (to_slot_bytes h) ≡ magic
unfolding to_slot_bytes
take-to_slot_bytes h = refl

get_or-to_slot_bytes : (h : WalIndexHeader) → get_or (to_slot_bytes h) 4 0 ≡ version
unfolding to_slot_bytes
get_or-to_slot_bytes h = refl

module _ (crc : List ℕ → ℕ) where
  verify-true : (h : WalIndexHeader) → h.checksum ≡ compute_checksum crc h → verify crc h ≡ true
  unfolding verify
  verify-true h c = ground (arith, c)

  -- A header whose fields fit their words and whose checksum is right is read back from the slot
  -- that it was written to.
  pub from_slot_bytes-to_slot_bytes :
      (h : WalIndexHeader)
      → FieldsFit h
      → h.checksum ≡ compute_checksum crc h
      → from_slot_bytes crc (to_slot_bytes h) ≡ some h
  unfolding from_slot_bytes cmp
  from_slot_bytes-to_slot_bytes h f c =
      rw
        (
          fields_of-to_slot_bytes h f,
          length-to_slot_bytes h,
          take-to_slot_bytes h,
          get_or-to_slot_bytes h,
          verify-true h c,
        )
        refl

  pub candidate-to_slot_bytes :
      (h : WalIndexHeader)
      → FieldsFit h
      → h.checksum ≡ compute_checksum crc h
      → candidate crc (to_slot_bytes h) ≡ some h
  unfolding candidate cmp
  candidate-to_slot_bytes h f c =
      rw (take-to_slot_bytes h, from_slot_bytes-to_slot_bytes h f c) refl
