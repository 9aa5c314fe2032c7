-- ===== src/Wal/Indexed/Decoding.antt =====
-- crates/f4kvs-lsm/src/storage/wal_indexed.rs: `decode_frames` on the records of entries.
use f4kvs_lsm.Base.{
  ℕ, zero, suc, ◌%◌, ◌≤◌, ◌<◌, ◌≡◌, refl, ap, ◌∙◌, some, List, [], ◌∷◌, ◌++◌, length, take, drop,
  replicate, arith, append_assoc, length-append,
}
use f4kvs_lsm.Base.Bytes.{le_bytes, from_le, take-append, drop-append}
use f4kvs_lsm.Base.Words.{u32_mod}
use f4kvs_lsm.Wal.{WalEntry, Codec, record_bytes, records, IsReadable, AllReadable}
use f4kvs_lsm.Wal.Framing.{size_read}
use f4kvs_lsm.Wal.Indexed.{decode_frames, with_entry}

module _ {J : Type 0} (codec : Codec (WalEntry J)) where
  decode_frames-step :
      (fuel : ℕ) (bytes : List ℕ) (e : WalEntry J)
      → 4 ≤ length bytes
      → 0 < from_le (take 4 bytes)
      → from_le (take 4 bytes) ≤ length (drop 4 bytes)
      → codec.deserialize (take (from_le (take 4 bytes)) (drop 4 bytes)) ≡ some e
      → decode_frames codec (suc fuel) bytes
        ≡ with_entry
            (some e)
            (decode_frames codec fuel (drop (from_le (take 4 bytes)) (drop 4 bytes)))
  unfolding decode_frames
  decode_frames-step fuel bytes e four pos body d = rw d (ground (arith, four, pos, body))

  decode_frames-record :
      (fuel : ℕ) (e : WalEntry J) (rest : List ℕ)
      → IsReadable codec u32_mod e
      → decode_frames codec (suc fuel) (record_bytes codec e ++ rest)
        ≡ with_entry (some e) (decode_frames codec fuel rest)
  unfolding record_bytes le_bytes
  decode_frames-record fuel e rest r =
      let payload = codec.serialize e in
      let bytes = (le_bytes 4 (length payload % u32_mod) ++ payload) ++ rest in
      let body : drop 4 bytes ≡ payload ++ rest = refl in
      let size : from_le (take 4 bytes) ≡ length payload = size_read (length payload) r.fits in
      let tail : drop (from_le (take 4 bytes)) (drop 4 bytes) ≡ rest =
        rw (size, body) (drop-append payload rest) in
      decode_frames-step fuel bytes e (omega arith) (omega (arith, size, r.nonempty))
        (rw body (omega (arith, size, length-append {0} payload rest)))
        (rw (size, body, take-append payload rest) r.decodes)
      ∙ ap (λ left. with_entry (some e) (decode_frames codec fuel left)) tail

  -- The bytes hold no entry, however long one reads.
  abbrev pub IsOver : List ℕ → Type 0
  IsOver bytes = (fuel : ℕ) → decode_frames codec fuel bytes ≡ some []

  size_zero :
      (fuel : ℕ) (bytes : List ℕ)
      → from_le (take 4 bytes) ≡ 0
      → decode_frames codec (suc fuel) bytes ≡ some []
  unfolding decode_frames
  size_zero fuel bytes h = ground (arith, h)

  pub IsOver-zeros : (k : ℕ) → IsOver (replicate k 0)
  unfolding decode_frames
  IsOver-zeros k zero = refl
  IsOver-zeros zero (suc fuel) = refl
  IsOver-zeros (suc zero) (suc fuel) = refl
  IsOver-zeros (suc (suc zero)) (suc fuel) = refl
  IsOver-zeros (suc (suc (suc zero))) (suc fuel) = refl
  IsOver-zeros (suc (suc (suc (suc k)))) (suc fuel) =
      size_zero fuel (replicate (suc (suc (suc (suc k)))) 0) (unfold from_le in refl)

  with_entry-some :
      (e : WalEntry J) (es : List (WalEntry J)) → with_entry (some e) (some es) ≡ some (e ∷ es)
  unfolding with_entry
  with_entry-some e es = refl

  pub decode_frames-records :
      (fuel : ℕ) (es : List (WalEntry J)) (tail : List ℕ)
      → AllReadable codec u32_mod es
      → IsOver tail
      → length es ≤ fuel
      → decode_frames codec fuel (records codec es ++ tail) ≡ some es
  unfolding records
  decode_frames-records fuel [] tail r end h = end fuel
  decode_frames-records zero (e ∷ es) tail r end h = absurd (omega arith)
  decode_frames-records (suc fuel) (e ∷ es) tail (r, rs) end h =
      rw (append_assoc (record_bytes codec e) (records codec es) tail) (
        decode_frames-record fuel e (records codec es ++ tail) r
        ∙ ap (with_entry (some e)) (decode_frames-records fuel es tail rs end (omega arith))
        ∙ with_entry-some e es)
