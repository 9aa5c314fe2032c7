-- ===== src/Wal/Segment/ReadBack.antt =====
-- crates/f4kvs-lsm/src/storage/wal.rs: a segment gives back the entries that were written to it,
-- up to one that is torn.
use f4kvs_lsm.Base.{
  ℕ, zero, suc, ◌%◌, ◌≤◌, ◌<◌, ◌≡◌, refl, ap, ◌∙◌, some, List, [], ◌∷◌, ◌++◌, length, take, drop,
  arith, append_assoc, length-append, length-take,
}
use f4kvs_lsm.Base.Bytes.{le_bytes, from_le, take-append, drop-append}
use f4kvs_lsm.Base.Words.{u32_mod}
use f4kvs_lsm.Wal.{WalEntry, Codec, record_bytes, records, IsReadable, AllReadable}
use f4kvs_lsm.Wal.Framing.{size_read}
use f4kvs_lsm.Wal.Segment.{read_records}

module _ {J : Type 0} (codec : Codec (WalEntry J)) where
  read_records-step :
      (fuel limit : ℕ) (bytes : List ℕ) (e : WalEntry J)
      → 4 ≤ length bytes
      → 0 < from_le (take 4 bytes)
      → from_le (take 4 bytes) ≤ limit
      → from_le (take 4 bytes) ≤ length (drop 4 bytes)
      → codec.deserialize (take (from_le (take 4 bytes)) (drop 4 bytes)) ≡ some e
      → read_records codec (suc fuel) limit bytes
        ≡ e ∷ read_records codec fuel limit (drop (from_le (take 4 bytes)) (drop 4 bytes))
  unfolding read_records
  read_records-step fuel limit bytes e four pos small body d =
      rw d (ground (arith, four, pos, small, body))

  pub read_records-record :
      (fuel limit : ℕ) (e : WalEntry J) (rest : List ℕ)
      → IsReadable codec limit e
      → read_records codec (suc fuel) limit (record_bytes codec e ++ rest)
        ≡ e ∷ read_records codec fuel limit rest
  unfolding record_bytes le_bytes
  read_records-record fuel limit e rest r =
      let payload = codec.serialize e in
      let bytes = (le_bytes 4 (length payload % u32_mod) ++ payload) ++ rest in
      let body : drop 4 bytes ≡ payload ++ rest = refl in
      let size : from_le (take 4 bytes) ≡ length payload = size_read (length payload) r.fits in
      let tail : drop (from_le (take 4 bytes)) (drop 4 bytes) ≡ rest =
        rw (size, body) (drop-append payload rest) in
      read_records-step fuel limit bytes e (omega arith) (omega (arith, size, r.nonempty))
        (omega (arith, size, r.within))
        (rw body (omega (arith, size, length-append {0} payload rest)))
        (rw (size, body, take-append payload rest) r.decodes)
      ∙ ap (λ left. e ∷ read_records codec fuel limit left) tail

  -- The bytes give no entry, however long one reads.
  abbrev pub IsEnd : ℕ → List ℕ → Type 0
  IsEnd limit bytes = (fuel : ℕ) → read_records codec fuel limit bytes ≡ []

  pub read_records-records :
      (fuel limit : ℕ) (es : List (WalEntry J)) (tail : List ℕ)
      → AllReadable codec limit es
      → IsEnd limit tail
      → length es ≤ fuel
      → read_records codec fuel limit (records codec es ++ tail) ≡ es
  unfolding records
  read_records-records fuel limit [] tail r end h = end fuel
  read_records-records zero limit (e ∷ es) tail r end h = absurd (omega arith)
  read_records-records (suc fuel) limit (e ∷ es) tail (r, rs) end h =
      rw (append_assoc (record_bytes codec e) (records codec es) tail) (
        read_records-record fuel limit e (records codec es ++ tail) r
        ∙ ap (◌∷◌ e) (read_records-records fuel limit es tail rs end (omega arith)))

  pub IsEnd-nil : (limit : ℕ) → IsEnd limit []
  unfolding read_records
  IsEnd-nil limit zero = refl
  IsEnd-nil limit (suc fuel) = refl

  short_ends :
      (fuel limit : ℕ) (bytes : List ℕ)
      → length (drop 4 bytes) < from_le (take 4 bytes)
      → read_records codec (suc fuel) limit bytes ≡ []
  unfolding read_records
  short_ends fuel limit bytes h = ground (arith, h)

  few_end :
      (fuel limit : ℕ) (bytes : List ℕ)
      → length bytes < 4
      → read_records codec (suc fuel) limit bytes ≡ []
  unfolding read_records
  few_end fuel limit bytes h = ground (arith, h)

  torn :
      (limit : ℕ) (e : WalEntry J) (n fuel : ℕ)
      → length (codec.serialize e) < u32_mod
      → n < length (record_bytes codec e)
      → read_records codec (suc fuel) limit (take n (record_bytes codec e)) ≡ []
  unfolding record_bytes le_bytes
  torn limit e (suc (suc (suc (suc n)))) fuel fits h =
      let payload = codec.serialize e in
      short_ends fuel limit (take (suc (suc (suc (suc n)))) (record_bytes codec e))
        (omega (arith, size_read (length payload) fits, length-take {0} n payload))
  torn limit e n fuel fits h = few_end fuel limit (take n (record_bytes codec e)) (omega arith)

  -- A record that is cut anywhere before its end gives no entry.
  pub IsEnd-torn :
      (limit : ℕ) (e : WalEntry J) (n : ℕ)
      → length (codec.serialize e) < u32_mod
      → n < length (record_bytes codec e)
      → IsEnd limit (take n (record_bytes codec e))
  IsEnd-torn limit e n fits h zero = unfold read_records in refl
  IsEnd-torn limit e n fits h (suc fuel) = torn limit e n fuel fits h
