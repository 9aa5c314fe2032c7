-- ===== src/Wal/Framing.antt =====
-- crates/f4kvs-lsm/src/storage/wal.rs: the pieces of a record in a file.
use f4kvs_lsm.Base.{
  ℕ, ◌+◌, ◌%◌, ◌≤◌, ◌<◌, ◌≡◌, refl, ap, sym, ◌∙◌, List, [], ◌∷◌, ◌++◌, length, take, drop,
  length-append, append_assoc, arith,
}
use f4kvs_lsm.Base.Bytes.{le_bytes, from_le, from_le-le_bytes}
use f4kvs_lsm.Base.Words.{u32_mod}
use f4kvs_lsm.Wal.{WalEntry, Codec, record_bytes, records, AllReadable}

pub take_four : (n : ℕ) (rest : List ℕ) → take 4 (le_bytes 4 n ++ rest) ≡ le_bytes 4 n
unfolding le_bytes
take_four n rest = refl

pub drop_four : (n : ℕ) (rest : List ℕ) → drop 4 (le_bytes 4 n ++ rest) ≡ rest
unfolding le_bytes
drop_four n rest = refl

pub size_read : (n : ℕ) → n < u32_mod → from_le (le_bytes 4 (n % u32_mod)) ≡ n
size_read n h = from_le-le_bytes 4 (n % u32_mod) (omega arith) ∙ omega arith

module _ {J : Type 0} (codec : Codec (WalEntry J)) where
  pub length-record_bytes :
      (e : WalEntry J) → length (record_bytes codec e) ≡ 4 + length (codec.serialize e)
  unfolding record_bytes le_bytes
  length-record_bytes e = omega arith

  pub records-append :
      (es fs : List (WalEntry J)) → records codec (es ++ fs) ≡ records codec es ++ records codec fs
  unfolding records
  records-append [] fs = refl
  records-append (e ∷ es) fs =
      ap (λ bytes. record_bytes codec e ++ bytes) (records-append es fs)
      ∙ sym (append_assoc (record_bytes codec e) (records codec es) (records codec fs))

  -- Each entry takes more than one byte.
  pub length-records : (es : List (WalEntry J)) → length es ≤ length (records codec es)
  unfolding records
  length-records [] = omega arith
  length-records (e ∷ es) = omega (
    arith,
    length-append {0} (record_bytes codec e) (records codec es),
    length-record_bytes e,
    length-records es,
  )

  pub AllReadable-append :
      (limit : ℕ) (es fs : List (WalEntry J))
      → AllReadable codec limit es
      → AllReadable codec limit fs
      → AllReadable codec limit (es ++ fs)
  AllReadable-append limit [] fs r s = s
  AllReadable-append limit (e ∷ es) fs (r, rs) s = (r, AllReadable-append limit es fs rs s)
