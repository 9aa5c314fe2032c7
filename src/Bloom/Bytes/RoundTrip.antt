-- ===== src/Bloom/Bytes/RoundTrip.antt =====
-- crates/f4kvs-lsm/src/storage/sstable.rs, module `bloom_filter`: a filter that is written and read
-- is the same one.
use f4kvs_lsm.Base.{
  ℕ, zero, suc, ◌+◌, ◌*◌, ◌/◌, ◌%◌, ◌≤◌, ◌≡◌, refl, ap, ◌∙◌, Bool, true, false, List, [], ◌∷◌, ◌++◌,
  length, take, drop, subst, if◌then◌else◌, ◌==◌, replicate, arith, append-nil, length-append,
}
use f4kvs_lsm.Base.Bytes.{le_bytes, from_le, word, from_le-le_bytes, take-append}
use f4kvs_lsm.Bloom.{BloomFilter, is_valid, resize, validate_and_fix_invariant}
use f4kvs_lsm.Bloom.Bytes.{
  chunk_byte, bit_bytes, byte_bits, all_bits, max_bloom_size, to_bytes, checked, from_bytes,
}

byte_bits-zero : (n : ℕ) → byte_bits n 0 ≡ replicate n false
unfolding byte_bits
byte_bits-zero zero = refl
byte_bits-zero (suc n) = ap (◌∷◌ false) (byte_bits-zero n)

half_bit :
    (b : Bool) (n : ℕ)
    → (((if b then 1 else 0) + 2 * n) / 2 ≡ n) × ((((if b then 1 else 0) + 2 * n) % 2 == 1) ≡ b)
half_bit true n = (omega arith, ground arith)
half_bit false n = (omega arith, ground arith)

-- A byte holds the bits of its chunk, and no others.
byte_bits-chunk_byte :
    (bs : List Bool) (n m : ℕ)
    → length bs + n ≡ m
    → byte_bits m (chunk_byte bs) ≡ bs ++ replicate n false
unfolding byte_bits chunk_byte
byte_bits-chunk_byte [] n m e =
    subst (λ k. byte_bits m 0 ≡ replicate k false) (omega arith) (byte_bits-zero m)
byte_bits-chunk_byte (b ∷ bs) n zero e = absurd (omega arith)
byte_bits-chunk_byte (b ∷ bs) n (suc m) e =
    rw
      (
        (half_bit b (chunk_byte bs)).0,
        (half_bit b (chunk_byte bs)).1,
        byte_bits-chunk_byte bs n m (omega arith),
      )
      refl

last_chunk_bits :
    (bs : List Bool) (n : ℕ)
    → length bs + n ≡ 8
    → all_bits (chunk_byte bs ∷ []) ≡ bs ++ replicate n false
unfolding all_bits
last_chunk_bits bs n e = append-nil (byte_bits 8 (chunk_byte bs)) ∙ byte_bits-chunk_byte bs n 8 e

-- The bits that are read: those written, and some `false` behind them.
all_bits-bit_bytes :
    (bits : List Bool) → (n : ℕ) × (all_bits (bit_bytes bits) ≡ bits ++ replicate n false)
unfolding all_bits bit_bytes
all_bits-bit_bytes [] = (0, refl)
all_bits-bit_bytes (a ∷ []) = (7, last_chunk_bits (a ∷ []) 7 refl)
all_bits-bit_bytes (a ∷ b ∷ []) = (6, last_chunk_bits (a ∷ b ∷ []) 6 refl)
all_bits-bit_bytes (a ∷ b ∷ c ∷ []) = (5, last_chunk_bits (a ∷ b ∷ c ∷ []) 5 refl)
all_bits-bit_bytes (a ∷ b ∷ c ∷ d ∷ []) = (4, last_chunk_bits (a ∷ b ∷ c ∷ d ∷ []) 4 refl)
all_bits-bit_bytes (a ∷ b ∷ c ∷ d ∷ e ∷ []) = (3, last_chunk_bits (a ∷ b ∷ c ∷ d ∷ e ∷ []) 3 refl)
all_bits-bit_bytes (a ∷ b ∷ c ∷ d ∷ e ∷ f ∷ []) =
    (2, last_chunk_bits (a ∷ b ∷ c ∷ d ∷ e ∷ f ∷ []) 2 refl)
all_bits-bit_bytes (a ∷ b ∷ c ∷ d ∷ e ∷ f ∷ g ∷ []) =
    (1, last_chunk_bits (a ∷ b ∷ c ∷ d ∷ e ∷ f ∷ g ∷ []) 1 refl)
all_bits-bit_bytes (a ∷ b ∷ c ∷ d ∷ e ∷ f ∷ g ∷ h ∷ bits) =
    let (n, rest) = all_bits-bit_bytes bits in
    let chunk = a ∷ b ∷ c ∷ d ∷ e ∷ f ∷ g ∷ h ∷ [] in
    (
      n,
      ap (λ xs. xs ++ all_bits (bit_bytes bits)) (byte_bits-chunk_byte chunk 0 8 refl)
          ∙ ap (λ ys. chunk ++ ys) rest,
    )

resize_padded :
    (bits : List Bool) (n size : ℕ)
    → length bits ≡ size
    → resize size (bits ++ replicate n false) ≡ bits
unfolding resize
resize_padded bits n size e =
    rw (← e, take-append) (ground (arith, length-append bits (replicate n false)))

checked_valid : (f : BloomFilter) → is_valid f ≡ true → checked f ≡ f
unfolding checked validate_and_fix_invariant is_valid
checked_valid f v = ground (arith, v)

-- Bytes that hold the size and the bits of a valid filter are read as that filter.
from_bytes_read :
    (bytes : List ℕ) (f : BloomFilter)
    → is_valid f ≡ true
    → f.size ≤ max_bloom_size
    → 4 ≤ length bytes
    → from_le (take 4 bytes) ≡ f.size
    → resize f.size (all_bits (drop 4 bytes)) ≡ f.bits
    → from_bytes bytes f.hash_count ≡ f
unfolding from_bytes
from_bytes_read bytes f v m long s bits = rw (s, bits) (ground (arith, m, long, checked_valid f v))

-- A valid filter of at most `MAX_BLOOM_SIZE` bits is read back from its bytes as it was written.
pub from_bytes-to_bytes :
    (f : BloomFilter)
    → is_valid f ≡ true
    → f.size ≤ max_bloom_size
    → from_bytes (to_bytes f) f.hash_count ≡ f
unfolding to_bytes le_bytes
from_bytes-to_bytes f v m =
    let (n, padded) = all_bits-bit_bytes f.bits in
    let full : f.size % word 4 ≡ f.size = omega arith in
    from_bytes_read (to_bytes f) f v m (omega arith)
      (from_le-le_bytes 4 (f.size % word 4) (omega arith) ∙ full)
      (ap (resize f.size) padded
        ∙ resize_padded f.bits n f.size (unfold is_valid in ground (arith, v)))
