-- ===== src/Bloom/Bytes.antt =====
-- crates/f4kvs-lsm/src/storage/sstable.rs, module `bloom_filter`: the byte form of a filter, its
-- size in four bytes and then eight bits in a byte, the first one lowest.
pub mod RoundTrip
use f4kvs_lsm.Base.{
  ℕ, zero, suc, ◌+◌, ◌*◌, ◌/◌, ◌%◌, Bool, List, [], ◌∷◌, ◌++◌, length, take, if◌then◌else◌, ltb,
  ◌==◌, drop,
}
use f4kvs_lsm.Base.Bytes.{le_bytes, from_le, word}
use f4kvs_lsm.Bloom.{BloomFilter, new, is_valid, resize, validate_and_fix_invariant}

-- One chunk: each `byte |= 1 << i` sets a bit of its own, so that the byte is their sum.
unfoldable pub chunk_byte : List Bool → ℕ
chunk_byte [] = 0
chunk_byte (b ∷ bs) = (if b then 1 else 0) + 2 * chunk_byte bs

-- `bits.chunks(8)`, each chunk as its byte
unfoldable pub bit_bytes : List Bool → List ℕ
unfolding chunk_byte
bit_bytes [] = []
bit_bytes (a ∷ []) = chunk_byte (a ∷ []) ∷ []
bit_bytes (a ∷ b ∷ []) = chunk_byte (a ∷ b ∷ []) ∷ []
bit_bytes (a ∷ b ∷ c ∷ []) = chunk_byte (a ∷ b ∷ c ∷ []) ∷ []
bit_bytes (a ∷ b ∷ c ∷ d ∷ []) = chunk_byte (a ∷ b ∷ c ∷ d ∷ []) ∷ []
bit_bytes (a ∷ b ∷ c ∷ d ∷ e ∷ []) = chunk_byte (a ∷ b ∷ c ∷ d ∷ e ∷ []) ∷ []
bit_bytes (a ∷ b ∷ c ∷ d ∷ e ∷ f ∷ []) = chunk_byte (a ∷ b ∷ c ∷ d ∷ e ∷ f ∷ []) ∷ []
bit_bytes (a ∷ b ∷ c ∷ d ∷ e ∷ f ∷ g ∷ []) = chunk_byte (a ∷ b ∷ c ∷ d ∷ e ∷ f ∷ g ∷ []) ∷ []
bit_bytes (a ∷ b ∷ c ∷ d ∷ e ∷ f ∷ g ∷ h ∷ bits) =
    chunk_byte (a ∷ b ∷ c ∷ d ∷ e ∷ f ∷ g ∷ h ∷ []) ∷ bit_bytes bits

-- The tests `(byte & (1 << i)) != 0` of the `n` lowest bits, from the lowest on.
unfoldable pub byte_bits : ℕ → ℕ → List Bool
byte_bits zero byte = []
byte_bits (suc n) byte = (byte % 2 == 1) ∷ byte_bits n (byte / 2)

unfoldable pub all_bits : List ℕ → List Bool
unfolding byte_bits
all_bits [] = []
all_bits (byte ∷ bytes) = byte_bits 8 byte ++ all_bits bytes

-- `MAX_BLOOM_SIZE`
abbrev pub max_bloom_size : ℕ
max_bloom_size = 100000000

unfoldable pub to_bytes : BloomFilter → List ℕ
unfolding bit_bytes
to_bytes f = le_bytes 4 (f.size % word 4) ++ bit_bytes f.bits

-- The end of `from_bytes`: the repair of the invariant and the last check.
unfoldable pub checked : BloomFilter → BloomFilter
unfolding validate_and_fix_invariant
checked f = let g = (validate_and_fix_invariant f).0 in if is_valid g then g else new 0 f.hash_count

-- The bits are cut or filled up with `false`, as `resize` does it.
unfoldable pub from_bytes : List ℕ → ℕ → BloomFilter
unfolding checked all_bits
from_bytes bytes hash_count =
    let old : BloomFilter = record {
      bits = all_bits bytes;
      hash_count = hash_count;
      size = length bytes * 8;
    } in
    let size = from_le (take 4 bytes) in
    let read : BloomFilter = record {
      bits = resize size (all_bits (drop 4 bytes));
      hash_count = hash_count;
      size = size;
    } in
    if length bytes == 0
    then new 0 hash_count
    else if ltb (length bytes) 4
    then checked old
    else if ltb max_bloom_size size
    then new 0 hash_count
    else checked read
