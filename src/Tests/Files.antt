-- ===== src/Tests/Files.antt =====
-- The files and the merge of tables at concrete inputs.
use f4kvs_lsm.Base.{ℕ, ◌≡◌, refl, true, false, none, some, [], ◌∷◌, arith, cmp, length}
use f4kvs_lsm.Base.Bytes.{le_bytes}
use f4kvs_lsm.Bloom
use f4kvs_lsm.Bloom.{BloomFilter, is_valid, add, add_all, might_contain}
use f4kvs_lsm.Bloom.Members.{might_contain-members}
use f4kvs_lsm.Bloom.Bytes.{to_bytes, from_bytes}
use f4kvs_lsm.Bloom.Bytes.RoundTrip.{from_bytes-to_bytes}
use f4kvs_lsm.FlatIndex
use f4kvs_lsm.FlatIndex.{FlatIndex, Pair, Result, from_sorted, encode, decode}
use f4kvs_lsm.FlatIndex.Search.{get-from_sorted, packed, lookup as index_lookup}
use f4kvs_lsm.FlatIndex.Codec.{decode-encode}
use f4kvs_lsm.Sstable.{lookup_with_reader_guard, Entry}
use f4kvs_lsm.Sstable.Lookup.{lookup_with_reader_guard-Holds, find, result_or_missing}
use f4kvs_lsm.Compaction.{deduplicate_entries, create_new_sstables}
use f4kvs_lsm.Compaction.Newest.{find-deduplicate_entries, newest, live}
use f4kvs_lsm.Compaction.Chunks.{create_new_sstables-chunks, flatten, NoneEmpty, AllFit}
use f4kvs_lsm.Tests.{test_hash, key_a, key_b, old_value, new_value, table_of, table_of-Holds}

might_contain-members_example :
    might_contain test_hash
      (add_all test_hash (Bloom.with_optimal_params 2) (key_a ∷ key_b ∷ []))
      key_b
    ≡ true
unfolding cmp
might_contain-members_example = might_contain-members test_hash (key_a ∷ key_b ∷ []) key_b refl

abbrev pair_a : Pair
pair_a = record { key = key_a; file_off = 0; size = 40 }

packed_a : length (packed (pair_a ∷ [])) ≡ 17
unfolding packed FlatIndex.record_bytes le_bytes
packed_a = refl

get-from_sorted_example :
    FlatIndex.get (from_sorted (pair_a ∷ [])) key_a ≡ some (index_lookup (pair_a ∷ []) key_a)
get-from_sorted_example =
    get-from_sorted (pair_a ∷ []) key_a
      (record { key_fits = omega arith; off_fits = omega arith; size_fits = omega arith }, tt)
      (tt, tt) (omega (arith, packed_a))

abbrev two_offsets : FlatIndex
two_offsets = record { contents = 1 ∷ 2 ∷ []; rec_off = 0 ∷ 1 ∷ [] }

decode-encode_example : decode (λ buf. none) (encode two_offsets) ≡ some (Result.ok two_offsets)
decode-encode_example =
    decode-encode (λ buf. none) two_offsets (omega arith, (omega arith, tt)) (omega arith)

abbrev entry_a : Entry ℕ
entry_a = record { key = key_a; value = old_value; timestamp = 3; deleted = false }

abbrev tombstone_a : Entry ℕ
tombstone_a = record { key = key_a; value = old_value; timestamp = 4; deleted = true }

abbrev entry_b : Entry ℕ
entry_b = record { key = key_b; value = new_value; timestamp = 1; deleted = false }

lookup_with_reader_guard-Holds_example :
    lookup_with_reader_guard test_hash (table_of entry_a) key_a
    ≡ some (result_or_missing (find (entry_a ∷ []) key_a))
lookup_with_reader_guard-Holds_example =
    lookup_with_reader_guard-Holds test_hash (table_of entry_a) (entry_a ∷ [])
      (table_of-Holds entry_a) key_a

find-deduplicate_entries_example :
    find (deduplicate_entries (entry_a ∷ entry_b ∷ tombstone_a ∷ [])) key_a
    ≡ live (newest (entry_a ∷ entry_b ∷ tombstone_a ∷ []) key_a)
find-deduplicate_entries_example =
    find-deduplicate_entries (entry_a ∷ entry_b ∷ tombstone_a ∷ []) key_a

abbrev ten_bytes : Entry ℕ → ℕ
ten_bytes e = 10

create_new_sstables-chunks_example :
    (flatten (create_new_sstables ten_bytes 15 (entry_a ∷ entry_b ∷ [])) ≡ entry_a ∷ entry_b ∷ [])
    × NoneEmpty (create_new_sstables ten_bytes 15 (entry_a ∷ entry_b ∷ []))
    × AllFit ten_bytes 15 (create_new_sstables ten_bytes 15 (entry_a ∷ entry_b ∷ []))
create_new_sstables-chunks_example =
    create_new_sstables-chunks ten_bytes 15 (entry_a ∷ entry_b ∷ []) (omega arith)

-- A filter whose bits take a byte and a part of the next one.
abbrev nine_bits : BloomFilter
nine_bits = record {
  bits = true ∷ false ∷ true ∷ true ∷ false ∷ false ∷ false ∷ true ∷ true ∷ [];
  hash_count = 7;
  size = 9;
}

from_bytes-to_bytes_example : from_bytes (to_bytes nine_bits) 7 ≡ nine_bits
unfolding is_valid
from_bytes-to_bytes_example = from_bytes-to_bytes nine_bits refl (omega arith)
