-- ===== src/Bloom.antt =====
-- crates/f4kvs-lsm/src/storage/sstable.rs, module `bloom_filter`: the filter that an SSTable keeps
-- over its keys. The standard library does not say what `DefaultHasher` computes, so the hash of a
-- key under an index is the parameter `hash`.
pub mod Members
pub mod Bytes
use f4kvs_lsm.Base.{
  ℕ, zero, suc, ◌+◌, ◌*◌, ◌%◌, Bool, true, false, not, ◌&&◌, ◌||◌, List, [], ◌∷◌, ◌++◌, Key, length,
  get_or, set, take, replicate, if◌then◌else◌, ltb, ◌==◌, ◌-◌,
}

pub record BloomFilter : Type 0 where
  pub bits : List Bool
  pub hash_count : ℕ
  pub size : ℕ

unfoldable pub new : ℕ → ℕ → BloomFilter
new size hash_count = record { bits = replicate size false; hash_count = hash_count; size = size }

-- ten bits for an item, and seven hash functions
unfoldable pub with_optimal_params : ℕ → BloomFilter
unfolding new
with_optimal_params item_count = new (item_count * 10) 7

unfoldable pub is_valid : BloomFilter → Bool
is_valid f = length f.bits == f.size && ltb 0 f.size

-- `resize(size, false)`, which extends or truncates
unfoldable pub resize : ℕ → List Bool → List Bool
resize size bits =
    if ltb (length bits) size then bits ++ replicate (size - length bits) false else take size bits

unfoldable pub validate_and_fix_invariant : BloomFilter → BloomFilter × Bool
unfolding resize
validate_and_fix_invariant f =
    if length f.bits == f.size then (f, false) else (record f { bits = resize f.size f.bits }, true)

module _ (hash : Key → ℕ → ℕ) where
  -- The loop of `add` from hash function `i` on, with `rounds` to go. An index out of bounds
  -- changes nothing: the invariant was restored before, so a second fix does nothing either.
  unfoldable pub add_hashes : ℕ → ℕ → Key → ℕ → List Bool → List Bool
  add_hashes zero i key size bits = bits
  add_hashes (suc rounds) i key size bits =
      add_hashes rounds (i + 1) key size (set bits (hash key i % size) true)

  -- `bits.is_empty() || size == 0`
  abbrev pub is_unusable : BloomFilter → Bool
  is_unusable f = length f.bits == 0 || f.size == 0

  unfoldable pub add : BloomFilter → Key → BloomFilter
  unfolding validate_and_fix_invariant add_hashes
  add f key =
      let g = (validate_and_fix_invariant f).0 in
      if is_unusable g then g else record g { bits = add_hashes g.hash_count 0 key g.size g.bits }

  -- The loop of `might_contain`; an index out of bounds answers `true`.
  unfoldable pub all_set : ℕ → ℕ → Key → ℕ → List Bool → Bool
  all_set zero i key size bits = true
  all_set (suc rounds) i key size bits =
      let rest = all_set rounds (i + 1) key size bits in
      let index = hash key i % size in
      if ltb index (length bits) then (if get_or bits index false then rest else false) else true

  unfoldable pub might_contain : BloomFilter → Key → Bool
  unfolding is_valid all_set
  might_contain f key = if is_valid f then all_set f.hash_count 0 key f.size f.bits else true

  -- `for entry in &entries { bloom_filter.add(&entry.key); }`
  unfoldable pub add_all : BloomFilter → List Key → BloomFilter
  unfolding add
  add_all f [] = f
  add_all f (key ∷ keys) = add_all (add f key) keys

unfoldable pub clear : BloomFilter → BloomFilter
unfolding validate_and_fix_invariant
clear f =
    let g = (validate_and_fix_invariant f).0 in record g { bits = replicate (length g.bits) false }

unfoldable pub clear_bits : BloomFilter → BloomFilter
clear_bits f = record f { bits = []; size = 0 }
