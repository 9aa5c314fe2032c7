-- ===== src/Bloom/Members.antt =====
-- crates/f4kvs-lsm/src/storage/sstable.rs: the filter has no false negatives.
use f4kvs_lsm.Base.{
  ℕ, zero, suc, ◌+◌, ◌*◌, ◌%◌, ◌-◌, ◌<◌, ◌≡◌, refl, ◌∙◌, Bool, true, false, List, [], ◌∷◌, Key,
  length, get_or, set, replicate, arith, length-set, length-append, length-replicate, length-take,
  inl, inr, Bool-cases, contains, key_eq, eq_of_key_eq,
}
use f4kvs_lsm.Bloom
use f4kvs_lsm.Bloom.{
  BloomFilter, is_valid, resize, validate_and_fix_invariant, add_hashes, all_set, add,
  might_contain, add_all,
}

get_or-set :
    (xs : List Bool) (i j : ℕ) → get_or xs j false ≡ true → get_or (set xs i true) j false ≡ true
get_or-set [] i j h = h
get_or-set (x ∷ xs) zero zero h = refl
get_or-set (x ∷ xs) zero (suc j) h = h
get_or-set (x ∷ xs) (suc i) zero h = h
get_or-set (x ∷ xs) (suc i) (suc j) h = get_or-set xs i j h

get_or-set_self : (xs : List Bool) (i : ℕ) → i < length xs → get_or (set xs i true) i false ≡ true
get_or-set_self [] i h = elim h [ ]
get_or-set_self (x ∷ xs) zero h = refl
get_or-set_self (x ∷ xs) (suc i) h = get_or-set_self xs i (omega arith)

module _ (hash : Key → ℕ → ℕ) where
  length-add_hashes :
      (n i : ℕ) (key : Key) (size : ℕ) (bits : List Bool)
      → length (add_hashes hash n i key size bits) ≡ length bits
  unfolding add_hashes
  length-add_hashes zero i key size bits = refl
  length-add_hashes (suc n) i key size bits =
      length-add_hashes n (i + 1) key size (set bits (hash key i % size) true)
      ∙ length-set bits (hash key i % size) true

  -- A bit that is set stays set.
  get_or-add_hashes :
      (n i : ℕ) (key : Key) (size : ℕ) (bits : List Bool) (j : ℕ)
      → get_or bits j false ≡ true
      → get_or (add_hashes hash n i key size bits) j false ≡ true
  unfolding add_hashes
  get_or-add_hashes zero i key size bits j h = h
  get_or-add_hashes (suc n) i key size bits j h =
      get_or-add_hashes n (i + 1) key size (set bits (hash key i % size) true) j
        (get_or-set bits (hash key i % size) j h)

  -- The bits of the key itself are set.
  all_set-add_hashes :
      (n i : ℕ) (key : Key) (size : ℕ) (bits : List Bool)
      → length bits ≡ size
      → 0 < size
      → all_set hash n i key size (add_hashes hash n i key size bits) ≡ true
  unfolding add_hashes all_set
  all_set-add_hashes zero i key size bits e p = refl
  all_set-add_hashes (suc n) i key size bits e p =
      let at = hash key i % size in
      let bits' = set bits at true in
      ground (
        arith,
        all_set-add_hashes n (i + 1) key size bits' (length-set bits at true ∙ e) p,
        get_or-add_hashes n (i + 1) key size bits' at (get_or-set_self bits at (grind arith)),
      )

  -- Adding a key takes no other key away.
  all_set_mono :
      (m j : ℕ) (q : Key) (n i : ℕ) (key : Key) (size : ℕ) (bits : List Bool)
      → all_set hash m j q size bits ≡ true
      → all_set hash m j q size (add_hashes hash n i key size bits) ≡ true
  unfolding all_set
  all_set_mono zero j q n i key size bits h = refl
  all_set_mono (suc m) j q n i key size bits h = ground (
    arith,
    all_set_mono m (j + 1) q n i key size bits,
    length-add_hashes n i key size bits,
    get_or-add_hashes n i key size bits (hash q j % size),
  )

  length-resize : (n : ℕ) (bits : List Bool) → length (resize n bits) ≡ n
  unfolding resize
  length-resize n bits = ground (
    arith,
    length-append bits (replicate (n - length bits) false),
    length-replicate (n - length bits) false,
    length-take n bits,
  )

  -- Whatever the filter was before, it answers yes for a key that was just added.
  pub might_contain-add :
      (f : BloomFilter) (key : Key) → might_contain hash (add hash f key) key ≡ true
  unfolding might_contain is_valid add validate_and_fix_invariant
  might_contain-add f key = ground (
    arith,
    length-resize f.size f.bits,
    all_set-add_hashes f.hash_count 0 key f.size f.bits,
    all_set-add_hashes f.hash_count 0 key f.size (resize f.size f.bits),
  )

  add-is_valid :
      (f : BloomFilter) (key : Key) → is_valid f ≡ true → is_valid (add hash f key) ≡ true
  unfolding is_valid add validate_and_fix_invariant
  add-is_valid f key v = ground (arith, length-add_hashes f.hash_count 0 key f.size f.bits)

  -- A valid filter stays valid and keeps its answers when another key is added.
  pub might_contain-add_mono :
      (f : BloomFilter) (key q : Key)
      → is_valid f ≡ true
      → might_contain hash f q ≡ true
      → (is_valid (add hash f key) ≡ true) × (might_contain hash (add hash f key) q ≡ true)
  unfolding might_contain is_valid add validate_and_fix_invariant
  might_contain-add_mono f key q v h = (
    ground (arith, length-add_hashes f.hash_count 0 key f.size f.bits),
    ground (
      arith,
      length-add_hashes f.hash_count 0 key f.size f.bits,
      all_set_mono f.hash_count 0 q f.hash_count 0 key f.size f.bits,
    ),
  )

  add_all-keeps :
      (f : BloomFilter) (keys : List Key) (q : Key)
      → is_valid f ≡ true
      → might_contain hash f q ≡ true
      → might_contain hash (add_all hash f keys) q ≡ true
  unfolding add_all
  add_all-keeps f [] q v h = h
  add_all-keeps f (key ∷ keys) q v h =
      let (v', h') = might_contain-add_mono f key q v h in
      add_all-keeps (add hash f key) keys q v' h'

  add_all-members :
      (f : BloomFilter) (keys : List Key) (q : Key)
      → is_valid f ≡ true
      → contains keys q ≡ true
      → might_contain hash (add_all hash f keys) q ≡ true
  unfolding add_all
  add_all-members f [] q v m = cc
  add_all-members f (key ∷ keys) q v m =
      let v' = add-is_valid f key v in
      elim (Bool-cases (key_eq key q)) [
        | inl here ↦
            add_all-keeps (add hash f key) keys q v'
              (rw (eq_of_key_eq key q here) (might_contain-add f q))
        | inr there ↦ add_all-members (add hash f key) keys q v' (ground arith)
      ]

  -- A filter of the size for a list of keys, to which they were added, answers yes for each of them.
  pub might_contain-members :
      (keys : List Key) (q : Key)
      → contains keys q ≡ true
      → might_contain hash (add_all hash (Bloom.with_optimal_params (length keys)) keys) q ≡ true
  unfolding Bloom.with_optimal_params is_valid
  might_contain-members [] q m = cc
  might_contain-members (key ∷ keys) q m =
      add_all-members (Bloom.with_optimal_params (length (key ∷ keys))) (key ∷ keys) q
        (ground (arith, length-replicate (length (key ∷ keys) * 10) false)) m
