-- ===== src/FlatIndex.antt =====
-- crates/f4kvs-lsm/src/storage/flat_index.rs: the packed, sorted index of an SSTable. An outer
-- `Option` is a panic: an index or a slice out of range. What `bincode` makes of a legacy file is
-- the parameter `legacy` of `decode`.
pub mod Search
pub mod Codec
use f4kvs_lsm.Base.{
  ℕ, zero, suc, ◌+◌, ◌*◌, ◌%◌, ◌<◌, Bool, true, false, ◌&&◌, Option, none, some, List, [], ◌∷◌,
  ◌++◌, Key, key_eq, key_lt, length, get_elem?, take, drop, if◌then◌else◌, leb, ltb, ◌==◌,
}
use f4kvs_lsm.Base.Bytes.{le_bytes, from_le, slice}
use f4kvs_lsm.Base.Words.{u32_mod}

pub record FlatIndex : Type 0 where
  pub contents : List ℕ
  pub rec_off : List ℕ

-- A key with the file offset and the size of its entry.
pub record Pair : Type 0 where
  pub key : Key
  pub file_off : ℕ
  pub size : ℕ

pub data IndexError : Type 0 where
  unsupported_version truncated_header truncated_table bad_bincode : IndexError

pub data Result (A : Type 0) : Type 0 where
  ok : A → Result A
  err : IndexError → Result A

-- A step that may panic.
infixl 5 ◌>>=◌
abbrev pub ◌>>=◌ : {A B : Type 0} → Option A → (A → Option B) → Option B
none >>= f = none
some a >>= f = f a

-- The bytes that one pair adds to the packed data.
unfoldable pub record_bytes : Pair → List ℕ
record_bytes p =
    le_bytes 4 (length p.key % u32_mod) ++ (p.key ++ (le_bytes 8 p.file_off ++ le_bytes 4 p.size))

-- the loop of `from_sorted`
unfoldable pub push_pairs : List Pair → FlatIndex → FlatIndex
unfolding record_bytes
push_pairs [] f = f
push_pairs (p ∷ ps) f = push_pairs ps (record {
  contents = f.contents ++ record_bytes p;
  rec_off = f.rec_off ++ (length f.contents % u32_mod) ∷ [];
})

unfoldable pub from_sorted : List Pair → FlatIndex
unfolding push_pairs
from_sorted pairs = push_pairs pairs (record { contents = []; rec_off = [] })

unfoldable pub record_at_off : List ℕ → ℕ → Option Pair
record_at_off bytes off = do
  klen ← slice bytes off 4
  key ← slice bytes (off + 4) (from_le klen)
  let loc = off + 4 + from_le klen
  file_off ← slice bytes loc 8
  size ← slice bytes (loc + 8) 4
  some (record { key = key; file_off = from_le file_off; size = from_le size })

-- `slice::partition_point`, on a slice whose leading elements are those that pass the test: the
-- number of these.
unfoldable pub partition_off : List ℕ → List ℕ → Key → Option ℕ
unfolding record_at_off
partition_off bytes [] key = some 0
partition_off bytes (off ∷ offs) key = do
  let rest = partition_off bytes offs key
  r ← record_at_off bytes off
  if key_lt r.key key then (rest >>= λ n. some (suc n)) else some 0

-- The first index whose key is not below `key`.
unfoldable pub partition_point : FlatIndex → Key → Option ℕ
unfolding partition_off
partition_point f key = partition_off f.contents f.rec_off key

unfoldable pub at : FlatIndex → ℕ → Option (Option Pair)
unfolding record_at_off
at f i = elim (get_elem? f.rec_off i) [
  | none ↦ some none
  | some off ↦ do r ← record_at_off f.contents off; some (some r)
]

unfoldable pub hit : Option Pair → Key → Option (ℕ × ℕ)
hit none key = none
hit (some r) key = if key_eq r.key key then some (r.file_off, r.size) else none

unfoldable pub get : FlatIndex → Key → Option (Option (ℕ × ℕ))
unfolding partition_point at hit
get f key = do i ← partition_point f key; r ← at f i; some (hit r key)

-- b"F4IX"
abbrev pub magic : List ℕ
magic = 70 ∷ 52 ∷ 73 ∷ 88 ∷ []

abbrev pub version : ℕ
version = 1

unfoldable pub offset_table : List ℕ → List ℕ
offset_table [] = []
offset_table (off ∷ offs) = le_bytes 4 off ++ offset_table offs

unfoldable pub encode : FlatIndex → List ℕ
unfolding offset_table
encode f =
    magic
    ++ (version
        ∷ (le_bytes 4 (length f.rec_off % u32_mod) ++ (offset_table f.rec_off ++ f.contents)))

-- `for i in 0..count`: the offsets that are read from `o = table + i * 4` on.
unfoldable pub read_offsets : List ℕ → ℕ → ℕ → Option (List ℕ)
read_offsets buf o zero = some []
read_offsets buf o (suc count) = do
  off ← slice buf o 4
  rest ← read_offsets buf (o + 4) count
  some (from_le off ∷ rest)

-- the part of `decode_v1` behind the test of the version
unfoldable pub decode_count : List ℕ → Option (Result FlatIndex)
unfolding read_offsets
decode_count buf = if ltb (length buf) 9 then some (err truncated_header) else do
  c ← slice buf 5 4
  let records = 9 + from_le c * 4
  if ltb (length buf) records then some (err truncated_table) else do
    offs ← read_offsets buf 9 (from_le c)
    some (ok (record { contents = drop records buf; rec_off = offs }))

unfoldable pub decode_v1 : List ℕ → Option (Result FlatIndex)
unfolding decode_count
decode_v1 buf = do
  v ← get_elem? buf 4
  if v == version then decode_count buf else some (err unsupported_version)

unfoldable pub decode_bincode : (List ℕ → Option (List Pair)) → List ℕ → Result FlatIndex
unfolding from_sorted
decode_bincode legacy buf = elim (legacy buf) [
  | none ↦ err bad_bincode
  | some pairs ↦ ok (from_sorted pairs)
]

-- `buf.len() >= 5 && buf.starts_with(MAGIC)`
unfoldable pub is_v1 : List ℕ → Bool
is_v1 buf = leb 5 (length buf) && key_eq (take 4 buf) magic

unfoldable pub decode : (List ℕ → Option (List Pair)) → List ℕ → Option (Result FlatIndex)
unfolding decode_v1 decode_bincode is_v1
decode legacy buf = if is_v1 buf then decode_v1 buf else some (decode_bincode legacy buf)
