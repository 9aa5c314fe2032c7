-- ===== src/FlatIndex/Codec.antt =====
-- crates/f4kvs-lsm/src/storage/flat_index.rs: the F4IX file format.
use f4kvs_lsm.Base.{
  cmp, ℕ, zero, suc, ◌+◌, ◌*◌, ◌%◌, ◌≤◌, ◌<◌, ◌≡◌, ◌≢◌, refl, ◌∙◌, true, Option, none, some, List,
  [], ◌∷◌, ◌++◌, Key, length, get_elem?, drop, take, arith, append_assoc, length-append, cmp,
}
use f4kvs_lsm.Base.Bytes.{
  le_bytes, from_le, slice, from_le-le_bytes, length-le_bytes, slice_middle, drop_before,
}
use f4kvs_lsm.Base.Words.{u32_mod}
use f4kvs_lsm.FlatIndex
use f4kvs_lsm.FlatIndex.{
  FlatIndex, Pair, Result, ok, err, magic, version, offset_table, encode, read_offsets, decode_v1,
  decode_count, decode, is_v1, ◌>>=◌, record_at_off,
}

-- Every offset fits its four bytes.
abbrev pub OffsetsFit : List ℕ → Type 0
OffsetsFit [] = Unit
OffsetsFit (off ∷ offs) = (off < u32_mod) × OffsetsFit offs

length-offset_table : (offs : List ℕ) → length (offset_table offs) ≡ length offs * 4
unfolding offset_table
length-offset_table [] = omega arith
length-offset_table (off ∷ offs) = omega (
  arith,
  length-append {0} (le_bytes 4 off) (offset_table offs),
  length-le_bytes 4 off,
  length-offset_table offs,
)

read_offsets-table :
    (before after : List ℕ) (offs : List ℕ) (buf : List ℕ) (o : ℕ)
    → OffsetsFit offs
    → buf ≡ before ++ (offset_table offs ++ after)
    → length before ≡ o
    → read_offsets buf o (length offs) ≡ some offs
unfolding read_offsets offset_table
read_offsets-table before after [] buf o fit e l = refl
read_offsets-table before after (off ∷ offs) buf o fit e l =
    let four = le_bytes 4 off in
    let here : slice buf o 4 ≡ some four =
      slice_middle before four (offset_table offs ++ after) buf o 4 (e ∙ simp append_assoc) l
        (length-le_bytes 4 off) in
    let rest =
      read_offsets-table (before ++ four) after offs buf (o + 4) fit.1 (e ∙ simp append_assoc)
        (omega (arith, length-append {0} before four, length-le_bytes 4 off)) in
    rw (here, ◌>>=◌) (rw (rest, ◌>>=◌) (rw (from_le-le_bytes 4 off fit.0) refl))

decode_count_of :
    (buf c offs tail : List ℕ) (n : ℕ)
    → 9 + n * 4 ≤ length buf
    → slice buf 5 4 ≡ some c
    → from_le c ≡ n
    → read_offsets buf 9 n ≡ some offs
    → drop (9 + n * 4) buf ≡ tail
    → decode_count buf ≡ some (ok (record { contents = tail; rec_off = offs }))
unfolding decode_count
decode_count_of buf c offs tail n long h count table rest =
    rw (h, count, table, rest) (ground arith)

-- What `encode` writes behind the magic and the version, and where `decode` finds it.
decode_count-encode :
    (f : FlatIndex)
    → OffsetsFit f.rec_off
    → length f.rec_off < u32_mod
    → decode_count (encode f) ≡ some (ok f)
unfolding encode
decode_count-encode f fit small =
    let n = length f.rec_off in
    let four = le_bytes 4 (n % u32_mod) in
    let head = magic ++ version ∷ [] in
    let table = offset_table f.rec_off in
    let count : from_le four ≡ n = from_le-le_bytes 4 (n % u32_mod) (omega arith) ∙ omega arith in
    let l4 = length-le_bytes 4 (n % u32_mod) in
    let lt = length-offset_table f.rec_off in
    let front : length (head ++ (four ++ table)) ≡ 9 + n * 4 =
      omega (arith, l4, lt, length-append {0} four table) in
    decode_count_of (encode f) four f.rec_off f.contents n
      (omega (
        arith,
        l4,
        lt,
        length-append {0} four (table ++ f.contents),
        length-append {0} table f.contents,
      ))
      (slice_middle head four (table ++ f.contents) (encode f) 5 4 refl refl l4) count
      (read_offsets-table (head ++ four) f.contents f.rec_off (encode f) 9 fit refl
        (omega (arith, l4)))
      (drop_before (head ++ (four ++ table)) f.contents (encode f) (9 + n * 4) (simp append_assoc)
        front)

is_v1-encode : (f : FlatIndex) → is_v1 (encode f) ≡ true
unfolding is_v1 encode cmp
is_v1-encode f = ground arith

version-encode : (f : FlatIndex) → get_elem? (encode f) 4 ≡ some version
unfolding encode
version-encode f = refl

-- An index whose offsets and their number fit in four bytes is decoded from its own bytes,
-- whatever the decoder of legacy files does.
pub decode-encode :
    (legacy : List ℕ → Option (List Pair)) (f : FlatIndex)
    → OffsetsFit f.rec_off
    → length f.rec_off < u32_mod
    → decode legacy (encode f) ≡ some (ok f)
unfolding decode decode_v1
decode-encode legacy f fit small =
    rw (is_v1-encode f) (rw (version-encode f, decode_count-encode f fit small) refl)

get_elem?_total : (xs : List ℕ) (i : ℕ) → i < length xs → (v : ℕ) × (get_elem? xs i ≡ some v)
get_elem?_total [] i h = elim h [ ]
get_elem?_total (x ∷ xs) zero h = (x, refl)
get_elem?_total (x ∷ xs) (suc i) h = get_elem?_total xs i (omega arith)

read_offsets_total :
    (buf : List ℕ) (o n : ℕ)
    → o + n * 4 ≤ length buf
    → (offs : List ℕ) × (read_offsets buf o n ≡ some offs)
unfolding read_offsets slice
read_offsets_total buf o zero h = ([], refl)
read_offsets_total buf o (suc n) h =
    let (offs, e) = read_offsets_total buf (o + 4) n (omega arith) in
    (from_le (take 4 (drop o buf)) ∷ offs, rw e (ground arith))

decode_count_total : (buf : List ℕ) → decode_count buf ≢ none
unfolding decode_count slice
decode_count_total buf h = ground (arith, read_offsets_total buf 9 (from_le (take 4 (drop 5 buf))))

-- No file makes `decode` read out of range.
pub decode-ne-none :
    (legacy : List ℕ → Option (List Pair)) (buf : List ℕ) → decode legacy buf ≢ none
unfolding decode decode_v1 is_v1
decode-ne-none legacy buf h = ground (arith, get_elem?_total buf 4, decode_count_total buf)

slice_beyond : (bytes : List ℕ) (at n : ℕ) → length bytes < at + n → slice bytes at n ≡ none
unfolding slice
slice_beyond bytes at n h = ground arith

-- An index whose first offset lies less than four bytes before the end of its data, or beyond it,
-- is decoded without an error, and a lookup in it reads out of range.
pub get_out_of_range :
    (legacy : List ℕ → Option (List Pair)) (bytes offs : List ℕ) (off : ℕ) (key : Key)
    → OffsetsFit (off ∷ offs)
    → length (off ∷ offs) < u32_mod
    → length bytes < off + 4
    → (f : FlatIndex) × (decode legacy (encode (record { contents = bytes; rec_off = off ∷ offs }))
        ≡ some (ok f))
      × (FlatIndex.get f key ≡ none)
unfolding FlatIndex.get FlatIndex.partition_point FlatIndex.partition_off record_at_off
get_out_of_range legacy bytes offs off key fit small beyond =
    let f : FlatIndex = record { contents = bytes; rec_off = off ∷ offs } in
    (f, decode-encode legacy f fit small, rw (slice_beyond bytes off 4 beyond, ◌>>=◌) refl)
