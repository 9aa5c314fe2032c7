-- ===== src/FlatIndex/Search.antt =====
-- crates/f4kvs-lsm/src/storage/flat_index.rs: binary search in an index that was built from sorted
-- pairs finds each key's entry, and never reads out of range.
use Prim.Native.Nat.{Ordering}
use f4kvs_lsm.Base.{
  ℕ, zero, suc, ◌+◌, ◌%◌, ◌<◌, ◌≡◌, refl, sym, ap, ◌∙◌, Option, none, some, List, [], ◌∷◌, ◌++◌,
  Key, key_eq, key_lt, length, get_elem?, if◌then◌else◌, arith, append_assoc, append-nil,
  length-append, cmp, eq_of_cmp, cmp_refl, cmp_trans, cmp_flip_gt,
}
use f4kvs_lsm.Base.Bytes.{le_bytes, from_le, slice, from_le-le_bytes, length-le_bytes, slice_middle}
use f4kvs_lsm.Base.Words.{u32_mod, u64_mod}
use f4kvs_lsm.FlatIndex
use f4kvs_lsm.FlatIndex.{
  FlatIndex, Pair, record_bytes, push_pairs, from_sorted, record_at_off, partition_off,
  partition_point, at, hit, ◌>>=◌,
}

-- The fields fit the widths in which they are stored.
pub record PairFits (p : Pair) : Type 0 where
  pub key_fits : length p.key < u32_mod
  pub off_fits : p.file_off < u64_mod
  pub size_fits : p.size < u32_mod

abbrev pub AllFit : List Pair → Type 0
AllFit [] = Unit
AllFit (p ∷ ps) = PairFits p × AllFit ps

record_of_slices :
    (bytes c k f z : List ℕ) (off : ℕ)
    → slice bytes off 4 ≡ some c
    → slice bytes (off + 4) (from_le c) ≡ some k
    → slice bytes (off + 4 + from_le c) 8 ≡ some f
    → slice bytes (off + 4 + from_le c + 8) 4 ≡ some z
    → record_at_off bytes off ≡ some (record { key = k; file_off = from_le f; size = from_le z })
unfolding record_at_off
record_of_slices bytes c k f z off h1 h2 h3 h4 =
    rw (h1, ◌>>=◌) (rw (h2, ◌>>=◌) (rw (h3, ◌>>=◌) (rw (h4, ◌>>=◌) refl)))

-- A record in the middle of the data is read back whole.
record_at :
    (before after : List ℕ) (p : Pair)
    → PairFits p
    → record_at_off (before ++ (record_bytes p ++ after)) (length before) ≡ some p
unfolding record_bytes
record_at before after p fits =
    let n = length before in
    let k = p.key in
    let c = le_bytes 4 (length k % u32_mod) in
    let f = le_bytes 8 p.file_off in
    let z = le_bytes 4 p.size in
    let bytes = before ++ (record_bytes p ++ after) in
    let lc = length-le_bytes 4 (length k % u32_mod) in
    let lf = length-le_bytes 8 p.file_off in
    let klen : from_le c ≡ length k =
      from_le-le_bytes 4 (length k % u32_mod) (omega arith) ∙ omega arith in
    let r =
      record_of_slices bytes c k f z n
        (slice_middle before c (k ++ (f ++ z) ++ after) bytes n 4 (simp append_assoc) refl lc)
        (slice_middle (before ++ c) k ((f ++ z) ++ after) bytes (n + 4) (from_le c)
          (simp append_assoc) (omega (arith, length-append {0} before c, lc)) (sym klen))
        (slice_middle (before ++ (c ++ k)) f (z ++ after) bytes (n + 4 + from_le c) 8
          (simp append_assoc)
          (omega (arith, length-append {0} before (c ++ k), length-append {0} c k, lc, klen)) lf)
        (slice_middle (before ++ (c ++ (k ++ f))) z after bytes (n + 4 + from_le c + 8) 4
          (simp append_assoc)
          (omega (
            arith,
            length-append {0} before (c ++ (k ++ f)),
            length-append {0} c (k ++ f),
            length-append {0} k f,
            lc,
            lf,
            klen,
          ))
          (length-le_bytes 4 p.size)) in
    r
    ∙ rw (from_le-le_bytes 8 p.file_off (omega arith), from_le-le_bytes 4 p.size (omega arith)) refl

-- The number of leading pairs below a key.
rank : List Pair → Key → ℕ
rank [] key = 0
rank (p ∷ ps) key = if key_lt p.key key then suc (rank ps key) else 0

-- The reference: the entry of the first pair with the key.
unfoldable pub lookup : List Pair → Key → Option (ℕ × ℕ)
lookup [] key = none
lookup (p ∷ ps) key = if key_eq p.key key then some (p.file_off, p.size) else lookup ps key

abbrev pub KeysAbove : Key → List Pair → Type 0
KeysAbove k [] = Unit
KeysAbove k (p ∷ ps) = (cmp k p.key ≡ Ordering.lt) × KeysAbove k ps

abbrev pub IsAscending : List Pair → Type 0
IsAscending [] = Unit
IsAscending (p ∷ ps) = KeysAbove p.key ps × IsAscending ps

lookup-above :
    (key k : Key) (ps : List Pair) → cmp key k ≡ Ordering.lt → KeysAbove k ps → lookup ps key ≡ none
unfolding lookup
lookup-above key k [] h a = refl
lookup-above key k (p ∷ ps) h a = ground (
  arith,
  lookup-above key k ps h a.1,
  cmp_trans key k p.key h a.0,
  eq_of_cmp p.key key,
  cmp_refl key,
)

hit-rank :
    (ps : List Pair) (key : Key)
    → IsAscending ps
    → hit (get_elem? ps (rank ps key)) key ≡ lookup ps key
unfolding hit rank lookup
hit-rank [] key s = refl
hit-rank (p ∷ ps) key s =
    ground (arith, hit-rank ps key s.1, lookup-above key p.key ps, s.0, cmp_flip_gt p.key key)

-- The packed data of a list of pairs, and the offsets of its records from `n` on.
unfoldable pub packed : List Pair → List ℕ
packed [] = []
packed (p ∷ ps) = record_bytes p ++ packed ps

offsets : ℕ → List Pair → List ℕ
offsets n [] = []
offsets n (p ∷ ps) = n ∷ offsets (n + length (record_bytes p)) ps

push_pairs-packed :
    (ps : List Pair) (f : FlatIndex)
    → length f.contents + length (packed ps) < u32_mod
    → push_pairs ps f ≡ record {
      contents = f.contents ++ packed ps;
      rec_off = f.rec_off ++ offsets (length f.contents) ps;
    }
unfolding push_pairs packed offsets
push_pairs-packed [] f h = simp append-nil
push_pairs-packed (p ∷ ps) f h =
    let sum = length-append {0} (record_bytes p) (packed ps) in
    let grown = length-append {0} f.contents (record_bytes p) in
    let small : length f.contents % u32_mod ≡ length f.contents = omega (arith, sum) in
    push_pairs-packed ps _ (omega (arith, sum, grown)) ∙ rw (grown, small) (simp append_assoc)

partition_off-packed :
    (before : List ℕ) (ps : List Pair) (key : Key) (n : ℕ) (bytes : List ℕ)
    → AllFit ps
    → bytes ≡ before ++ packed ps
    → length before ≡ n
    → partition_off bytes (offsets n ps) key ≡ some (rank ps key)
unfolding partition_off packed offsets rank
partition_off-packed before [] key n bytes fit e l = refl
partition_off-packed before (p ∷ ps) key n bytes fit e l =
    let here : record_at_off bytes n ≡ some p =
      rw (e, ← l) (record_at before (packed ps) p fit.0) in
    let rest =
      partition_off-packed (before ++ record_bytes p) ps key (n + length (record_bytes p)) bytes
        fit.1 (e ∙ sym (append_assoc before (record_bytes p) (packed ps)))
        (omega (arith, length-append {0} before (record_bytes p))) in
    rw (here, rest, ◌>>=◌) (ground arith)

at-packed :
    (before : List ℕ) (ps : List Pair) (i n : ℕ) (bytes : List ℕ)
    → AllFit ps
    → bytes ≡ before ++ packed ps
    → length before ≡ n
    → at (record { contents = bytes; rec_off = offsets n ps }) i ≡ some (get_elem? ps i)
unfolding at packed offsets
at-packed before [] i n bytes fit e l = refl
at-packed before (p ∷ ps) zero n bytes fit e l =
    let here : record_at_off bytes n ≡ some p =
      rw (e, ← l) (record_at before (packed ps) p fit.0) in
    rw (here, ◌>>=◌) refl
at-packed before (p ∷ ps) (suc i) n bytes fit e l =
    at-packed (before ++ record_bytes p) ps i (n + length (record_bytes p)) bytes fit.1
      (e ∙ sym (append_assoc before (record_bytes p) (packed ps)))
      (omega (arith, length-append {0} before (record_bytes p)))

-- A lookup in the index of sorted pairs that fit their fields, in less than 4 GiB, reads nothing
-- out of range and returns the entry of the key, or nothing where no pair has the key.
pub get-from_sorted :
    (ps : List Pair) (key : Key)
    → AllFit ps
    → IsAscending ps
    → length (packed ps) < u32_mod
    → FlatIndex.get (from_sorted ps) key ≡ some (lookup ps key)
unfolding FlatIndex.get from_sorted partition_point
get-from_sorted ps key fit asc small =
    rw (push_pairs-packed ps (record { contents = []; rec_off = [] }) (omega arith)) (
      rw (partition_off-packed [] ps key 0 (packed ps) fit refl refl, ◌>>=◌)
        (rw (at-packed [] ps (rank ps key) 0 (packed ps) fit refl refl, ◌>>=◌)
          (ap some (hit-rank ps key asc))))
