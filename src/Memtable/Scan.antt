-- ===== src/Memtable/Scan.antt =====
-- crates/f4kvs-lsm/src/storage/memtable.rs and utils/lsm_utils.rs: ordered reads of a memtable.
-- `BTreeMap::range` panics on a range whose start is above its end; `none` is that panic.
pub mod Prefix
pub mod Ranges
use mathlib.Core.Option
use f4kvs_lsm.Base.{
  ℕ, ◌+◌, Bool, true, false, not, Option, none, some, List, [], ◌∷◌, ◌++◌, map, Key, starts_with,
  if◌then◌else◌,
}
use f4kvs_lsm.Base.BTreeMap.{BTreeMap}
use f4kvs_lsm.Base.BTreeMap.Range.{range_from, range_after, range}
use f4kvs_lsm.Base.Utf8.{Text, as_bytes, from_u32}
use f4kvs_lsm.Value.{Value, is_null}
use f4kvs_lsm.Memtable.{Memtable}

-- `(key, value, deleted)`
abbrev pub LayerEntry : Type 0 → Type 0
LayerEntry J = Key × Value J × Bool

module _ {ℓ} {V : Type ℓ} where
  -- The first entry of a range decides: its key, or `None` where it has another prefix.
  unfoldable pub first_with_prefix : BTreeMap V → Key → Option Key
  first_with_prefix [] prefix = none
  first_with_prefix ((k, v) ∷ m) prefix = if starts_with k prefix then some k else none

  unfoldable pub first_key_after_map : BTreeMap V → Key → Option Key → Option Key
  unfolding first_with_prefix
  first_key_after_map m prefix (some a) = first_with_prefix (range_after m a) prefix
  first_key_after_map m prefix none = first_with_prefix (range_from m prefix) prefix

  -- The loop that breaks at the first key with another prefix.
  unfoldable pub while_prefix : BTreeMap V → Key → BTreeMap V
  while_prefix [] prefix = []
  while_prefix ((k, v) ∷ m) prefix =
      let rest = while_prefix m prefix in if starts_with k prefix then (k, v) ∷ rest else []

module _ {J : Type 0} where
  unfoldable pub first_key_after : Memtable J → Key → Option Key → Option Key
  unfolding first_key_after_map
  first_key_after t prefix after = first_key_after_map t.contents prefix after

  unfoldable pub layer_of : BTreeMap (Value J) → List (LayerEntry J)
  unfolding is_null
  layer_of [] = []
  layer_of ((k, v) ∷ m) = (k, v, is_null v) ∷ layer_of m

  unfoldable pub live_keys : List (LayerEntry J) → List Key
  live_keys [] = []
  live_keys ((k, v, deleted) ∷ m) = let rest = live_keys m in if deleted then rest else k ∷ rest

  unfoldable pub scan_prefix : Memtable J → Key → List Key
  unfolding while_prefix layer_of live_keys
  scan_prefix t prefix = live_keys (layer_of (while_prefix (range_from t.contents prefix) prefix))

  unfoldable pub scan_prefix_layer : Memtable J → Key → List (LayerEntry J)
  unfolding while_prefix layer_of
  scan_prefix_layer t prefix = layer_of (while_prefix (range_from t.contents prefix) prefix)

  unfoldable pub get_all_entries : Memtable J → List (LayerEntry J)
  unfolding layer_of
  get_all_entries t = layer_of t.contents

-- `next_key.pop()`: the last character and the rest.
unfoldable pub pop_char : Text → Option (Text × ℕ)
pop_char [] = none
pop_char (c ∷ s) = elim (pop_char s) [ none ↦ some ([], c) | some (r, d) ↦ some (c ∷ r, d) ]

-- The last character moved up by one, or "\x01" appended where that is no character.
unfoldable pub exclusive_range_end : Text → Option Text
unfolding pop_char from_u32
exclusive_range_end end = elim (pop_char end) [
  | none ↦ none
  | some (r, c) ↦ elim (from_u32 (c + 1)) [
    | none ↦ some (end ++ 1 ∷ [])
    | some d ↦ some (r ++ d ∷ [])
  ]
]

module _ {J : Type 0} where
  unfoldable pub scan_range_layer : Memtable J → Text → Text → Option (List (LayerEntry J))
  unfolding layer_of exclusive_range_end range as_bytes
  scan_range_layer t start end = elim (exclusive_range_end end) [
    | none ↦ some (layer_of (range_from t.contents (as_bytes start)))
    | some bound ↦ Option.map layer_of (range t.contents (as_bytes start) (as_bytes bound))
  ]

  unfoldable pub scan_range : Memtable J → Text → Text → Option (List Key)
  unfolding live_keys scan_range_layer
  scan_range t start end = Option.map live_keys (scan_range_layer t start end)
