-- ===== src/Sstable/Scan.antt =====
-- crates/f4kvs-lsm/src/storage/sstable.rs: the ordered reads of a table, over its index. A table
-- whose file cannot be opened answers with an error; that case is not modelled. An entry that
-- cannot be read is skipped, as in the source.
use f4kvs_lsm.Base.{
  Option, none, some, List, [], ◌∷◌, Key, key_eq, key_lt, starts_with, if◌then◌else◌,
}
use f4kvs_lsm.FlatIndex.{Pair}
use f4kvs_lsm.Memtable.Scan.{LayerEntry}
use f4kvs_lsm.Sstable.{SsTable, try_read_entry}

-- The index from `partition_point(bound)` on.
unfoldable pub index_from : List Pair → Key → List Pair
index_from [] bound = []
index_from (p ∷ ps) bound =
    let rest = index_from ps bound in if key_lt p.key bound then rest else p ∷ ps

-- The loop that breaks at the first key with another prefix.
unfoldable pub while_prefix : List Pair → Key → List Pair
while_prefix [] prefix = []
while_prefix (p ∷ ps) prefix =
    let rest = while_prefix ps prefix in if starts_with p.key prefix then p ∷ rest else []

unfoldable pub first_key_of : List Pair → Key → Option Key
first_key_of [] prefix = none
first_key_of (p ∷ ps) prefix = if starts_with p.key prefix then some p.key else none

-- the step past a key that equals the bound
unfoldable pub past : List Pair → Key → List Pair
past [] bound = []
past (p ∷ ps) bound = if key_eq p.key bound then ps else p ∷ ps

module _ {J : Type 0} where
  -- `if let Ok(entry) = self.try_read_entry(offset, loc, None).await { entries.push(..) }`
  unfoldable pub read_layer : SsTable J → List Pair → List (LayerEntry J)
  unfolding try_read_entry
  read_layer t [] = []
  read_layer t (p ∷ ps) =
      let rest = read_layer t ps in
      elim (try_read_entry t p.file_off p.size) [
        | none ↦ rest
        | some e ↦ (p.key, e.value, e.deleted) ∷ rest
      ]

  unfoldable pub scan_prefix_layer : SsTable J → Key → List (LayerEntry J)
  unfolding index_from while_prefix read_layer
  scan_prefix_layer t prefix =
      if t.is_ready then read_layer t (while_prefix (index_from t.index prefix) prefix) else []

  unfoldable pub scan_all : SsTable J → List (LayerEntry J)
  unfolding read_layer
  scan_all t = read_layer t t.index

  unfoldable pub first_key_after : SsTable J → Key → Option Key → Option Key
  unfolding index_from first_key_of past
  first_key_after t prefix none =
      if t.is_ready then first_key_of (index_from t.index prefix) prefix else none
  first_key_after t prefix (some a) =
      if t.is_ready then first_key_of (past (index_from t.index a) a) prefix else none
