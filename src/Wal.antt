-- ===== src/Wal.antt =====
-- crates/f4kvs-lsm/src/storage/wal.rs: the entries of the write-ahead log and their form in a file,
-- four bytes of size and what `bincode` makes of the entry. `bincode` is the parameter `Codec`.
pub mod Framing
pub mod Segment
pub mod Manager
pub mod Replay
pub mod Index
pub mod Indexed
pub mod GroupCommit
pub mod Operations
use f4kvs_lsm.Base.{ℕ, ◌%◌, ◌≤◌, ◌<◌, ◌≡◌, Option, some, List, [], ◌∷◌, ◌++◌, Key, length}
use f4kvs_lsm.Base.Bytes.{le_bytes}
use f4kvs_lsm.Base.Words.{u32_mod}
use f4kvs_lsm.Value.{Value}

pub data WalEntry (J : Type 0) : Type 0 where
  put : Key → Value J → ℕ → WalEntry J
  delete : Key → ℕ → WalEntry J
  flush : ℕ → ℕ → WalEntry J
  checkpoint : ℕ → WalEntry J

unfoldable pub entry_timestamp : {J : Type 0} → WalEntry J → ℕ
entry_timestamp (put key value timestamp) = timestamp
entry_timestamp (delete key timestamp) = timestamp
entry_timestamp (flush memtable_id timestamp) = timestamp
entry_timestamp (checkpoint timestamp) = timestamp

-- `bincode::serialize` and `bincode::deserialize` at one type
pub record Codec (A : Type 0) : Type 0 where
  pub serialize : A → List ℕ
  pub deserialize : List ℕ → Option A

module _ {J : Type 0} (codec : Codec (WalEntry J)) where
  -- One entry as it stands in a file. The size is cast to `u32`.
  unfoldable pub record_bytes : WalEntry J → List ℕ
  record_bytes e =
      let payload = codec.serialize e in le_bytes 4 (length payload % u32_mod) ++ payload

  unfoldable pub records : List (WalEntry J) → List ℕ
  unfolding record_bytes
  records [] = []
  records (e ∷ es) = record_bytes e ++ records es

  -- The payload of the entry has from 1 to `limit` bytes, which fit in a `u32`, and `bincode`
  -- reads it back.
  pub record IsReadable (limit : ℕ) (e : WalEntry J) : Type 0 where
    pub decodes : codec.deserialize (codec.serialize e) ≡ some e
    pub nonempty : 0 < length (codec.serialize e)
    pub within : length (codec.serialize e) ≤ limit
    pub fits : length (codec.serialize e) < u32_mod

  abbrev pub AllReadable : ℕ → List (WalEntry J) → Type 0
  AllReadable limit [] = Unit {0}
  AllReadable limit (e ∷ es) = IsReadable limit e × AllReadable limit es
