-- ===== src/Wal/Replay/Durable.antt =====
-- crates/f4kvs-lsm/src/core/engine.rs and storage/wal.rs: the memtable after a crash is the one
-- before it.
use f4kvs_lsm.Base.{ℕ, ◌+◌, ◌<◌, ◌≡◌, ap, ◌∙◌, none, some, List, length, ltb, arith}
use f4kvs_lsm.Base.Sort.{IsOrdered, sort_by-IsOrdered}
use f4kvs_lsm.Base.Words.{u64_mod, u32_mod}
use f4kvs_lsm.Wal.{WalEntry, Codec, entry_timestamp, record_bytes}
use f4kvs_lsm.Wal.Segment.{WalSegmentHeader}
use f4kvs_lsm.Wal.Manager.{WalManager, read_entries_from_disk}
use f4kvs_lsm.Wal.Manager.Files.{IsHeaderCodec}
use f4kvs_lsm.Wal.Manager.Log.{IsLog}
use f4kvs_lsm.Wal.Manager.Opening.{crashed, crashed-IsLog}
use f4kvs_lsm.Wal.Replay.{last_checkpoint, entries_to_recover, apply_entries, recover_from_wal}
use f4kvs_lsm.Memtable.{Memtable}

-- No entry has a timestamp before that of the one that it follows.
abbrev pub InTime : {J : Type 0} → List (WalEntry J) → Type 0
InTime es = IsOrdered (λ a b. ltb (entry_timestamp a) (entry_timestamp b)) es

module _ {J : Type 0} (codec : Codec (WalEntry J)) (headers : Codec WalSegmentHeader)
    (lawful : IsHeaderCodec headers) (json_len : J → ℕ) where
  -- Where the clock did not go back and no checkpoint is in the log, a process that dies in the
  -- middle of a write leaves files from which recovery applies to a memtable the logged writes,
  -- all but the one that was cut, in their order, if the size of that one and the number of the
  -- next segment fit their words.
  pub recover_from_wal-crashed :
      (m : WalManager) (es : List (WalEntry J)) (e : WalEntry J) (n : ℕ) (t : Memtable J)
      → IsLog codec headers lawful m es
      → length (codec.serialize e) < u32_mod
      → n < length (record_bytes codec e)
      → m.segment_counter + 1 < u64_mod
      → InTime es
      → last_checkpoint es ≡ none
      → (read : List (WalEntry J)) × (read_entries_from_disk codec headers
            (crashed codec headers lawful m e n)
          ≡ some read)
        × (recover_from_wal json_len t read ≡ apply_entries json_len t es)
  unfolding recover_from_wal entries_to_recover
  recover_from_wal-crashed m es e n t l fits cut small ordered none_logged =
      let (read, log) =
        crashed-IsLog codec headers lawful 0 m es e n l fits cut (omega arith) small in
      let sorted =
        sort_by-IsOrdered (λ a b. ltb (entry_timestamp a) (entry_timestamp b)) es ordered in
      (es, read ∙ ap some sorted, ground (arith, none_logged))
