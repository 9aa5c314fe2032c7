-- ===== src/Wal/Replay/Written.antt =====
-- crates/f4kvs-lsm/src/core/engine.rs and storage/wal.rs: a put that was logged is there after a
-- restart.
use f4kvs_lsm.Base.{
  false, ℕ, ◌+◌, ◌≤◌, ◌<◌, ◌≡◌, refl, ap, ◌∙◌, none, some, List, [], ◌∷◌, ◌++◌, Key, length, ltb,
  arith, cmp_refl, Option-cases, inl, inr,
}
use f4kvs_lsm.Base.Sort.{sort_by-IsOrdered}
use f4kvs_lsm.Base.Words.{u64_mod}
use f4kvs_lsm.Value.{Value}
use f4kvs_lsm.Wal.{WalEntry, Codec, IsReadable, entry_timestamp, put}
use f4kvs_lsm.Wal.Segment.{WalSegmentHeader, header_of, header_size}
use f4kvs_lsm.Wal.Manager.{read_entries_from_disk}
use f4kvs_lsm.Wal.GroupCommit.{GroupCommit}
use f4kvs_lsm.Wal.Operations.{write_operation, write_or_enqueue, with_manager}
use f4kvs_lsm.Wal.Manager.Files.{IsHeaderCodec}
use f4kvs_lsm.Wal.Manager.Log.{IsLog, read_entries-IsLog}
use f4kvs_lsm.Wal.Manager.Writes.{write_entry-IsLog}
use f4kvs_lsm.Wal.Replay.{checkpoint_time, last_checkpoint, recover_from_wal}
use f4kvs_lsm.Wal.Replay.Outcome.{says, last_word, or_before, lookup-recover_from_wal}
use f4kvs_lsm.Wal.Replay.Durable.{InTime}
use f4kvs_lsm.Memtable
use f4kvs_lsm.Memtable.{Memtable, LookupResult}
use f4kvs_lsm.Memtable.Lookup.{seen}

module _ {J : Type 0} where
  last_checkpoint_snoc :
      (es : List (WalEntry J)) (e : WalEntry J)
      → last_checkpoint es ≡ none
      → checkpoint_time e ≡ none
      → last_checkpoint (es ++ e ∷ []) ≡ none
  unfolding last_checkpoint
  last_checkpoint_snoc [] e n c = ground (arith, c)
  last_checkpoint_snoc (x ∷ es) e n c = elim (Option-cases (last_checkpoint es)) [
    | inl rest ↦ ground (arith, n, rest, last_checkpoint_snoc es e rest c)
    | inr (time, rest) ↦ ground (arith, n, rest)
  ]

  last_word_snoc :
      (es : List (WalEntry J)) (e : WalEntry J) (q : Key) (r : LookupResult J)
      → says e q ≡ some r
      → last_word none (es ++ e ∷ []) q ≡ some r
  last_word_snoc [] e q r s = ground (arith, s)
  last_word_snoc (x ∷ es) e q r s = ground (arith, last_word_snoc es e q r s)

  says-put :
      (key : Key) (value : Value J) (now : ℕ) → says (put key value now) key ≡ some (seen value)
  says-put key value now = ground (arith, cmp_refl key)

module _ {J : Type 0} (codec : Codec (WalEntry J)) (headers : Codec WalSegmentHeader)
    (lawful : IsHeaderCodec headers) (json_len : J → ℕ) where
  -- Where the clock did not go back and no checkpoint is in the log, a put that `bincode` reads
  -- back and that fits a segment is written to the log, if group commit is off, while the time and
  -- the number of the next segment fit their words, and a memtable that is recovered from what the
  -- log then has on the disk answers the key with the value that was put.
  pub write_operation-recovered :
      (now at waiter : ℕ) (g : GroupCommit J) (es : List (WalEntry J)) (key : Key) (value : Value J)
      (t : Memtable J)
      → IsLog codec headers lawful g.manager es
      → IsReadable codec g.manager.segment_size (put key value now)
      → header_size headers (header_of 0) + (length (codec.serialize (put key value now)) + 4)
        ≤ g.manager.segment_size
      → now < u64_mod
      → g.manager.segment_counter + 1 < u64_mod
      → InTime (es ++ put key value now ∷ [])
      → last_checkpoint es ≡ none
      → (g' : GroupCommit J) × (read : List (WalEntry J)) × (write_operation codec headers false now
            at waiter g key value
          ≡ some g')
        × (read_entries_from_disk codec headers g'.manager ≡ some read)
        × (Memtable.lookup (recover_from_wal json_len t read) key ≡ seen value)
  unfolding write_operation write_or_enqueue with_manager checkpoint_time
  write_operation-recovered now at waiter g es key value t l r fits n small ordered none_logged =
      let e : WalEntry J = put key value now in
      let (m, w, log) =
        write_entry-IsLog codec headers lawful now g.manager e es l r fits n small in
      let sorted =
        sort_by-IsOrdered (λ a b. ltb (entry_timestamp a) (entry_timestamp b)) (es ++ e ∷ [])
          ordered in
      let all : last_checkpoint (es ++ e ∷ []) ≡ none =
        last_checkpoint_snoc es e none_logged refl in
      (
        record g { manager = m },
        es ++ e ∷ [],
        ap (with_manager g) w,
        read_entries-IsLog codec headers lawful m (es ++ e ∷ []) log ∙ ap some sorted,
        lookup-recover_from_wal json_len t (es ++ e ∷ []) key
            ∙ ap (λ limit. or_before (last_word limit (es ++ e ∷ []) key) (Memtable.lookup t key))
                all
            ∙ ap (λ o. or_before o (Memtable.lookup t key))
                (last_word_snoc es e key (seen value) (says-put key value now)),
      )
