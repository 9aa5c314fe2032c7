-- ===== src/Wal/Operations.antt =====
-- crates/f4kvs-lsm/src/storage/wal.rs: the operations that the engine calls to log what it does.
-- `enabled` is `config.group_commit_enabled`, `now` the time in seconds, and `at` the instant that
-- the deadlines of group commit count from.
use f4kvs_lsm.Base.{ℕ, Bool, true, false, Option, none, some, List, [], ◌∷◌, Key, if◌then◌else◌}
use f4kvs_lsm.Value.{Value}
use f4kvs_lsm.Wal.{WalEntry, Codec, put, delete}
use f4kvs_lsm.Wal.Segment.{WalSegmentHeader}
use f4kvs_lsm.Wal.Manager.{WalManager, write_entry, batch_write_entries}
use f4kvs_lsm.Wal.GroupCommit.{GroupCommit, enqueue, flush_pending_group_commit}

module _ {J : Type 0} where
  unfoldable pub puts_at : ℕ → List (Key × Value J) → List (WalEntry J)
  puts_at timestamp [] = []
  puts_at timestamp ((key, value) ∷ items) = put key value timestamp ∷ puts_at timestamp items

  unfoldable pub with_manager : GroupCommit J → Option WalManager → Option (GroupCommit J)
  with_manager g none = none
  with_manager g (some m) = some (record g { manager = m })

module _ {J : Type 0} (codec : Codec (WalEntry J)) (headers : Codec WalSegmentHeader) where
  -- The branch that both operations end with; `none` is an error. With group commit the entry is
  -- in the queue behind it, and the caller, under the number `waiter`, waits for its answer in
  -- `acks`.
  unfoldable pub write_or_enqueue :
      Bool → ℕ → ℕ → ℕ → GroupCommit J → WalEntry J → Option (GroupCommit J)
  unfolding enqueue write_entry with_manager
  write_or_enqueue enabled now at waiter g e =
      if enabled
      then some (enqueue at waiter e g)
      else with_manager g (write_entry codec headers now g.manager e)

  unfoldable pub write_operation :
      Bool → ℕ → ℕ → ℕ → GroupCommit J → Key → Value J → Option (GroupCommit J)
  unfolding write_or_enqueue
  write_operation enabled now at waiter g key value =
      write_or_enqueue enabled now at waiter g (put key value now)

  unfoldable pub write_delete : Bool → ℕ → ℕ → ℕ → GroupCommit J → Key → Option (GroupCommit J)
  unfolding write_or_enqueue
  write_delete enabled now at waiter g key =
      write_or_enqueue enabled now at waiter g (delete key now)

  -- The batch behind the flush of the queue, whose error ends it.
  unfoldable pub batch_after : ℕ → GroupCommit J × Bool → List (WalEntry J) → Option (GroupCommit J)
  unfolding batch_write_entries with_manager
  batch_after now (g, false) es = none
  batch_after now (g, true) es = with_manager g (batch_write_entries codec headers now g.manager es)

  unfoldable pub batch_write_operations :
      Bool → ℕ → GroupCommit J → List (Key × Value J) → Option (GroupCommit J)
  unfolding flush_pending_group_commit batch_after puts_at
  batch_write_operations enabled now g [] = some g
  batch_write_operations enabled now g (item ∷ items) =
      let flushed = if enabled then flush_pending_group_commit codec headers now g else (g, true) in
      batch_after now flushed (puts_at now (item ∷ items))
