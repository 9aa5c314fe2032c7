-- ===== src/Wal/GroupCommit.antt =====
-- crates/f4kvs-lsm/src/storage/wal_group_commit.rs, and the queue of storage/wal.rs that collects
-- entries and writes them in one batch. Instants are numbers of one clock. A caller that waits is
-- known by a number, and what was sent to it stands in `acks`. `none` for a manager is an error
-- of the batch.
pub mod Deadlines
pub mod Orders
use f4kvs_lsm.Base.{
  ℕ, zero, suc, ◌+◌, min, max, Bool, true, false, Option, none, some, List, [], ◌∷◌, ◌++◌, length,
  if◌then◌else◌, leb, ◌==◌,
}
use f4kvs_lsm.Wal.{WalEntry, Codec}
use f4kvs_lsm.Wal.Segment.{WalSegmentHeader}
use f4kvs_lsm.Wal.Manager.{WalManager, batch_write_entries}

pub record GroupCommitTiming : Type 0 where
  pub first_pending_at : Option ℕ
  pub last_enqueue_at : Option ℕ

unfoldable pub record_enqueue : ℕ → GroupCommitTiming → Bool → GroupCommitTiming
record_enqueue now t true = record { first_pending_at = some now; last_enqueue_at = some now }
record_enqueue now t false = record t { last_enqueue_at = some now }

unfoldable pub clear : GroupCommitTiming → GroupCommitTiming
clear t = record { first_pending_at = none; last_enqueue_at = none }

-- The earlier of the two, where there is an idle time and an instant that it counts from.
unfoldable pub or_idle : ℕ → Option ℕ → Option ℕ → ℕ
or_idle deadline (some idle) (some last) = min deadline (last + idle)
or_idle deadline none last = deadline
or_idle deadline (some idle) none = deadline

unfoldable pub next_flush_deadline : ℕ → GroupCommitTiming → ℕ → ℕ → Option ℕ → Option ℕ
next_flush_deadline now t pending_count max_wait idle_flush =
    if pending_count == 0 then none else elim t.first_pending_at [
      | none ↦ none
      | some first ↦ some (max (or_idle (first + max_wait) idle_flush t.last_enqueue_at) now)
    ]

abbrev pub Pending : Type 0 → Type 0
Pending J = List (ℕ × WalEntry J)

pub record GroupCommit (J : Type 0) : Type 0 where
  pub manager : WalManager
  pub pending : Pending J
  pub timing : GroupCommitTiming
  pub acks : List (ℕ × Bool)

module _ {J : Type 0} where
  unfoldable pub is_empty : Pending J → Bool
  is_empty [] = true
  is_empty (p ∷ ps) = false

  unfoldable pub entries_of : Pending J → List (WalEntry J)
  entries_of [] = []
  entries_of ((waiter, e) ∷ ps) = e ∷ entries_of ps

  -- The same answer for each waiter.
  unfoldable pub answer : Bool → Pending J → List (ℕ × Bool)
  answer ok [] = []
  answer ok ((waiter, e) ∷ ps) = (waiter, ok) ∷ answer ok ps

  -- The part of `write_entry_group_commit` under the lock.
  unfoldable pub enqueue : ℕ → ℕ → WalEntry J → GroupCommit J → GroupCommit J
  enqueue now waiter e g = record g {
    pending = g.pending ++ (waiter, e) ∷ [];
    timing = record_enqueue now g.timing (is_empty g.pending);
  }

  -- The part of a flush under the lock: what was pending, and the queue without it.
  unfoldable pub take_pending : GroupCommit J → Pending J × GroupCommit J
  take_pending g = (
    g.pending,
    record g { pending = []; timing = if is_empty g.pending then g.timing else clear g.timing },
  )

  -- The waiters hear how the batch ended.
  unfoldable pub answered : Option WalManager → Pending J → GroupCommit J → GroupCommit J × Bool
  answered none taken g = (record g { acks = g.acks ++ answer false taken }, false)
  answered (some m) taken g = (record g { manager = m; acks = g.acks ++ answer true taken }, true)

module _ {J : Type 0} (codec : Codec (WalEntry J)) (headers : Codec WalSegmentHeader) where
  -- The part behind it, which other tasks can run before.
  unfoldable pub write_taken : ℕ → Pending J → GroupCommit J → GroupCommit J × Bool
  write_taken now [] g = (g, true)
  write_taken now (p ∷ ps) g =
      answered (batch_write_entries codec headers now g.manager (entries_of (p ∷ ps))) (p ∷ ps) g

  unfoldable pub flush_pending_group_commit : ℕ → GroupCommit J → GroupCommit J × Bool
  flush_pending_group_commit now g =
      let (taken, rest) = take_pending g in write_taken now taken rest
