-- ===== src/Wal/GroupCommit/Deadlines.antt =====
-- crates/f4kvs-lsm/src/storage/wal_group_commit.rs: when a queue with entries is flushed.
use f4kvs_lsm.Base.{
  ℕ, ◌+◌, ◌≤◌, ◌<◌, ◌≡◌, refl, ap, ◌∙◌, max, Option, none, some, [], ◌∷◌, length, arith,
  length-append, false,
}
use f4kvs_lsm.Wal.{WalEntry, Codec}
use f4kvs_lsm.Wal.Segment.{WalSegmentHeader}
use f4kvs_lsm.Wal.Manager.{WalManager, batch_write_entries}
use f4kvs_lsm.Wal.GroupCommit.{
  GroupCommit, GroupCommitTiming, Pending, enqueue, record_enqueue, is_empty, or_idle,
  next_flush_deadline, write_taken, entries_of, answered,
}

or_idle_le : (deadline : ℕ) (idle last : Option ℕ) → or_idle deadline idle last ≤ deadline
unfolding or_idle
or_idle_le deadline none last = omega arith
or_idle_le deadline (some i) none = omega arith
or_idle_le deadline (some i) (some l) = omega arith

deadline_waiting :
    (now max_wait count first : ℕ) (t : GroupCommitTiming) (idle : Option ℕ)
    → t.first_pending_at ≡ some first
    → 0 < count
    → next_flush_deadline now t count max_wait idle
      ≡ some (max (or_idle (first + max_wait) idle t.last_enqueue_at) now)
unfolding next_flush_deadline
deadline_waiting now max_wait count first t idle e c = ground (arith, e, c)

answered_queue :
    {J : Type 0} (o : Option WalManager) (taken : Pending J) (g : GroupCommit J)
    → ((answered o taken g).0.pending ≡ g.pending) × ((answered o taken g).0.timing ≡ g.timing)
unfolding answered
answered_queue none taken g = (refl, refl)
answered_queue (some m) taken g = (refl, refl)

module _ {J : Type 0} (codec : Codec (WalEntry J)) (headers : Codec WalSegmentHeader) where
  -- A queue that got its first entry at one instant, and what can happen to it up to another one
  -- while no task takes it: more entries come, and batches that were taken before are written.
  pub data Waited : ℕ → ℕ → GroupCommit J → Type 0 where
    first_entry :
        (start waiter : ℕ) (e : WalEntry J) (g : GroupCommit J)
        → g.pending ≡ []
        → Waited start start (enqueue start waiter e g)
    next_entry :
        (start before now waiter : ℕ) (e : WalEntry J) (g : GroupCommit J)
        → Waited start before g
        → before ≤ now
        → Waited start now (enqueue now waiter e g)
    other_batch :
        (start before now : ℕ) (taken : Pending J) (g : GroupCommit J)
        → Waited start before g
        → before ≤ now
        → Waited start now (write_taken codec headers now taken g).0

  record IsWaiting (start now : ℕ) (g : GroupCommit J) : Type 0 where
    first : g.timing.first_pending_at ≡ some start
    some_pending : 0 < length g.pending
    passed : start ≤ now

  enqueue_first :
      (now waiter : ℕ) (e : WalEntry J) (g : GroupCommit J)
      → g.pending ≡ []
      → IsWaiting now now (enqueue now waiter e g)
  unfolding enqueue is_empty record_enqueue
  enqueue_first now waiter e g p = record {
    first = ground (arith, p);
    some_pending = omega (arith, length-append {0} g.pending ((waiter, e) ∷ []));
    passed = omega arith;
  }

  is_empty-false : (ps : Pending J) → 0 < length ps → is_empty ps ≡ false
  unfolding is_empty
  is_empty-false [] h = absurd (omega (arith, h))
  is_empty-false (p ∷ ps) h = refl

  enqueue-IsWaiting :
      (start before now waiter : ℕ) (e : WalEntry J) (g : GroupCommit J)
      → IsWaiting start before g
      → before ≤ now
      → IsWaiting start now (enqueue now waiter e g)
  unfolding enqueue record_enqueue
  enqueue-IsWaiting start before now waiter e g i l =
      let busy = is_empty-false g.pending i.some_pending in
      record {
        first = rw busy i.first;
        some_pending = omega (arith, length-append {0} g.pending ((waiter, e) ∷ []));
        passed = omega (arith, l, i.passed);
      }

  write_taken_queue :
      (now : ℕ) (taken : Pending J) (g : GroupCommit J)
      → ((write_taken codec headers now taken g).0.pending ≡ g.pending)
        × ((write_taken codec headers now taken g).0.timing ≡ g.timing)
  unfolding write_taken
  write_taken_queue now [] g = (refl, refl)
  write_taken_queue now (p ∷ ps) g =
      answered_queue (batch_write_entries codec headers now g.manager (entries_of (p ∷ ps)))
        (p ∷ ps) g

  write_taken-IsWaiting :
      (start before now : ℕ) (taken : Pending J) (g : GroupCommit J)
      → IsWaiting start before g
      → before ≤ now
      → IsWaiting start now (write_taken codec headers now taken g).0
  write_taken-IsWaiting start before now taken g i l =
      let (p, t) = write_taken_queue now taken g in
      record {
        first = ap (λ timing. timing.first_pending_at) t ∙ i.first;
        some_pending = omega (arith, i.some_pending, ap length p);
        passed = omega (arith, l, i.passed);
      }

  Waited-IsWaiting :
      (start now : ℕ) (g : GroupCommit J) → Waited start now g → IsWaiting start now g
  Waited-IsWaiting start now g (first_entry _ waiter e h p) = enqueue_first start waiter e h p
  Waited-IsWaiting start now g (next_entry _ before _ waiter e h w l) =
      enqueue-IsWaiting start before now waiter e h (Waited-IsWaiting start before h w) l
  Waited-IsWaiting start now g (other_batch _ before _ taken h w l) =
      write_taken-IsWaiting start before now taken h (Waited-IsWaiting start before h w) l

  -- Whatever happens to a queue since its first entry came, until a task takes it: at every
  -- instant it has a deadline, which is at most the longest wait after that entry, or the instant
  -- itself where that has passed.
  pub next_flush_deadline-Waited :
      (start before now max_wait : ℕ) (idle_flush : Option ℕ) (g : GroupCommit J)
      → Waited start before g
      → (d : ℕ) × (next_flush_deadline now g.timing (length g.pending) max_wait idle_flush ≡ some d)
        × (d ≤ max (start + max_wait) now)
  next_flush_deadline-Waited start before now max_wait idle_flush g w =
      let i = Waited-IsWaiting start before g w in
      (
        max (or_idle (start + max_wait) idle_flush g.timing.last_enqueue_at) now,
        deadline_waiting now max_wait (length g.pending) start g.timing idle_flush i.first
            i.some_pending,
        omega (arith, or_idle_le (start + max_wait) idle_flush g.timing.last_enqueue_at),
      )
