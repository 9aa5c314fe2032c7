-- ===== src/Tests/GroupCommits.antt =====
-- The queue of group commit at concrete inputs.
use f4kvs_lsm.Base.{ℕ, ◌+◌, ◌≤◌, ◌≡◌, refl, max, true, none, some, [], ◌∷◌, arith, length}
use f4kvs_lsm.Wal.{WalEntry, delete, IsReadable}
use f4kvs_lsm.Wal.Manager.{rotate_segment}
use f4kvs_lsm.Wal.Manager.Log.{IsLog}
use f4kvs_lsm.Wal.GroupCommit.{
  take_pending, flush_pending_group_commit, GroupCommit, enqueue, entries_of, write_taken,
  flush_pending_group_commit, answer, next_flush_deadline,
}
use f4kvs_lsm.Wal.GroupCommit.Deadlines.{
  Waited, first_entry, next_entry, next_flush_deadline-Waited,
}
use f4kvs_lsm.Wal.GroupCommit.Orders.{flush_pending_group_commit-IsLog, write_taken_reordered}
use f4kvs_lsm.Tests.{key_a}
use f4kvs_lsm.Tests.Logs.{
  test_codec, header_codec, header_codec-IsHeaderCodec, first_log, first_log-IsLog, put_a,
  put_a-IsReadable,
}

abbrev empty_queue : GroupCommit ℕ
empty_queue = record {
  manager = first_log;
  pending = [];
  timing = record { first_pending_at = none; last_enqueue_at = none };
  acks = [];
}

abbrev two_pending : GroupCommit ℕ
two_pending = enqueue 9 1 put_a (enqueue 7 0 put_a empty_queue)

two_pending-Waited : Waited test_codec header_codec 7 9 two_pending
two_pending-Waited =
    next_entry 7 7 9 1 put_a (enqueue 7 0 put_a empty_queue)
      (first_entry 7 0 put_a empty_queue refl) (omega arith)

next_flush_deadline-Waited_example :
    (d : ℕ) × (next_flush_deadline 10 two_pending.timing (length two_pending.pending) 5 (some 2)
      ≡ some d)
    × (d ≤ max (7 + 5) 10)
next_flush_deadline-Waited_example =
    next_flush_deadline-Waited test_codec header_codec 7 9 10 5 (some 2) two_pending
      two_pending-Waited

flush_pending_group_commit-IsLog_example :
    (g : GroupCommit ℕ) × (flush_pending_group_commit test_codec header_codec 6 two_pending
      ≡ (g, true))
    × IsLog test_codec header_codec header_codec-IsHeaderCodec g.manager (put_a ∷ put_a ∷ [])
    × (g.pending ≡ [])
    × (g.acks ≡ (0, true) ∷ (1, true) ∷ [])
unfolding enqueue entries_of answer rotate_segment
flush_pending_group_commit-IsLog_example =
    flush_pending_group_commit-IsLog test_codec header_codec header_codec-IsHeaderCodec 6
      two_pending [] first_log-IsLog (put_a-IsReadable, (put_a-IsReadable, tt)) (omega arith)
      (omega arith)

abbrev delete_a : WalEntry ℕ
delete_a = delete key_a 7

delete_a-IsReadable : IsReadable test_codec 40 delete_a
delete_a-IsReadable = record {
  decodes = refl;
  nonempty = omega arith;
  within = omega arith;
  fits = omega arith;
}

abbrev one_pending : GroupCommit ℕ
one_pending = enqueue 5 0 put_a empty_queue

write_taken_reordered_example :
    ((g1 : GroupCommit ℕ) × (g2 : GroupCommit ℕ) × (write_taken test_codec header_codec 6
          (take_pending (enqueue 6 1 delete_a (take_pending one_pending).1)).0
          (take_pending (enqueue 6 1 delete_a (take_pending one_pending).1)).1
        ≡ (g1, true))
      × (write_taken test_codec header_codec 6 (take_pending one_pending).0 g1 ≡ (g2, true))
      × IsLog test_codec header_codec header_codec-IsHeaderCodec g2.manager (delete_a ∷ put_a ∷ []))
    × ((h : GroupCommit ℕ) × (flush_pending_group_commit test_codec header_codec 6 (
            enqueue 6 1 delete_a
              (flush_pending_group_commit test_codec header_codec 6 one_pending).0)
          ≡ (h, true))
        × IsLog test_codec header_codec header_codec-IsHeaderCodec h.manager
            (put_a ∷ delete_a ∷ []))
unfolding entries_of enqueue rotate_segment
write_taken_reordered_example =
    write_taken_reordered test_codec header_codec header_codec-IsHeaderCodec 6 6 1 delete_a
      one_pending [] first_log-IsLog (put_a-IsReadable, tt) delete_a-IsReadable (omega arith)
      (omega arith)
