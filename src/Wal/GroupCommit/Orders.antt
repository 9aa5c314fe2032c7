-- ===== src/Wal/GroupCommit/Orders.antt =====
-- crates/f4kvs-lsm/src/storage/wal.rs: the order in which the queue comes to the log.
use f4kvs_lsm.Base.{
  ℕ, ◌+◌, ◌≤◌, ◌<◌, ◌≡◌, refl, ap, sym, ◌∙◌, true, some, List, [], ◌∷◌, ◌++◌, arith, append-nil,
  subst,
}
use f4kvs_lsm.Base.Words.{u64_mod}
use f4kvs_lsm.Wal.{WalEntry, Codec, AllReadable, IsReadable}
use f4kvs_lsm.Wal.Segment.{WalSegmentHeader}
use f4kvs_lsm.Wal.Manager.{WalManager, batch_write_entries}
use f4kvs_lsm.Wal.Manager.Files.{IsHeaderCodec}
use f4kvs_lsm.Wal.Manager.Log.{IsLog}
use f4kvs_lsm.Wal.Manager.Batches.{batch_written}
use f4kvs_lsm.Wal.GroupCommit.{
  GroupCommit, Pending, enqueue, take_pending, write_taken, flush_pending_group_commit, entries_of,
  answer, answered,
}

module _ {J : Type 0} (codec : Codec (WalEntry J)) (headers : Codec WalSegmentHeader)
    (lawful : IsHeaderCodec headers) where
  write_taken_written :
      (now : ℕ) (p : ℕ × WalEntry J) (ps : Pending J) (g : GroupCommit J) (m : WalManager)
      → batch_write_entries codec headers now g.manager (entries_of (p ∷ ps)) ≡ some m
      → write_taken codec headers now (p ∷ ps) g
        ≡ (record g { manager = m; acks = g.acks ++ answer true (p ∷ ps) }, true)
  unfolding write_taken answered
  write_taken_written now p ps g m w = ap (λ o. answered o (p ∷ ps) g) w

  -- What a batch that was taken does: its entries come to the end of the log, and its waiters
  -- hear of it.
  write_taken_lem :
      (now : ℕ) (taken : Pending J) (g : GroupCommit J) (es : List (WalEntry J))
      → IsLog codec headers lawful g.manager es
      → AllReadable codec g.manager.segment_size (entries_of taken)
      → now < u64_mod
      → g.manager.segment_counter + 2 < u64_mod
      → (m : WalManager) × (write_taken codec headers now taken g
          ≡ (record g { manager = m; acks = g.acks ++ answer true taken }, true))
        × IsLog codec headers lawful m (es ++ entries_of taken)
        × (m.segment_size ≡ g.manager.segment_size)
        × (m.segment_counter ≤ g.manager.segment_counter + 2)
  unfolding write_taken answer entries_of
  write_taken_lem now [] g es l r n small = (
    g.manager,
    ap (λ acks. (record g { acks = acks }, true)) (sym (append-nil g.acks)),
    subst (IsLog codec headers lawful g.manager) (sym (append-nil es)) l,
    refl,
    omega arith,
  )
  write_taken_lem now (p ∷ ps) g es l r n small =
      let (m, w, log, z, c) =
        batch_written codec headers lawful now g.manager es (entries_of (p ∷ ps)) l r n small in
      (m, write_taken_written now p ps g m w, log, z, c)

  -- A flush of entries that are readable one by one writes those that wait, in their order, behind
  -- those of the log, tells each waiter of it, and leaves an empty queue, while the time and the
  -- numbers of the next two segments fit their words.
  pub flush_pending_group_commit-IsLog :
      (now : ℕ) (g : GroupCommit J) (es : List (WalEntry J))
      → IsLog codec headers lawful g.manager es
      → AllReadable codec g.manager.segment_size (entries_of g.pending)
      → now < u64_mod
      → g.manager.segment_counter + 2 < u64_mod
      → (g' : GroupCommit J) × (flush_pending_group_commit codec headers now g ≡ (g', true))
        × IsLog codec headers lawful g'.manager (es ++ entries_of g.pending)
        × (g'.pending ≡ [])
        × (g'.acks ≡ g.acks ++ answer true g.pending)
  unfolding flush_pending_group_commit take_pending
  flush_pending_group_commit-IsLog now g es l r n small =
      let rest = (take_pending g).1 in
      let (m, w, log, _, _) = write_taken_lem now g.pending rest es l r n small in
      (record rest { manager = m; acks = g.acks ++ answer true g.pending }, w, log, refl, refl)

  in_turn :
      (now : ℕ) (p : ℕ × WalEntry J) (g : GroupCommit J) (es : List (WalEntry J))
      → IsLog codec headers lawful g.manager es
      → AllReadable codec g.manager.segment_size (entries_of g.pending)
      → AllReadable codec g.manager.segment_size (entries_of (p ∷ []))
      → now < u64_mod
      → g.manager.segment_counter + 4 < u64_mod
      → (at : ℕ)
      → (h : GroupCommit J) × (flush_pending_group_commit codec headers now
            (enqueue at p.0 p.1 (flush_pending_group_commit codec headers now g).0)
          ≡ (h, true))
        × IsLog codec headers lawful h.manager ((es ++ entries_of g.pending) ++ p.1 ∷ [])
  unfolding flush_pending_group_commit take_pending enqueue entries_of
  in_turn now p g es l r s n small at =
      let rest = (take_pending g).1 in
      let (m1, w1, l1, z1, c1) =
        write_taken_lem now g.pending rest es l r n (omega (arith, small)) in
      let between : GroupCommit J = record rest {
        manager = m1;
        acks = g.acks ++ answer true g.pending;
      } in
      let next = take_pending (enqueue at p.0 p.1 between) in
      let (m2, w2, l2, _, _) =
        write_taken_lem now next.0 next.1 (es ++ entries_of g.pending) l1
          (subst (λ limit. AllReadable codec limit (entries_of (p ∷ []))) (sym z1) s) n
          (omega (arith, small, c1)) in
      (
        record next.1 { manager = m2; acks = between.acks ++ answer true next.0 },
        ap (λ r. flush_pending_group_commit codec headers now (enqueue at p.0 p.1 r.0)) w1 ∙ w2,
        l2,
      )

  overtaken :
      (now : ℕ) (p : ℕ × WalEntry J) (g : GroupCommit J) (es : List (WalEntry J))
      → IsLog codec headers lawful g.manager es
      → AllReadable codec g.manager.segment_size (entries_of g.pending)
      → AllReadable codec g.manager.segment_size (entries_of (p ∷ []))
      → now < u64_mod
      → g.manager.segment_counter + 4 < u64_mod
      → (at : ℕ)
      → (g1 : GroupCommit J) × (g2 : GroupCommit J) × (write_taken codec headers now
            (take_pending (enqueue at p.0 p.1 (take_pending g).1)).0
            (take_pending (enqueue at p.0 p.1 (take_pending g).1)).1
          ≡ (g1, true))
        × (write_taken codec headers now (take_pending g).0 g1 ≡ (g2, true))
        × IsLog codec headers lawful g2.manager ((es ++ p.1 ∷ []) ++ entries_of g.pending)
  unfolding take_pending enqueue entries_of
  overtaken now p g es l r s n small at =
      let next = take_pending (enqueue at p.0 p.1 (take_pending g).1) in
      let (m1, w1, l1, z1, c1) =
        write_taken_lem now next.0 next.1 es l s n (omega (arith, small)) in
      let g1 : GroupCommit J = record next.1 {
        manager = m1;
        acks = g.acks ++ answer true next.0;
      } in
      let (m2, w2, l2, _, _) =
        write_taken_lem now g.pending g1 (es ++ p.1 ∷ []) l1
          (subst (λ limit. AllReadable codec limit (entries_of g.pending)) (sym z1) r) n
          (omega (arith, small, c1)) in
      (g1, record g1 { manager = m2; acks = g1.acks ++ answer true g.pending }, w1, w2, l2)

  -- One task takes what waits in the queue, and then an entry comes. If a second task takes that
  -- entry and writes it before the first one writes its part, both succeed and the log has the
  -- later entry before the earlier ones; if the first task has written its part when the entry
  -- comes, the log has them in the order in which they came. The entries are readable one by one,
  -- and the time and the numbers of the next four segments fit their words.
  pub write_taken_reordered :
      (now at waiter : ℕ) (e : WalEntry J) (g : GroupCommit J) (es : List (WalEntry J))
      → IsLog codec headers lawful g.manager es
      → AllReadable codec g.manager.segment_size (entries_of g.pending)
      → IsReadable codec g.manager.segment_size e
      → now < u64_mod
      → g.manager.segment_counter + 4 < u64_mod
      → ((g1 : GroupCommit J) × (g2 : GroupCommit J) × (write_taken codec headers now
              (take_pending (enqueue at waiter e (take_pending g).1)).0
              (take_pending (enqueue at waiter e (take_pending g).1)).1
            ≡ (g1, true))
          × (write_taken codec headers now (take_pending g).0 g1 ≡ (g2, true))
          × IsLog codec headers lawful g2.manager ((es ++ e ∷ []) ++ entries_of g.pending))
        × ((h : GroupCommit J) × (flush_pending_group_commit codec headers now
                (enqueue at waiter e (flush_pending_group_commit codec headers now g).0)
              ≡ (h, true))
            × IsLog codec headers lawful h.manager ((es ++ entries_of g.pending) ++ e ∷ []))
  unfolding entries_of
  write_taken_reordered now at waiter e g es l r s n small = (
    overtaken now (waiter, e) g es l r (s, tt) n small at,
    in_turn now (waiter, e) g es l r (s, tt) n small at,
  )
