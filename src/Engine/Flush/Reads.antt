-- ===== src/Engine/Flush/Reads.antt =====
-- crates/f4kvs-lsm/src/core/engine.rs: a flush moves entries from the active memtable to a table
-- of level 0, and reads see the same before and after.
use mathlib.Core.List.{Memᴰ}
use f4kvs_lsm.Base.{
  ℕ, ◌+◌, ◌<◌, ◌≡◌, refl, sym, ap, ◌∙◌, Option, none, some, List, [], ◌∷◌, Key, length, arith,
  Option-cases, inl, inr,
}
use f4kvs_lsm.Base.BTreeMap
use f4kvs_lsm.Base.BTreeMap.{BTreeMap}
use f4kvs_lsm.Base.Words.{u64_mod}
use f4kvs_lsm.Value.{Value, is_null}
use f4kvs_lsm.Memtable
use f4kvs_lsm.Memtable.{Memtable}
use f4kvs_lsm.Memtable.Accounting.{IsAccounted}
use f4kvs_lsm.Memtable.Scan.{get_all_entries}
use f4kvs_lsm.Sstable.{Entry, SsTable, LookupResult}
use f4kvs_lsm.Sstable.Lookup.{Holds, stored}
use f4kvs_lsm.Engine.{Engine, first_in, get_from_sstables, get, value_of}
use f4kvs_lsm.Engine.Reads.{hit, timestamp_of, hit-Holds, hit_of}
use f4kvs_lsm.Engine.Memtables.{first_in-append, answer, get-eq}
use f4kvs_lsm.Engine.Flush.Ends.{written, unwritten, flushed, flush-cases}
use f4kvs_lsm.Engine.Flush.Entries.{find-stamp_none, find-stamp_some}
use f4kvs_lsm.Engine.Flush.Tables.{get_from_sstables-push_miss, get_from_sstables-push_hit}
use f4kvs_lsm.Engine.Flush.{push_l0, first_timestamp, swap_out, flush_memtable_internal}

module _ {J : Type 0} (x : Entry J) where
  hit_of-stored : hit_of (stored x) ≡ some (stored x)
  hit_of-stored = ground arith

  timestamp_of-stored : timestamp_of (stored x) ≡ x.timestamp
  timestamp_of-stored = ground arith

  value_of-stored :
      (v : Value J)
      → x.value ≡ v
      → x.deleted ≡ is_null v
      → value_of (stored x) ≡ answer (Memtable.result_of (some v)) none
  unfolding value_of Memtable.result_of
  value_of-stored v sv sd = ground (arith, sv, sd)

module _ {J : Type 0} (hash : Key → ℕ → ℕ) (json_len : J → ℕ)
    (build : List (Entry J) → Option (SsTable J)) (clashes : ℕ) where
  -- What the flush rests on: the active memtable is accounted for, the immutable ones do not hold
  -- the key, there are levels and sequence numbers left, level 0 is older than the next sequence
  -- number, and a table that was built holds what it was built from.
  pub record CanFlush (e : Engine J) (key : Key) : Type 0 where
    pub accounted : IsAccounted json_len e.active
    pub quiet : first_in e.immutables key ≡ Memtable.LookupResult.missing
    pub some_level : 0 < e.level_count
    pub room : e.sequence_number + clashes + 1 + length e.active.contents < u64_mod
    pub older :
        (t : SsTable J) (r : LookupResult J)
        → Memᴰ t (e.levels 0)
        → hit hash t key ≡ some r
        → timestamp_of r < e.sequence_number
    pub built :
        (t : SsTable J) → build (written clashes e) ≡ some t → Holds hash t (written clashes e)

  -- The table that was built answers for the keys of the memtable, with later timestamps than
  -- those that were given before.
  built-hit :
      (e : Engine J) (key : Key) (v : Value J) (t : SsTable J)
      → CanFlush e key
      → build (written clashes e) ≡ some t
      → BTreeMap.get e.active.contents key ≡ some v
      → (q : LookupResult J) × (hit hash t key ≡ some q)
        × (value_of q ≡ answer (Memtable.result_of (some v)) none)
        × (e.sequence_number < timestamp_of q)
  unfolding get_all_entries first_timestamp
  built-hit e key v t c b g =
      let start : first_timestamp clashes e ≡ e.sequence_number + clashes + 1 =
        grind (arith, c.room) in
      let (x, f, (sv, sd, st)) =
        find-stamp_some e.active.contents (first_timestamp clashes e) key v
          (omega (arith, start, c.room)) g in
      (
        stored x,
        hit-Holds hash t (written clashes e) key (c.built t b) ∙ rw f (hit_of-stored x),
        value_of-stored x v sv sd,
        omega (arith, timestamp_of-stored x, start, st),
      )

  built-miss :
      (e : Engine J) (key : Key) (t : SsTable J)
      → CanFlush e key
      → build (written clashes e) ≡ some t
      → BTreeMap.get e.active.contents key ≡ none
      → hit hash t key ≡ none
  unfolding get_all_entries
  built-miss e key t c b g =
      hit-Holds hash t (written clashes e) key (c.built t b)
      ∙ rw (find-stamp_none e.active.contents (first_timestamp clashes e) key g) refl

  get-quiet :
      (e : Engine J) (key : Key)
      → first_in e.immutables key ≡ Memtable.LookupResult.missing
      → get hash e key ≡ answer (Memtable.lookup e.active key) (get_from_sstables hash e key)
  get-quiet e key quiet = rw (get-eq hash e key, quiet) (ground arith)

  get-unwritten :
      (e : Engine J) (seq : ℕ) (key : Key)
      → first_in e.immutables key ≡ Memtable.LookupResult.missing
      → get hash (unwritten e seq) key ≡ get hash e key
  unfolding swap_out Memtable.new Memtable.lookup Memtable.result_of BTreeMap.get first_in
      get_from_sstables
  get-unwritten e seq key quiet =
      get-eq hash (unwritten e seq) key
      ∙ rw (first_in-append e.immutables (e.active ∷ []) key, quiet) (ground arith)
      ∙ sym (get-quiet e key quiet)

  get-active_none :
      (e : Engine J) (key : Key)
      → first_in e.immutables key ≡ Memtable.LookupResult.missing
      → BTreeMap.get e.active.contents key ≡ none
      → get hash e key ≡ get_from_sstables hash e key
  unfolding Memtable.lookup Memtable.result_of
  get-active_none e key quiet out = get-quiet e key quiet ∙ rw (Memtable.lookup, out) refl

  get-active_some :
      (e : Engine J) (key : Key) (v : Value J)
      → first_in e.immutables key ≡ Memtable.LookupResult.missing
      → BTreeMap.get e.active.contents key ≡ some v
      → get hash e key ≡ answer (Memtable.result_of (some v)) none
  unfolding Memtable.lookup Memtable.result_of
  get-active_some e key v quiet g = get-quiet e key quiet ∙ rw (Memtable.lookup, g) (ground arith)

  get-emptied :
      (e : Engine J) (seq : ℕ) (key : Key) (t : SsTable J)
      → first_in e.immutables key ≡ Memtable.LookupResult.missing
      → get hash (flushed e seq t) key ≡ get_from_sstables hash (push_l0 e t) key
  unfolding push_l0 Memtable.new BTreeMap.get get_from_sstables
  get-emptied e seq key t quiet = get-active_none (flushed e seq t) key quiet refl

  get-flushed :
      (e : Engine J) (seq : ℕ) (key : Key) (t : SsTable J)
      → CanFlush e key
      → build (written clashes e) ≡ some t
      → get hash (flushed e seq t) key ≡ get hash e key
  get-flushed e seq key t c b = elim (Option-cases (BTreeMap.get e.active.contents key)) [
    | inl out ↦
        get-emptied e seq key t c.quiet
        ∙ get_from_sstables-push_miss hash e t key (built-miss e key t c b out)
        ∙ sym (get-active_none e key c.quiet out)
    | inr (v, g) ↦
        let (q, h, is, late) = built-hit e key v t c b g in
        get-emptied e seq key t c.quiet
        ∙ get_from_sstables-push_hit hash e t key q c.some_level h
            (λ u r m h_u. omega (arith, late, c.older u r m h_u))
        ∙ is
        ∙ sym (get-active_some e key v c.quiet g)
  ]

  get-bare :
      (e : Engine J) (key : Key)
      → first_in e.immutables key ≡ Memtable.LookupResult.missing
      → e.active.contents ≡ []
      → get hash (record e { active = Memtable.new e.active.config }) key ≡ get hash e key
  unfolding Memtable.new BTreeMap.get get_from_sstables
  get-bare e key quiet bare =
      get-active_none (record e { active = Memtable.new e.active.config }) key quiet refl
      ∙ sym (get-active_none e key quiet (ap (λ m. BTreeMap.get m key) bare))

  -- A flush leaves the read of a key as it was, whether it writes its table or fails, if the
  -- engine can flush for the key.
  pub get-flush :
      (e : Engine J) (key : Key)
      → CanFlush e key
      → get hash (flush_memtable_internal build clashes e).0 key ≡ get hash e key
  get-flush e key c = elim (flush-cases build clashes e c.accounted.sorted c.accounted.counted) [
    | inl (bare, is) ↦ ap (λ f. get hash f key) is ∙ get-bare e key c.quiet bare
    | inr (inl (seq, is)) ↦ ap (λ f. get hash f key) is ∙ get-unwritten e seq key c.quiet
    | inr (inr (seq, t, b, is)) ↦ ap (λ f. get hash f key) is ∙ get-flushed e seq key t c b
  ]
