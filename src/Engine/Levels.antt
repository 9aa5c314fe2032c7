-- ===== src/Engine/Levels.antt =====
-- crates/f4kvs-lsm/src/core/engine.rs: the search of the levels below 0, whose tables have
-- ascending ranges that do not meet, and the order in which a read asks the levels.
pub mod Ranges
use mathlib.Core.Option.{none-ne-some}
use mathlib.Core.List.{Memᴰ}
use mathlib.Core.List.Memᴰ.{head, tail}
use f4kvs_lsm.Base.{
  ℕ, zero, suc, ◌+◌, ◌<◌, ◌≤◌, ◌≡◌, refl, sym, ap, ◌∙◌, Bool, true, false, Option, none, some, List,
  [], ◌∷◌, Key, key_lt, if◌then◌else◌, arith, ◌==◌, Option-cases, Bool-cases, inl, inr,
  lt-not-lt_trans, ◌↔◌, some-injective, key_le-flip, subst, ==_iff,
}
use f4kvs_lsm.Sstable.{key_may_exist, SsTable, LookupResult, in_range}
use f4kvs_lsm.Engine.{
  first_reaching, find_sstable_for_key, probe_level, search_levels, search_sstables, key_may_exist,
  search_l0,
}
use f4kvs_lsm.Engine.Reads.{hit, timestamp_of, search_l0-facts, search_l0-none}
use f4kvs_lsm.Engine.Levels.Ranges.{IsDisjoint, find_sstable_for_key-mem, find_sstable_for_key_iff}

module _ {J : Type 0} (hash : Key → ℕ → ℕ) where
  -- A table has a hit only for a key of its range.
  hit-in_range :
      (t : SsTable J) (key : Key) (r : LookupResult J)
      → hit hash t key ≡ some r
      → in_range t key ≡ true
  unfolding hit key_may_exist
  hit-in_range t key r h = ground (arith, h)

  probe_level-find :
      (ts : List (SsTable J)) (key : Key) (t : SsTable J)
      → find_sstable_for_key ts key ≡ some t
      → probe_level hash ts key ≡ hit hash t key
  unfolding probe_level hit
  probe_level-find ts key t f = rw (f, probe_level) (ground arith)

  -- On a level whose ranges ascend and do not meet, a table that has a hit for the key is the one
  -- that answers.
  pub probe_level-hit :
      (ts : List (SsTable J)) (key : Key) (t : SsTable J) (r : LookupResult J)
      → IsDisjoint ts
      → Memᴰ t ts
      → hit hash t key ≡ some r
      → probe_level hash ts key ≡ some r
  probe_level-hit ts key t r d m h =
      let r_in = hit-in_range t key r h in
      let (to, from) = find_sstable_for_key_iff ts key t d in
      probe_level-find ts key t (from (m, r_in)) ∙ h

  probe_level-none :
      (ts : List (SsTable J)) (key : Key)
      → ((t : SsTable J) → Memᴰ t ts → hit hash t key ≡ none)
      → probe_level hash ts key ≡ none
  unfolding probe_level
  probe_level-none ts key dry = elim (Option-cases (find_sstable_for_key ts key)) [
    | inl past ↦ rw (past, probe_level) refl
    | inr (t, f) ↦ probe_level-find ts key t f ∙ dry t (find_sstable_for_key-mem ts key t f)
  ]

  -- No table of a level has a hit for the key.
  abbrev pub Misses : List (SsTable J) → Key → Type 0
  Misses ts key = (t : SsTable J) → Memᴰ t ts → hit hash t key ≡ none

  search_l0-Misses :
      (ts : List (SsTable J)) (key : Key) → Misses ts key → search_l0 hash ts key ≡ none
  search_l0-Misses ts key dry = elim (Option-cases (search_l0 hash ts key)) [
    | inl quiet ↦ quiet
    | inr (r, e) ↦
        let ((t, m, h), _) = search_l0-facts hash ts key r e in
        absurd (none-ne-some r (sym (dry t m) ∙ h))
  ]

  pub search_levels-step :
      (levels : ℕ → List (SsTable J)) (n level : ℕ) (key : Key) {o : Option (LookupResult J)}
      → probe_level hash (levels level) key ≡ o
      → search_levels hash levels (suc n) level key
        ≡ elim o [ none ↦ search_levels hash levels n (level + 1) key | some r ↦ some r ]
  unfolding search_levels
  search_levels-step levels n level key e =
      ap (λ o. elim o [ none ↦ search_levels hash levels n (level + 1) key | some r ↦ some r ]) e

  search_levels-first :
      (levels : ℕ → List (SsTable J)) (n start k : ℕ) (key : Key) (t : SsTable J)
      (r : LookupResult J)
      → start ≤ k
      → k < start + n
      → ((j : ℕ) → start ≤ j → j < k → Misses (levels j) key)
      → IsDisjoint (levels k)
      → Memᴰ t (levels k)
      → hit hash t key ≡ some r
      → search_levels hash levels n start key ≡ some r
  search_levels-first levels zero start k key t r ge lt dry d m h = absurd (omega arith)
  search_levels-first levels (suc n) start k key t r ge lt dry d m h =
      elim (Bool-cases (start == k)) [
        | inl here ↦ search_levels-step levels n start key (
            subst (λ j. probe_level hash (levels j) key ≡ some r) (sym ((==_iff start k).0 here))
              (probe_level-hit (levels k) key t r d m h))
        | inr later ↦
            let gt : start < k = grind arith in
            search_levels-step levels n start key
              (probe_level-none (levels start) key (dry start (omega arith) gt))
            ∙ search_levels-first levels n (start + 1) k key t r (omega arith) (omega arith)
                (λ j le. dry j (omega arith)) d m h
      ]

  -- The first level that has a hit for the key answers, a level below 0, whose ranges ascend and
  -- do not meet, with the hit of its one table.
  pub search_sstables-deep :
      (levels : ℕ → List (SsTable J)) (n k : ℕ) (key : Key) (t : SsTable J) (r : LookupResult J)
      → 0 < k
      → k < n
      → ((j : ℕ) → j < k → Misses (levels j) key)
      → IsDisjoint (levels k)
      → Memᴰ t (levels k)
      → hit hash t key ≡ some r
      → search_sstables hash levels n key ≡ some r
  unfolding search_sstables
  search_sstables-deep levels zero k key t r pos lt dry d m h = elim lt [ ]
  search_sstables-deep levels (suc n) k key t r pos lt dry d m h =
      rw (search_l0-Misses (levels 0) key (dry 0 pos), search_sstables)
        (search_levels-first levels n 1 k key t r pos (omega arith) (λ j _. dry j) d m h)

  -- Where level 0 has a hit for the key, it answers whatever the deeper levels hold, with a hit
  -- of its own that is no older than the given one.
  pub search_sstables-l0 :
      (levels : ℕ → List (SsTable J)) (n : ℕ) (key : Key) (t : SsTable J) (q : LookupResult J)
      → 0 < n
      → Memᴰ t (levels 0)
      → hit hash t key ≡ some q
      → (r : LookupResult J) × (search_sstables hash levels n key ≡ some r)
        × ((u : SsTable J) × Memᴰ u (levels 0) × (hit hash u key ≡ some r))
        × (timestamp_of q ≤ timestamp_of r)
  unfolding search_sstables
  search_sstables-l0 levels zero key t q lt m h = elim lt [ ]
  search_sstables-l0 levels (suc n) key t q lt m h =
      elim (Option-cases (search_l0 hash (levels 0) key)) [
        | inl quiet ↦
            absurd (none-ne-some q (sym (search_l0-none hash (levels 0) key t quiet m) ∙ h))
        | inr (r, e) ↦
            let (from, top) = search_l0-facts hash (levels 0) key r e in
            (r, rw (e, search_sstables) refl, from, top t q m h)
      ]
