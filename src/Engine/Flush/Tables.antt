-- ===== src/Engine/Flush/Tables.antt =====
-- crates/f4kvs-lsm/src/core/engine.rs: a search of the tables after one more joins level 0.
use mathlib.Core.List.{Memᴰ}
use mathlib.Core.List.Memᴰ.{head, tail, append_cases, append_right}
use f4kvs_lsm.Base.{
  ℕ, zero, suc, ◌+◌, ◌<◌, ◌≤◌, ◌≡◌, refl, sym, ap, ◌∙◌, false, none, some, List, [], ◌∷◌, ◌++◌, Key,
  arith, ◌==◌, inl, inr, some-injective,
}
use f4kvs_lsm.Sstable.{SsTable, LookupResult}
use f4kvs_lsm.Engine.{
  Engine, probe, probe_all, search_l0, search_levels, search_sstables, get_from_sstables, Best,
  value_of, probe_level,
}
use f4kvs_lsm.Engine.Reads.{hit, timestamp_of, probe-hit, replace_best}
use f4kvs_lsm.Engine.Levels.{search_sstables-l0, search_levels-step}
use f4kvs_lsm.Engine.Flush.{push_l0}

module _ {J : Type 0} (hash : Key → ℕ → ℕ) where
  probe_all-append :
      (ts us : List (SsTable J)) (key : Key) (b : Best J)
      → probe_all hash (ts ++ us) key b ≡ probe_all hash us key (probe_all hash ts key b)
  unfolding probe_all
  probe_all-append [] us key b = refl
  probe_all-append (t ∷ ts) us key b = probe_all-append ts us key (probe hash t key b)

  -- A table without a hit at the end of level 0 changes no answer of it.
  search_l0-push :
      (ts : List (SsTable J)) (t : SsTable J) (key : Key)
      → hit hash t key ≡ none
      → search_l0 hash (ts ++ t ∷ []) key ≡ search_l0 hash ts key
  unfolding search_l0 probe_all
  search_l0-push ts t key h =
      ap (λ b. b.1)
        (probe_all-append ts (t ∷ []) key (0, none)
          ∙ probe-hit hash t key (probe_all hash ts key (0, none))
          ∙ ap (λ o. replace_best o (probe_all hash ts key (0, none))) h)

  search_levels-ext :
      (levels levels' : ℕ → List (SsTable J)) (n start : ℕ) (key : Key)
      → ((j : ℕ) → start ≤ j → levels j ≡ levels' j)
      → search_levels hash levels n start key ≡ search_levels hash levels' n start key
  unfolding search_levels
  search_levels-ext levels levels' zero start key same = refl
  search_levels-ext levels levels' (suc n) start key same =
      search_levels-step hash levels n start key
        (ap (λ ts. probe_level hash ts key) (same start (omega arith)))
      ∙ ap (λ rest. elim (probe_level hash (levels' start) key) [ none ↦ rest | some r ↦ some r ])
          (search_levels-ext levels levels' n (start + 1) key (λ j le. same j (omega arith)))
      ∙ sym (search_levels-step hash levels' n start key refl)

  search_sstables-ext :
      (levels levels' : ℕ → List (SsTable J)) (n : ℕ) (key : Key)
      → search_l0 hash (levels 0) key ≡ search_l0 hash (levels' 0) key
      → ((j : ℕ) → 1 ≤ j → levels j ≡ levels' j)
      → search_sstables hash levels n key ≡ search_sstables hash levels' n key
  unfolding search_sstables
  search_sstables-ext levels levels' zero key top same = refl
  search_sstables-ext levels levels' (suc n) key top same =
      ap (λ o. elim o [ none ↦ search_levels hash levels n 1 key | some r ↦ some r ]) top
      ∙ ap (λ rest. elim (search_l0 hash (levels' 0) key) [ none ↦ rest | some r ↦ some r ])
          (search_levels-ext levels levels' n 1 key same)

  levels-push_l0 :
      (e : Engine J) (t : SsTable J) (j : ℕ) → 1 ≤ j → (push_l0 e t).levels j ≡ e.levels j
  unfolding push_l0
  levels-push_l0 e t j le = let ne : (j == 0) ≡ false = grind arith in rw ne refl

  -- What a table at the end of level 0 without a hit for the key leaves of a search.
  pub get_from_sstables-push_miss :
      (e : Engine J) (t : SsTable J) (key : Key)
      → hit hash t key ≡ none
      → get_from_sstables hash (push_l0 e t) key ≡ get_from_sstables hash e key
  unfolding get_from_sstables push_l0
  get_from_sstables-push_miss e t key h =
      ap (λ o. elim o [ none ↦ none | some r ↦ value_of r ])
        (search_sstables-ext (push_l0 e t).levels e.levels e.level_count key
          (search_l0-push (e.levels 0) t key h) (levels-push_l0 e t))

  pub get_from_sstables-push_hit :
      (e : Engine J) (t : SsTable J) (key : Key) (q : LookupResult J)
      → 0 < e.level_count
      → hit hash t key ≡ some q
      → ((u : SsTable J) (r : LookupResult J)
          → Memᴰ u (e.levels 0)
          → hit hash u key ≡ some r
          → timestamp_of r < timestamp_of q)
      → get_from_sstables hash (push_l0 e t) key ≡ value_of q
  unfolding get_from_sstables push_l0
  get_from_sstables-push_hit e t key q lt h older =
      let (r, found_r, (u, m, h_u), le) =
        search_sstables-l0 hash (push_l0 e t).levels e.level_count key t q lt
          (append_right (e.levels 0) (head refl)) h in
      elim (append_cases (e.levels 0) m) [
        | inl old ↦ absurd (omega (arith, le, older u r old h_u))
        | inr new ↦ elim new [
          | tail none_here ↦ elim none_here [ ]
          | head same ↦
              rw (found_r, get_from_sstables)
                (ap value_of (some-injective _ _ (sym h_u ∙ ap (λ v. hit hash v key) same ∙ h)))
        ]
      ]
