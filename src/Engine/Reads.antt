-- ===== src/Engine/Reads.antt =====
-- crates/f4kvs-lsm/src/core/engine.rs: which version of a key the tables answer with. `hit` is the
-- answer of one table, by the same tests for each level.
use mathlib.Core.Option.{some-ne-none}
use mathlib.Core.List.{Memᴰ}
use mathlib.Core.List.Memᴰ.{head, tail}
use f4kvs_lsm.Base.{
  ℕ, ◌≤◌, ◌≡◌, refl, sym, ap, ◌∙◌, true, false, Option, none, some, List, [], ◌∷◌, Key, leb,
  if◌then◌else◌, arith, Option-cases, Bool-cases, inl, inr, ◌⊎◌, some-injective, subst, ◌≢◌,
}
use f4kvs_lsm.Sstable.{
  SsTable, LookupResult, found, tombstone, missing, key_may_exist, lookup_with_reader_guard, Entry,
}
use f4kvs_lsm.Sstable.Lookup.{find, Holds, lookup_with_reader_guard-Holds, result_or_missing}
use f4kvs_lsm.Engine.{Best, better, probe, probe_all, search_l0}

leb-zero : (n : ℕ) → leb 0 n ≡ true
leb-zero n = ground arith

module _ {J : Type 0} where
  abbrev pub timestamp_of : LookupResult J → ℕ
  timestamp_of (found v n) = n
  timestamp_of (tombstone n) = n
  timestamp_of missing = 0

  -- a result that is not `missing`
  abbrev pub hit_of : LookupResult J → Option (LookupResult J)
  hit_of (found v n) = some (found v n)
  hit_of (tombstone n) = some (tombstone n)
  hit_of missing = none

  abbrev pub replace_best : Option (LookupResult J) → Best J → Best J
  replace_best none b = b
  replace_best (some r) b = if leb b.0 (timestamp_of r) then (timestamp_of r, some r) else b

  better-hit_of : (r : LookupResult J) (b : Best J) → better r b ≡ replace_best (hit_of r) b
  unfolding better
  better-hit_of (found v n) b = refl
  better-hit_of (tombstone n) b = refl
  better-hit_of missing b = refl

  replace_best-facts :
      (o : Option (LookupResult J)) (b : Best J)
      → (b.0 ≤ (replace_best o b).0)
        × ((r : LookupResult J) → o ≡ some r → timestamp_of r ≤ (replace_best o b).0)
        × ((b ≡ replace_best o b)
            ⊎ ((r : LookupResult J) × (o ≡ some r) × (replace_best o b ≡ (timestamp_of r, some r))))
  replace_best-facts none b = (omega arith, λ r e. ground (arith, e), inl refl)
  replace_best-facts (some r) b = elim (Bool-cases (leb b.0 (timestamp_of r))) [
    | inl newer ↦ (
      rw newer (grind arith),
      λ q e. rw (newer, sym (some-injective _ _ e)) (omega arith),
      inr (r, refl, rw newer refl),
    )
    | inr older ↦ (
      rw older (omega arith),
      λ q e. rw (older, sym (some-injective _ _ e)) (grind arith),
      inl (rw older refl),
    )
  ]

module _ {J : Type 0} (hash : Key → ℕ → ℕ) where
  unfoldable pub hit : SsTable J → Key → Option (LookupResult J)
  hit t key =
      if key_may_exist hash t key
      then elim (lookup_with_reader_guard hash t key) [ none ↦ none | some r ↦ hit_of r ]
      else none

  pub probe-hit :
      (t : SsTable J) (key : Key) (b : Best J) → probe hash t key b ≡ replace_best (hit t key) b
  unfolding probe hit
  probe-hit t key b = elim (Bool-cases (key_may_exist hash t key)) [
    | inr out ↦ rw out refl
    | inl may ↦ elim (Option-cases (lookup_with_reader_guard hash t key)) [
      | inl failed ↦ rw (may, failed) refl
      | inr (r, read) ↦ rw (may, read) (better-hit_of r b)
    ]
  ]

  -- What the loop leaves in `best`, from what it starts with.
  record Newest (ts : List (SsTable J)) (key : Key) (b c : Best J) : Type 0 where
    grows : b.0 ≤ c.0
    bounds :
        (t : SsTable J) (r : LookupResult J) → Memᴰ t ts → hit t key ≡ some r → timestamp_of r ≤ c.0
    held :
        (b ≡ c)
        ⊎ ((t : SsTable J) × (r : LookupResult J) × Memᴰ t ts
            × (hit t key ≡ some r)
            × (c ≡ (timestamp_of r, some r)))

  Newest-cons :
      (t : SsTable J) (ts : List (SsTable J)) (key : Key) (b c : Best J)
      → Newest ts key (replace_best (hit t key) b) c
      → Newest (t ∷ ts) key b c
  Newest-cons t ts key b c n =
      let (up, over, from) = replace_best-facts (hit t key) b in
      record {
        grows = omega (arith, up, n.grows);
        bounds = λ u r m e. elim m [
          | head same ↦ omega (arith, n.grows, over r (sym (ap (λ v. hit v key) same) ∙ e))
          | tail m' ↦ n.bounds u r m' e
        ];
        held = elim n.held [
          | inr (u, r, m, e, c_eq) ↦ inr (u, r, tail m, e, c_eq)
          | inl kept ↦ elim from [
            | inl same ↦ inl (same ∙ kept)
            | inr (r, e, is) ↦ inr (t, r, head refl, e, sym kept ∙ is)
          ]
        ];
      }

  probe_all-Newest :
      (ts : List (SsTable J)) (key : Key) (b : Best J) → Newest ts key b (probe_all hash ts key b)
  unfolding probe_all
  probe_all-Newest [] key b = record {
    grows = omega arith;
    bounds = λ t r m e. elim m [ ];
    held = inl refl;
  }
  probe_all-Newest (t ∷ ts) key b =
      Newest-cons t ts key b (probe_all hash ts key (probe hash t key b)) (
        subst (λ c. Newest ts key c (probe_all hash ts key (probe hash t key b)))
          (probe-hit t key b) (probe_all-Newest ts key (probe hash t key b)))

  pub search_l0-facts :
      (ts : List (SsTable J)) (key : Key) (r : LookupResult J)
      → search_l0 hash ts key ≡ some r
      → ((t : SsTable J) × Memᴰ t ts × (hit t key ≡ some r))
        × ((t : SsTable J) (q : LookupResult J)
            → Memᴰ t ts
            → hit t key ≡ some q
            → timestamp_of q ≤ timestamp_of r)
  unfolding search_l0
  search_l0-facts ts key r e =
      let n = probe_all-Newest ts key (0, none) in
      elim n.held [
        | inl same ↦ absurd (ground (arith, e, same))
        | inr (t, q, m, h, is) ↦
            let same = some-injective _ _ (sym (ap (λ c. c.1) is) ∙ e) in
            (
              (t, m, h ∙ ap some same),
              λ u p m' e'.
                  omega (arith, n.bounds u p m' e', ap (λ c. c.0) is, ap timestamp_of same),
            )
      ]

  -- Level 0 answers with the hit of one of its tables, and no hit of a table there has a later
  -- timestamp.
  pub search_l0-newest :
      (ts : List (SsTable J)) (key : Key) (r : LookupResult J) (t : SsTable J) (q : LookupResult J)
      → search_l0 hash ts key ≡ some r
      → Memᴰ t ts
      → hit t key ≡ some q
      → ((u : SsTable J) × Memᴰ u ts × (hit u key ≡ some r)) × (timestamp_of q ≤ timestamp_of r)
  search_l0-newest ts key r t q e m h =
      let (from, top) = search_l0-facts ts key r e in (from, top t q m h)

  best_kept :
      (ts : List (SsTable J)) (key : Key) (n : ℕ) (r : LookupResult J)
      → (probe_all hash ts key (n, some r)).1 ≢ none
  best_kept ts key n r e = elim (Newest.held (probe_all-Newest ts key (n, some r))) [
    | inl same ↦ absurd (some-ne-none _ (ap (λ c. c.1) same ∙ e))
    | inr (t, q, m, h, is) ↦ absurd (some-ne-none _ (sym (ap (λ c. c.1) is) ∙ e))
  ]

  pub probe_first :
      (t : SsTable J) (key : Key) (r : LookupResult J)
      → hit t key ≡ some r
      → probe hash t key (0, none) ≡ (timestamp_of r, some r)
  probe_first t key r h = probe-hit t key (0, none) ∙ rw (h, leb-zero (timestamp_of r)) refl

  probe_again :
      (t : SsTable J) (key : Key) → hit t key ≡ none → probe hash t key (0, none) ≡ (0, none)
  probe_again t key h = probe-hit t key (0, none) ∙ rw h refl

  -- Level 0 gives no answer only where none of its tables has a hit.
  pub search_l0-none :
      (ts : List (SsTable J)) (key : Key) (t : SsTable J)
      → search_l0 hash ts key ≡ none
      → Memᴰ t ts
      → hit t key ≡ none
  unfolding search_l0 probe_all
  search_l0-none [] key t e m = elim m [ ]
  search_l0-none (u ∷ ts) key t e m = elim (Option-cases (hit u key)) [
    | inr (r, h) ↦ absurd (
        best_kept ts key (timestamp_of r) r
          (sym (ap (λ b. (probe_all hash ts key b).1) (probe_first u key r h)) ∙ e))
    | inl h ↦ elim m [
      | head same ↦ ap (λ v. hit v key) same ∙ h
      | tail m' ↦
          search_l0-none ts key t
            (sym (ap (λ b. (probe_all hash ts key b).1) (probe_again u key h)) ∙ e) m'
    ]
  ]

  awaited-ruled_out :
      (t : SsTable J) (key : Key)
      → t.is_ready ≡ true
      → key_may_exist hash t key ≡ false
      → lookup_with_reader_guard hash t key ≡ some missing
  unfolding lookup_with_reader_guard
  awaited-ruled_out t key ready out = ground (arith, ready, out)

  -- A table answers with the entry that it holds for the key, a tombstone included.
  pub hit-Holds :
      (t : SsTable J) (es : List (Entry J)) (key : Key)
      → Holds hash t es
      → hit t key ≡ hit_of (result_or_missing (find es key))
  unfolding hit
  hit-Holds t es key h = elim (Bool-cases (key_may_exist hash t key)) [
    | inl may ↦ rw (may, lookup_with_reader_guard-Holds hash t es h key) refl
    | inr out ↦ rw (out) (
        ap hit_of (
          some-injective _ _ (
            sym (awaited-ruled_out t key h.ready out)
            ∙ lookup_with_reader_guard-Holds hash t es h key)))
  ]
