-- ===== src/Compaction/Newest.antt =====
-- crates/f4kvs-lsm/src/compaction/manager.rs: what `deduplicate_entries` keeps of each key.
use f4kvs_lsm.Base.{
  if_elim, not-lt_trans, cmp_flip_lt, cmp_flip_gt, cmp_refl, eq_of_cmp, eq_of_key_eq, ◌≡◌, refl,
  sym, ap, ◌∙◌, true, false, Option, none, some, List, [], ◌∷◌, Key, key_lt, key_eq, contains,
  if◌then◌else◌, leb, arith, Bool-cases, inl, inr, subst,
}
use f4kvs_lsm.Base.Sort.{sort_by, insert_by}
use f4kvs_lsm.Sstable.{Entry}
use f4kvs_lsm.Sstable.Lookup.{find}
use f4kvs_lsm.Compaction.{before, first_versions, deduplicate_entries}

module _ {J : Type 0} where
  -- The later of an entry and another one further on.
  abbrev pub later : Entry J → Option (Entry J) → Option (Entry J)
  later e none = some e
  later e (some x) = if leb x.timestamp e.timestamp then some e else some x

  -- The entry of a key with the highest timestamp, the first of them in the list.
  abbrev pub newest : List (Entry J) → Key → Option (Entry J)
  newest [] q = none
  newest (e ∷ es) q = if key_eq e.key q then later e (newest es q) else newest es q

  abbrev pub live : Option (Entry J) → Option (Entry J)
  live none = none
  live (some e) = if e.deleted then none else some e

  abbrev AllFrom : Key → List (Entry J) → Type 0
  AllFrom k [] = Unit {0}
  AllFrom k (e ∷ es) = (key_lt e.key k ≡ false) × AllFrom k es

  abbrev IsAscending : List (Entry J) → Type 0
  IsAscending [] = Unit {0}
  IsAscending (e ∷ es) = AllFrom e.key es × IsAscending es

  find-AllFrom :
      (k q : Key) (es : List (Entry J)) → AllFrom k es → key_lt q k ≡ true → find es q ≡ none
  unfolding find
  find-AllFrom k q [] a lt = refl
  find-AllFrom k q (e ∷ es) (at, a) lt =
      ground (arith, find-AllFrom k q es a lt, eq_of_cmp e.key q, at, lt)

  AllFrom-trans :
      (k j : Key) (es : List (Entry J)) → key_lt j k ≡ false → AllFrom j es → AllFrom k es
  AllFrom-trans k j [] le a = tt
  AllFrom-trans k j (e ∷ es) le (at, a) = (not-lt_trans e.key j k at le, AllFrom-trans k j es le a)

  AllFrom-insert :
      (k : Key) (x : Entry J) (es : List (Entry J))
      → key_lt x.key k ≡ false
      → AllFrom k es
      → AllFrom k (insert_by before x es)
  unfolding insert_by
  AllFrom-insert k x [] h a = (h, tt)
  AllFrom-insert k x (y ∷ es) h (at, a) =
      if_elim (AllFrom k) (before y x) (at, AllFrom-insert k x es h a) (h, (at, a))

  -- What comes before another entry has no greater key, and what does not, no smaller one.
  before-keys : (a b : Entry J) → before a b ≡ true → key_lt b.key a.key ≡ false
  unfolding before
  before-keys a b h =
      ground (arith, h, cmp_flip_lt a.key b.key, eq_of_cmp a.key b.key, cmp_refl a.key)

  not-before-keys : (a b : Entry J) → before a b ≡ false → key_lt a.key b.key ≡ false
  unfolding before
  not-before-keys a b h = ground (arith, h)

  pub before-same :
      (a b : Entry J) (q : Key)
      → before a b ≡ true
      → key_eq a.key q ≡ true
      → key_eq b.key q ≡ true
      → leb a.timestamp b.timestamp ≡ false
  unfolding before
  before-same a b q h s t =
      let e : a.key ≡ b.key = eq_of_key_eq a.key q s ∙ sym (eq_of_key_eq b.key q t) in
      ground (arith, h, e, cmp_refl b.key)

  after-same :
      (a b : Entry J) (q : Key)
      → before a b ≡ false
      → key_eq a.key q ≡ true
      → key_eq b.key q ≡ true
      → leb a.timestamp b.timestamp ≡ true
  unfolding before
  after-same a b q h s t =
      let e : a.key ≡ b.key = eq_of_key_eq a.key q s ∙ sym (eq_of_key_eq b.key q t) in
      ground (arith, h, e, cmp_refl b.key)

  above-other :
      (a b : Entry J) (q : Key)
      → before a b ≡ false
      → key_eq a.key q ≡ false
      → key_eq b.key q ≡ true
      → key_lt q a.key ≡ true
  above-other a b q h s t =
      let e = eq_of_key_eq b.key q t in
      ground (
        arith,
        s,
        cmp_flip_gt a.key q,
        subst (λ k. key_lt a.key k ≡ false) e (not-before-keys a b h),
      )

  insert-IsAscending :
      (x : Entry J) (es : List (Entry J)) → IsAscending es → IsAscending (insert_by before x es)
  unfolding insert_by
  insert-IsAscending x [] s = (tt, tt)
  insert-IsAscending x (y ∷ es) (a, s) = elim (Bool-cases (before y x)) [
    | inl first ↦
        rw (first) (AllFrom-insert y.key x es (before-keys y x first) a, insert-IsAscending x es s)
    | inr after ↦
        let le = not-before-keys y x after in
        rw (after) ((le, AllFrom-trans x.key y.key es le a), (a, s))
  ]

  find-insert :
      (x : Entry J) (es : List (Entry J)) (q : Key)
      → IsAscending es
      → find (insert_by before x es) q ≡ (if key_eq x.key q then later x (find es q) else find es q)
  unfolding insert_by find
  find-insert x [] q s = refl
  find-insert x (y ∷ es) q (a, s) = elim (Bool-cases (before y x)) [
    | inl first ↦ rw (first, find-insert x es q s) (ground (arith, before-same y x q first))
    | inr after ↦
        rw after (
          ground
            (arith, after-same y x q after, find-AllFrom y.key q es a, above-other y x q after))
  ]

  first_versions-find :
      (seen : List Key) (es : List (Entry J)) (q : Key)
      → find (first_versions seen es) q ≡ (if contains seen q then none else live (find es q))
  unfolding first_versions find
  first_versions-find seen [] q = ground arith
  first_versions-find seen (e ∷ es) q = ground (
    arith,
    first_versions-find seen es q,
    first_versions-find (e.key ∷ seen) es q,
    eq_of_key_eq e.key q,
  )

  sort-IsAscending : (es : List (Entry J)) → IsAscending (sort_by before es)
  unfolding sort_by
  sort-IsAscending [] = tt
  sort-IsAscending (e ∷ es) = insert-IsAscending e (sort_by before es) (sort-IsAscending es)

  -- After the sort the first entry of a key is its newest one.
  pub find-sort : (es : List (Entry J)) (q : Key) → find (sort_by before es) q ≡ newest es q
  unfolding sort_by find
  find-sort [] q = refl
  find-sort (e ∷ es) q =
      find-insert e (sort_by before es) q (sort-IsAscending es) ∙ rw (find-sort es q) refl

  -- Of each key the merge keeps the entry with the highest timestamp, the first one given where
  -- several have it, and nothing where that entry is a tombstone.
  pub find-deduplicate_entries :
      (es : List (Entry J)) (q : Key) → find (deduplicate_entries es) q ≡ live (newest es q)
  unfolding deduplicate_entries
  find-deduplicate_entries es q =
      first_versions-find [] (sort_by before es) q ∙ ap live (find-sort es q)
