-- ===== src/Engine/Levels/Ranges.antt =====
-- crates/f4kvs-lsm/src/core/engine.rs: the choice of a table on a level below 0, whose tables have
-- ascending ranges that do not meet.
use mathlib.Core.Option.{none-ne-some}
use mathlib.Core.List.{Memᴰ}
use mathlib.Core.List.Memᴰ.{head, tail}
use f4kvs_lsm.Base.{
  ◌≡◌, refl, sym, ap, ◌∙◌, Bool, true, false, none, some, List, [], ◌∷◌, Key, key_lt, if◌then◌else◌,
  arith, Option-cases, Bool-cases, inl, inr, lt-not-lt_trans, ◌↔◌, some-injective, key_le-flip,
}
use f4kvs_lsm.Sstable.{SsTable, in_range}
use f4kvs_lsm.Engine.{first_reaching, find_sstable_for_key}

module _ {J : Type 0} where
  -- Every table begins above `bound`.
  abbrev pub AllBeyond : Key → List (SsTable J) → Type 0
  AllBeyond bound [] = Unit {0}
  AllBeyond bound (t ∷ ts) = (key_lt bound t.metadata.smallest_key ≡ true) × AllBeyond bound ts

  -- The ranges ascend and do not meet, as `sort_leveled_sstables` leaves a level of such tables.
  abbrev pub IsDisjoint : List (SsTable J) → Type 0
  IsDisjoint [] = Unit {0}
  IsDisjoint (t ∷ ts) = AllBeyond t.metadata.largest_key ts × IsDisjoint ts

  beyond :
      (bound : Key) (ts : List (SsTable J)) (t : SsTable J)
      → AllBeyond bound ts
      → Memᴰ t ts
      → key_lt bound t.metadata.smallest_key ≡ true
  beyond bound [] t b m = elim m [ ]
  beyond bound (u ∷ ts) t (at, rest) m = elim m [
    | head same ↦ ap (λ v. key_lt bound v.metadata.smallest_key) same ∙ at
    | tail m' ↦ beyond bound ts t rest m'
  ]

  in_range-bounds :
      (t : SsTable J) (key : Key)
      → in_range t key ≡ true
      → (key_lt key t.metadata.smallest_key ≡ false) × (key_lt t.metadata.largest_key key ≡ false)
  unfolding in_range
  in_range-bounds t key r = (ground arith, ground arith)

  first_reaching_self :
      (t : SsTable J) (ts : List (SsTable J)) (key : Key)
      → in_range t key ≡ true
      → first_reaching (t ∷ ts) key ≡ some t
  unfolding first_reaching
  first_reaching_self t ts key r = rw (in_range-bounds t key r).1 refl

  first_reaching-in_range :
      (ts : List (SsTable J)) (key : Key) (t : SsTable J)
      → IsDisjoint ts
      → Memᴰ t ts
      → in_range t key ≡ true
      → first_reaching ts key ≡ some t
  unfolding first_reaching
  first_reaching-in_range [] key t d m r = elim m [ ]
  first_reaching-in_range (u ∷ ts) key t (b, d) m r = elim m [
    | head same ↦
        first_reaching_self u ts key (sym (ap (λ v. in_range v key) same) ∙ r) ∙ ap some (sym same)
    | tail m' ↦
        rw
          (lt-not-lt_trans u.metadata.largest_key t.metadata.smallest_key key
            (beyond u.metadata.largest_key ts t b m') (in_range-bounds t key r).0)
          (first_reaching-in_range ts key t d m' r)
  ]

  first_reaching-mem :
      (ts : List (SsTable J)) (key : Key) (t : SsTable J)
      → first_reaching ts key ≡ some t
      → Memᴰ t ts
  unfolding first_reaching
  first_reaching-mem [] key t e = absurd (none-ne-some t e)
  first_reaching-mem (u ∷ ts) key t e = elim (Bool-cases (key_lt u.metadata.largest_key key)) [
    | inl below ↦ tail (first_reaching-mem ts key t (ground (arith, below, e)))
    | inr reaches ↦ head (some-injective _ _ (ground (arith, reaches, e)))
  ]

  find_sstable_for_key-eq :
      (ts : List (SsTable J)) (key : Key)
      → find_sstable_for_key ts key ≡ elim (first_reaching ts key) [
        | none ↦ none
        | some t ↦ if in_range t key then some t else none
      ]
  unfolding find_sstable_for_key in_range
  find_sstable_for_key-eq ts key = elim (Option-cases (first_reaching ts key)) [
    | inl past ↦ rw (past, find_sstable_for_key) refl
    | inr (t, e) ↦
        rw
          (
            e,
            key_le-flip t.metadata.smallest_key key,
            key_le-flip key t.metadata.largest_key,
            find_sstable_for_key,
          )
          (ground arith)
  ]

  find_sstable_for_key-at :
      (ts : List (SsTable J)) (key : Key) (t : SsTable J) {b : Bool}
      → first_reaching ts key ≡ some t
      → in_range t key ≡ b
      → find_sstable_for_key ts key ≡ (if b then some t else none)
  find_sstable_for_key-at ts key t f r = find_sstable_for_key-eq ts key ∙ rw (f, r) refl

  pub find_sstable_for_key-mem :
      (ts : List (SsTable J)) (key : Key) (t : SsTable J)
      → find_sstable_for_key ts key ≡ some t
      → Memᴰ t ts
  find_sstable_for_key-mem ts key t e = elim (Option-cases (first_reaching ts key)) [
    | inl past ↦ absurd (ground (arith, past, e, find_sstable_for_key-eq ts key))
    | inr (u, f) ↦ elim (Bool-cases (in_range u key)) [
      | inr out ↦ absurd (none-ne-some t (sym (find_sstable_for_key-at ts key u f out) ∙ e))
      | inl inside ↦
          first_reaching-mem ts key t (f ∙ sym (find_sstable_for_key-at ts key u f inside) ∙ e)
    ]
  ]

  -- On a level whose ranges ascend and do not meet, the binary search finds a table exactly where
  -- the table is of the level and its range holds the key.
  pub find_sstable_for_key_iff :
      (ts : List (SsTable J)) (key : Key) (t : SsTable J)
      → IsDisjoint ts
      → (find_sstable_for_key ts key ≡ some t) ↔ (Memᴰ t ts × (in_range t key ≡ true))
  find_sstable_for_key_iff ts key t d = (
    λ e. (find_sstable_for_key-mem ts key t e, ground (arith, e, find_sstable_for_key-eq ts key)),
    λ (m, r). find_sstable_for_key-eq ts key ∙ rw (first_reaching-in_range ts key t d m r, r) refl,
  )
