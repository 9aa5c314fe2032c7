-- ===== src/Compaction/Chunks.antt =====
-- crates/f4kvs-lsm/src/compaction/manager.rs: how `create_new_sstables` splits the entries.
use f4kvs_lsm.Base.{
  if_elim, ◌≤◌, ◌<◌, ◌⊎◌, length, ℕ, ◌+◌, ◌≡◌, refl, ap, ◌∙◌, List, [], ◌∷◌, ◌++◌, append_assoc,
  ltb, arith, Bool-cases, inl, inr,
}
use f4kvs_lsm.Base.Words.{u64_mod, usize_add}
use f4kvs_lsm.Sstable.{Entry}
use f4kvs_lsm.Compaction.{create_new_sstables, chunks}

module _ {J : Type 0} where
  abbrev pub flatten : List (List (Entry J)) → List (Entry J)
  flatten [] = []
  flatten (c ∷ cs) = c ++ flatten cs

  abbrev pub NoneEmpty : List (List (Entry J)) → Type 0
  NoneEmpty [] = Unit {0}
  NoneEmpty ([] ∷ cs) = ⊥
  NoneEmpty ((e ∷ c) ∷ cs) = NoneEmpty cs

module _ {J : Type 0} (estimated_sstable_bytes : Entry J → ℕ) where
  abbrev pub total : List (Entry J) → ℕ
  total [] = 0
  total (e ∷ es) = estimated_sstable_bytes e + total es

module _ {J : Type 0} (estimated_sstable_bytes : Entry J → ℕ) (target_size : ℕ) where
  flatten-chunks-from :
      (current : List (Entry J)) (size : ℕ) (es : List (Entry J))
      → flatten (chunks estimated_sstable_bytes target_size current size es) ≡ current ++ es
  unfolding chunks
  flatten-chunks-from [] size [] = refl
  flatten-chunks-from (c ∷ current) size [] = refl
  flatten-chunks-from [] size (e ∷ es) =
      flatten-chunks-from (e ∷ []) (usize_add size (estimated_sstable_bytes e)) es
  flatten-chunks-from (c ∷ current) size (e ∷ es) =
      let n = estimated_sstable_bytes e in
      if_elim (λ cs. flatten cs ≡ (c ∷ current) ++ e ∷ es) (ltb target_size (usize_add size n))
        (ap (λ r. (c ∷ current) ++ r) (flatten-chunks-from (e ∷ []) (usize_add 0 n) es))
        (flatten-chunks-from (c ∷ current ++ e ∷ []) (usize_add size n) es
          ∙ append_assoc (c ∷ current) (e ∷ []) es)

  NoneEmpty-chunks-from :
      (current : List (Entry J)) (size : ℕ) (es : List (Entry J))
      → NoneEmpty (chunks estimated_sstable_bytes target_size current size es)
  unfolding chunks
  NoneEmpty-chunks-from [] size [] = tt
  NoneEmpty-chunks-from (c ∷ current) size [] = tt
  NoneEmpty-chunks-from [] size (e ∷ es) =
      NoneEmpty-chunks-from (e ∷ []) (usize_add size (estimated_sstable_bytes e)) es
  NoneEmpty-chunks-from (c ∷ current) size (e ∷ es) =
      let n = estimated_sstable_bytes e in
      if_elim NoneEmpty (ltb target_size (usize_add size n))
        (NoneEmpty-chunks-from (e ∷ []) (usize_add 0 n) es)
        (NoneEmpty-chunks-from (c ∷ current ++ e ∷ []) (usize_add size n) es)

  -- A chunk stays within the target size, or is a single entry.
  abbrev pub IsFit : List (Entry J) → Type 0
  IsFit c = (total estimated_sstable_bytes c ≤ target_size) ⊎ (length c ≤ 1)

  abbrev pub AllFit : List (List (Entry J)) → Type 0
  AllFit [] = Unit {0}
  AllFit (c ∷ cs) = IsFit c × AllFit cs

  total-append :
      (xs ys : List (Entry J))
      → total estimated_sstable_bytes (xs ++ ys)
        ≡ total estimated_sstable_bytes xs + total estimated_sstable_bytes ys
  total-append [] ys = omega arith
  total-append (x ∷ xs) ys = omega (arith, total-append xs ys)

  AllFit-chunks-from :
      (current : List (Entry J)) (size : ℕ) (es : List (Entry J))
      → size ≡ total estimated_sstable_bytes current
      → IsFit current
      → total estimated_sstable_bytes current + total estimated_sstable_bytes es < u64_mod
      → AllFit (chunks estimated_sstable_bytes target_size current size es)
  unfolding chunks
  AllFit-chunks-from [] size [] is fit room = tt
  AllFit-chunks-from (c ∷ current) size [] is fit room = (fit, tt)
  AllFit-chunks-from [] size (e ∷ es) is fit room =
      AllFit-chunks-from (e ∷ []) (usize_add size (estimated_sstable_bytes e)) es
        (grind (arith, is, room)) (inr (omega arith)) (omega (arith, room))
  AllFit-chunks-from (c ∷ current) size (e ∷ es) is fit room =
      let n = estimated_sstable_bytes e in
      let small : usize_add size n ≡ size + n = grind (arith, is, room) in
      elim (Bool-cases (ltb target_size (usize_add size n))) [
        | inl over ↦ rw (over) (
          fit,
          AllFit-chunks-from (e ∷ []) (usize_add 0 n) es (grind (arith, room)) (inr (omega arith))
              (omega (arith, room)),
        )
        | inr fits ↦ rw (fits) (
            AllFit-chunks-from (c ∷ current ++ e ∷ []) (usize_add size n) es
              (omega (arith, small, is, total-append (c ∷ current) (e ∷ [])))
              (inl (grind (arith, small, is, fits, total-append (c ∷ current) (e ∷ []))))
              (omega (arith, room, total-append (c ∷ current) (e ∷ []))))
      ]

  -- If the estimates of the entries sum up within a `usize`, the chunks hold the entries in their
  -- order, none of them is empty, and each stays within the target size unless it is a single
  -- entry.
  pub create_new_sstables-chunks :
      (es : List (Entry J))
      → total estimated_sstable_bytes es < u64_mod
      → (flatten (create_new_sstables estimated_sstable_bytes target_size es) ≡ es)
        × NoneEmpty (create_new_sstables estimated_sstable_bytes target_size es)
        × AllFit (create_new_sstables estimated_sstable_bytes target_size es)
  unfolding create_new_sstables
  create_new_sstables-chunks es room = (
    flatten-chunks-from [] 0 es,
    NoneEmpty-chunks-from [] 0 es,
    AllFit-chunks-from [] 0 es refl (inl (omega arith)) (omega (arith, room)),
  )
