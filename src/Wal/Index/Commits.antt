-- ===== src/Wal/Index/Commits.antt =====
-- crates/f4kvs-lsm/src/storage/wal_index.rs: what a reader of the index sees before, during and
-- after a commit.
use f4kvs_lsm.Base.{
  ℕ, ◌+◌, ◌<◌, ◌≡◌, refl, ap, sym, subst, ◌∙◌, Option, none, some, List, ◌⊎◌, inl, inr, arith,
}
use f4kvs_lsm.Base.Words.{u32_mod, u64_mod}
use f4kvs_lsm.Wal.Index.{
  WalIndexHeader, WalIndexFile, compute_checksum, candidate, newest, read_latest, open_index,
  stamped, write_slot, slot_at, put_slot, to_slot_bytes, keep_latest, new,
}
use f4kvs_lsm.Wal.Index.Slots.{FieldsFit, candidate-to_slot_bytes}

-- Nothing, or a header of an earlier generation.
unfoldable pub IsOlder : Option WalIndexHeader → ℕ → Type 0
IsOlder none generation = Unit
IsOlder (some h) generation = h.generation < generation

module _ (crc : List ℕ → ℕ) where
  -- The slot of the newest generation holds the latest header, unless nothing was ever written,
  -- and the other slot holds an older one or none that can be read.
  pub record IsIndex (f : WalIndexFile) : Type 0 where
    pub newest :
        (candidate crc (slot_at f.latest.generation f) ≡ some f.latest)
        ⊎ ((candidate crc (slot_at f.latest.generation f) ≡ none) × (f.latest.generation ≡ 0))
    pub older : IsOlder (candidate crc (slot_at (f.latest.generation + 1) f)) f.latest.generation

newest_left :
    (h : WalIndexHeader) (b : Option WalIndexHeader)
    → IsOlder b h.generation
    → newest (some h) b ≡ some h
unfolding newest IsOlder
newest_left h none o = refl
newest_left h (some b) o = let less : b.generation < h.generation = o in ground (arith)

newest_right :
    (h : WalIndexHeader) (a : Option WalIndexHeader)
    → IsOlder a h.generation
    → newest a (some h) ≡ some h
unfolding newest IsOlder
newest_right h none o = refl
newest_right h (some a) o = let less : a.generation < h.generation = o in ground (arith)

newest_nothing : (a b : Option WalIndexHeader) → a ≡ none → b ≡ none → newest a b ≡ none
unfolding newest
newest_nothing a b e o = rw (e, o) refl

newest_slots :
    (a b : Option WalIndexHeader) (h : WalIndexHeader)
    → ((a ≡ some h) × IsOlder b h.generation) ⊎ ((b ≡ some h) × IsOlder a h.generation)
    → newest a b ≡ some h
newest_slots a b h (inl (e, o)) = rw (e) (newest_left h b o)
newest_slots a b h (inr (e, o)) = rw (e) (newest_right h a o)

slots :
    (n : ℕ) (f : WalIndexFile)
    → ((slot_at n f ≡ f.slot_a) × (slot_at (n + 1) f ≡ f.slot_b))
      ⊎ ((slot_at n f ≡ f.slot_b) × (slot_at (n + 1) f ≡ f.slot_a))
unfolding slot_at
slots n f = ground (arith)

slot_at_next_next : (n : ℕ) (f : WalIndexFile) → slot_at (n + 1 + 1) f ≡ slot_at n f
unfolding slot_at
slot_at_next_next n f = ground (arith)

slot_at-put_slot :
    (n : ℕ) (bytes : List ℕ) (f : WalIndexFile) → slot_at n (put_slot n bytes f) ≡ bytes
unfolding slot_at put_slot
slot_at-put_slot n bytes f = ground (arith)

slot_at_other :
    (n : ℕ) (bytes : List ℕ) (f : WalIndexFile) → slot_at n (put_slot (n + 1) bytes f) ≡ slot_at n f
unfolding slot_at put_slot
slot_at_other n bytes f = ground (arith)

module _ (crc : List ℕ → ℕ) where
  read_latest_newest :
      (n : ℕ) (f : WalIndexFile) (h : WalIndexHeader)
      → candidate crc (slot_at n f) ≡ some h
      → IsOlder (candidate crc (slot_at (n + 1) f)) h.generation
      → read_latest crc f ≡ some h
  unfolding read_latest
  read_latest_newest n f h e o =
      newest_slots (candidate crc f.slot_a) (candidate crc f.slot_b) h (elim (slots n f) [
        | inl (a, b) ↦ inl (
          ap (candidate crc) (sym a) ∙ e,
          subst (λ s. IsOlder (candidate crc s) h.generation) b o,
        )
        | inr (b, a) ↦ inr (
          ap (candidate crc) (sym b) ∙ e,
          subst (λ s. IsOlder (candidate crc s) h.generation) a o,
        )
      ])

  read_latest-none :
      (n : ℕ) (f : WalIndexFile)
      → candidate crc (slot_at n f) ≡ none
      → candidate crc (slot_at (n + 1) f) ≡ none
      → read_latest crc f ≡ none
  unfolding read_latest
  read_latest-none n f e o = elim (slots n f) [
    | inl (a, b) ↦
        newest_nothing (candidate crc f.slot_a) (candidate crc f.slot_b)
          (ap (candidate crc) (sym a) ∙ e) (ap (candidate crc) (sym b) ∙ o)
    | inr (b, a) ↦
        newest_nothing (candidate crc f.slot_a) (candidate crc f.slot_b)
          (ap (candidate crc) (sym a) ∙ o) (ap (candidate crc) (sym b) ∙ e)
  ]

  IsOlder-zero : (c : Option WalIndexHeader) → IsOlder c 0 → c ≡ none
  unfolding IsOlder
  IsOlder-zero none o = refl
  IsOlder-zero (some h) o = let less : h.generation < 0 = o in ground (arith)

  IsOlder-none : (c : Option WalIndexHeader) (n : ℕ) → c ≡ none → IsOlder c n
  unfolding IsOlder
  IsOlder-none none n e = tt
  IsOlder-none (some h) n e = ground (arith)

  -- A crash in the middle of a commit to a well-formed index leaves bytes in the slot of the next
  -- generation. Where these are no header, the reader still gets what it got before the commit.
  pub read_latest-put_slot_torn :
      (f : WalIndexFile) (torn : List ℕ)
      → IsIndex crc f
      → candidate crc torn ≡ none
      → read_latest crc (put_slot (f.latest.generation + 1) torn f) ≡ read_latest crc f
  read_latest-put_slot_torn f torn i t =
      let n = f.latest.generation in
      let g = put_slot (n + 1) torn f in
      let kept : candidate crc (slot_at n g) ≡ candidate crc (slot_at n f) =
        ap (candidate crc) (slot_at_other n torn f) in
      let gone : candidate crc (slot_at (n + 1) g) ≡ none =
        ap (candidate crc) (slot_at-put_slot (n + 1) torn f) ∙ t in
      elim i.newest [
        | inl e ↦
            read_latest_newest n g f.latest (kept ∙ e)
              (IsOlder-none (candidate crc (slot_at (n + 1) g)) n gone)
            ∙ sym (read_latest_newest n f f.latest e i.older)
        | inr (e, z) ↦
            read_latest-none n g (kept ∙ e) gone
            ∙ sym (
                read_latest-none n f e (
                  IsOlder-zero (candidate crc (slot_at (n + 1) f))
                    (subst (IsOlder (candidate crc (slot_at (n + 1) f))) z i.older)))
      ]

  opened :
      (a b : List ℕ) (segment_id frame_size : ℕ) (h : WalIndexHeader)
      → newest (candidate crc a) (candidate crc b) ≡ some h
      → open_index crc a b segment_id frame_size ≡ record { slot_a = a; slot_b = b; latest = h }
  unfolding open_index read_latest keep_latest
  opened a b segment_id frame_size h e =
      ap
        (λ found.
          keep_latest found
            (record { slot_a = a; slot_b = b; latest = new crc segment_id frame_size }))
        e

  module _ (bounded : (bytes : List ℕ) → crc bytes < u32_mod) where
    stamped-FieldsFit :
        (f : WalIndexFile) (h : WalIndexHeader) → FieldsFit h → FieldsFit (stamped crc f h)
    unfolding stamped compute_checksum
    stamped-FieldsFit f h i = record {
      generation = let less = i.generation in ground (arith);
      segment_id = i.segment_id;
      frame_size = i.frame_size;
      committed_frame = i.committed_frame;
      committed_offset = i.committed_offset;
      entry_count = i.entry_count;
      checksum = bounded _;
    }

    stamped_generation :
        (f : WalIndexFile) (h : WalIndexHeader)
        → f.latest.generation + 1 < u64_mod
        → (stamped crc f h).generation ≡ f.latest.generation + 1
    unfolding stamped
    stamped_generation f h room = ground (arith)

    stamped_checksum :
        (f : WalIndexFile) (h : WalIndexHeader)
        → (stamped crc f h).checksum ≡ compute_checksum crc (stamped crc f h)
    unfolding stamped compute_checksum
    stamped_checksum f h = refl

    written :
        (f : WalIndexFile) (h : WalIndexHeader)
        → slot_at (stamped crc f h).generation (write_slot crc f h)
          ≡ to_slot_bytes (stamped crc f h)
    unfolding write_slot slot_at
    written f h = slot_at-put_slot (stamped crc f h).generation (to_slot_bytes (stamped crc f h)) f

    spared :
        (f : WalIndexFile) (h : WalIndexHeader)
        → f.latest.generation + 1 < u64_mod
        → slot_at ((stamped crc f h).generation + 1) (write_slot crc f h)
          ≡ slot_at f.latest.generation f
    unfolding write_slot slot_at
    spared f h room =
        let n = f.latest.generation in
        let next = stamped crc f h in
        let e : next.generation ≡ n + 1 = stamped_generation f h room in
        ap (λ m. slot_at (m + 1) (put_slot m (to_slot_bytes next) f)) e
        ∙ slot_at_next_next n (put_slot (n + 1) (to_slot_bytes next) f)
        ∙ slot_at_other n (to_slot_bytes next) f

    outdated :
        (f : WalIndexFile) (m : ℕ)
        → IsIndex crc f
        → f.latest.generation < m
        → IsOlder (candidate crc (slot_at f.latest.generation f)) m
    unfolding IsOlder
    outdated f m i less = elim i.newest [
      | inl e ↦ subst (λ c. IsOlder c m) (sym e) less
      | inr (e, z) ↦ IsOlder-none (candidate crc (slot_at f.latest.generation f)) m e
    ]

    -- A commit of a header whose fields fit their words, to a well-formed index below the last
    -- generation, leaves a well-formed index, of which a reader gets the header that was
    -- committed, with the next generation and the checksum of its fields, where checksums are
    -- words of 32 bits.
    pub write_slot-IsIndex :
        (f : WalIndexFile) (h : WalIndexHeader)
        → IsIndex crc f
        → FieldsFit h
        → f.latest.generation + 1 < u64_mod
        → IsIndex crc (write_slot crc f h)
          × (read_latest crc (write_slot crc f h) ≡ some (stamped crc f h))
    unfolding write_slot
    write_slot-IsIndex f h i fits room =
        let next = stamped crc f h in
        let e : next.generation ≡ f.latest.generation + 1 = stamped_generation f h room in
        let less : f.latest.generation < next.generation = omega (arith, e) in
        let decoded : candidate crc (slot_at next.generation (write_slot crc f h)) ≡ some next =
          ap (candidate crc) (written f h)
          ∙ candidate-to_slot_bytes crc next (stamped-FieldsFit f h fits) (stamped_checksum f h) in
        let older : IsOlder (candidate crc (slot_at (next.generation + 1) (write_slot crc f h)))
            next.generation =
          subst (λ s. IsOlder (candidate crc s) next.generation) (sym (spared f h room))
            (outdated f next.generation i less) in
        (
          record { newest = inl decoded; older = older },
          read_latest_newest next.generation (write_slot crc f h) next decoded older,
        )

    -- After such a commit the index that is opened on the file is the one that was written.
    pub open_index-write_slot :
        (f : WalIndexFile) (h : WalIndexHeader) (segment_id frame_size : ℕ)
        → IsIndex crc f
        → FieldsFit h
        → f.latest.generation + 1 < u64_mod
        → open_index crc
            (write_slot crc f h).slot_a
            (write_slot crc f h).slot_b
            segment_id
            frame_size
          ≡ write_slot crc f h
    unfolding read_latest write_slot
    open_index-write_slot f h segment_id frame_size i fits room =
        opened (write_slot crc f h).slot_a (write_slot crc f h).slot_b segment_id frame_size
          (stamped crc f h) ((write_slot-IsIndex f h i fits room).1)
