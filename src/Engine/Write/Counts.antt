-- ===== src/Engine/Write/Counts.antt =====
-- crates/f4kvs-lsm/src/core/engine.rs: the count of live keys against what reads see.
use f4kvs_lsm.Base.{
  ℕ, ◌+◌, ◌<◌, ◌≡◌, refl, sym, ap, ◌∙◌, Bool, true, false, Option, none, some, Key, if◌then◌else◌,
  arith, Option-cases, inl, inr,
}
use f4kvs_lsm.Base.Words.{u64_mod}
use f4kvs_lsm.Value.{Value}
use f4kvs_lsm.Memtable
use f4kvs_lsm.Memtable.{PutEffect}
use f4kvs_lsm.Memtable.Lookup.{put-effect, effect_after}
use f4kvs_lsm.Engine.{Engine, first_in, get_from_memtables, get_from_sstables, exists}
use f4kvs_lsm.Engine.Write.{apply_put_key_count, increment_live_keys, put_in_memory}

module _ {J : Type 0} (hash : Key → ℕ → ℕ) (json_len : J → ℕ) where
  -- Whether the key exists, from what the active memtable and the tables say.
  abbrev live : Memtable.LookupResult J → Option (Value J) → Bool
  live (Memtable.LookupResult.found v) s = true
  live Memtable.LookupResult.tombstone s = false
  live Memtable.LookupResult.missing none = false
  live Memtable.LookupResult.missing (some v) = true

  exists-quiet :
      (e : Engine J) (key : Key)
      → first_in e.immutables key ≡ Memtable.LookupResult.missing
      → exists hash e key ≡ live (Memtable.lookup e.active key) (get_from_sstables hash e key)
  unfolding exists get_from_memtables
  exists-quiet e key quiet = ground (arith, quiet)

  count-apply :
      (e : Engine J) (key : Key) (l : Memtable.LookupResult J)
      → e.bulk_import ≡ false
      → e.live_key_count + 1 < u64_mod
      → (apply_put_key_count hash e key (effect_after l)).live_key_count
        ≡ (if live l (get_from_sstables hash e key) then e.live_key_count else e.live_key_count + 1)
  unfolding apply_put_key_count increment_live_keys
  count-apply e key (Memtable.LookupResult.found v) single room = refl
  count-apply e key Memtable.LookupResult.tombstone single room = grind arith
  count-apply e key Memtable.LookupResult.missing single room =
      elim (Option-cases (get_from_sstables hash e key)) [
        | inl new ↦ rw (single, new, apply_put_key_count) (grind arith)
        | inr (v, old) ↦ rw (single, old, apply_put_key_count) refl
      ]

  -- Outside a bulk import a put adds one to the count of live keys exactly where the key did not
  -- exist, if no immutable memtable holds the key and the count is not at its maximum.
  pub count-put :
      (e : Engine J) (key : Key) (v : Value J)
      → e.bulk_import ≡ false
      → first_in e.immutables key ≡ Memtable.LookupResult.missing
      → e.live_key_count + 1 < u64_mod
      → (put_in_memory hash json_len e key v).live_key_count
        ≡ (if exists hash e key then e.live_key_count else e.live_key_count + 1)
  unfolding put_in_memory get_from_sstables
  count-put e key v single quiet room =
      let (m, effect) = Memtable.put json_len e.active key v in
      ap (λ f. (apply_put_key_count hash (record e { active = m }) key f).live_key_count)
        (put-effect json_len e.active key v)
      ∙ count-apply (record e { active = m }) key (Memtable.lookup e.active key) single room
      ∙ ap (λ b. if b then e.live_key_count else e.live_key_count + 1)
          (sym (exists-quiet e key quiet))
