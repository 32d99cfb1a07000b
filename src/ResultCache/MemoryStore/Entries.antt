-- ===== src/ResultCache/MemoryStore/Entries.antt =====
-- mcp/core/cache/stores/MemoryResultCacheStore.ts: what a read finds.
use peta_core.Prelude.{
  ℕ, String, string_eq, Option, ap, arith, eq_iff, List, Bool-cases, if_cases, keep, eq_of_beq,
  false, not, leb→le, ◌&&◌, if◌then◌else◌, leb, none, refl, some, ◌≡◌, ◌≤◌, length, ◌*◌, ◌+◌, ◌==◌,
  ◌⊎◌, false, beq_self, inl, inr,
}
use peta_core.Prelude.Dict
use peta_core.Prelude.Dict.{get-delete, get-set}
use peta_core.ResultCache.MemoryStore.{
  MemoryEntry, MemoryStore, cache_get, read, cache_set, drop_oldest, evict_oldest, is_fresh,
  scan_oldest,
}

module _ {V : Type 0} where
  -- What the store holds under a key at a time: the value of an entry that has not expired.
  abbrev pub visible : ℕ → Option (MemoryEntry V) → Option V
  visible now none = none
  visible now (some e) = if leb e.expires_at now then none else some e.value

  read-visible :
      (k j : String) (now later : ℕ) (s : MemoryStore V) (o : Option (MemoryEntry V))
      → Dict.get k s.entries ≡ o
      → now ≤ later
      → ((read k now s o).1 ≡ visible now o)
        × (visible later (Dict.get j (read k now s o).0.entries)
            ≡ visible later (Dict.get j s.entries))
  read-visible k j now later s none e le = (refl, refl)
  read-visible k j now later s (some b) e le = ground (
    arith,
    get-delete k j s.entries,
    eq_iff k j,
    ap (λ (x : String). Dict.get x s.entries) {x = k} {y = j},
  )

  -- A read answers with the unexpired value and nothing else, and no read changes what any key holds
  -- at that time or later.
  pub cache_get-visible :
      (k j : String) (now later : ℕ) (s : MemoryStore V)
      → now ≤ later
      → ((cache_get k now s).1 ≡ visible now (Dict.get k s.entries))
        × (visible later (Dict.get j (cache_get k now s).0.entries)
            ≡ visible later (Dict.get j s.entries))
  unfolding cache_get
  cache_get-visible k j now later s le = read-visible k j now later s (Dict.get k s.entries) refl le

  -- The entry of a key is the one before, or gone.
  abbrev pub IsLeft :
      String → List (String × MemoryEntry V) → List (String × MemoryEntry V) → Type 0
  IsLeft j m old = (Dict.get j m ≡ Dict.get j old) ⊎ (Dict.get j m ≡ none)

  keep-IsLeft :
      (j : String) (now : ℕ) (m : List (String × MemoryEntry V))
      → Dict.IsUnique m
      → IsLeft j (keep (is_fresh now) m) m
  keep-IsLeft j now m u = rw (Dict.get-keep (is_fresh now) j m u) (kept_or_gone (Dict.get j m))
    where
      kept_or_gone :
          (o : Option (MemoryEntry V))
          → (Dict.kept (is_fresh now) j o ≡ o) ⊎ (Dict.kept (is_fresh now) j o ≡ none)
      kept_or_gone none = inl refl
      kept_or_gone (some e) = ground arith

  delete-IsLeft :
      (j k : String) (m old : List (String × MemoryEntry V))
      → IsLeft j m old
      → IsLeft j (Dict.delete k m) old
  delete-IsLeft j k m old h = rw (get-delete k j m) (ground (arith, h))

  drop-IsLeft :
      (j : String) (o : Option (String × ℕ)) (m old : List (String × MemoryEntry V))
      → IsLeft j m old
      → IsLeft j (drop_oldest o m) old
  drop-IsLeft j none m old h = h
  drop-IsLeft j (some (k, x)) m old h =
      if_cases (λ l. IsLeft j l old) (k == "") m (Dict.delete k m) (λ _. h)
        (λ _. delete-IsLeft j k m old h)

  evict-IsLeft :
      (j : String) (limit now : ℕ) (m : List (String × MemoryEntry V))
      → Dict.IsUnique m
      → IsLeft j (evict_oldest limit now m) m
  unfolding evict_oldest
  evict-IsLeft j limit now m u =
      let live = keep (is_fresh now) m in
      let h = keep-IsLeft j now m u in
      if_cases (λ l. IsLeft j l m) (leb limit (length live))
        (drop_oldest (scan_oldest none live) live) live
        (λ _. drop-IsLeft j (scan_oldest none live) live m h) (λ _. h)

  -- What a set at this time leaves of another key's value: the same, or nothing where the store was
  -- full and did not have the key that is set.
  abbrev pub IsSpared : String → MemoryStore V → Option V → Option V → Type 0
  IsSpared k s old new =
      (new ≡ old)
      ⊎ ((new ≡ none) × (s.max_entries ≤ length s.entries) × (Dict.has k s.entries ≡ false))

  left_visible :
      (j k : String) (at : ℕ) (s : MemoryStore V) (m : List (String × MemoryEntry V))
      → s.max_entries ≤ length s.entries
      → Dict.has k s.entries ≡ false
      → IsLeft j m s.entries
      → IsSpared k s (visible at (Dict.get j s.entries)) (visible at (Dict.get j m))
  left_visible j k at s m full absent (inl e) = rw e (inl refl)
  left_visible j k at s m full absent (inr e) = rw e (inr (refl, full, absent))

  other_key :
      (k j : String) (v : V) (ttl now later at : ℕ) (s : MemoryStore V)
      → Dict.IsUnique s.entries
      → (k == j) ≡ false
      → IsSpared k s
          (visible at (Dict.get j s.entries))
          (visible at (Dict.get j (cache_set k v ttl now later s).entries))
  unfolding cache_set
  other_key k j v ttl now later at s u ne =
      rw (get-set {V = MemoryEntry V} k j (record { value = v; expires_at = later + ttl * 1000 }) _)
        (rw ne
          (elim (Bool-cases (leb s.max_entries (length s.entries) && not (Dict.has k s.entries))) [
            | inl full ↦ rw full (
                left_visible j k at s (evict_oldest s.max_entries now s.entries)
                  (leb→le _ _ (ground (arith, full))) (ground (arith, full))
                  (evict-IsLeft j s.max_entries now s.entries u))
            | inr room ↦ rw room (inl refl)
          ]))

  -- A value that is stored is read back until its time is over, also where room had to be made. A
  -- value under another key stays, or is gone, which happens only where the store was full and did
  -- not have the stored key. No key occurs twice in the store.
  pub cache_set-visible :
      (k j : String) (v : V) (ttl now later at : ℕ) (s : MemoryStore V)
      → Dict.IsUnique s.entries
      → (visible at (Dict.get k (cache_set k v ttl now later s).entries)
          ≡ (if leb (later + ttl * 1000) at then none else some v))
        × ((k ≡ j)
            ⊎ IsSpared k s
                (visible at (Dict.get j s.entries))
                (visible at (Dict.get j (cache_set k v ttl now later s).entries)))
  cache_set-visible k j v ttl now later at s u = (
    unfold cache_set in rw (get-set, beq_self k) refl,
    elim (Bool-cases (k == j)) [
      | inl same ↦ inl (eq_of_beq k j same)
      | inr ne ↦ inr (other_key k j v ttl now later at s u ne)
    ],
  )
