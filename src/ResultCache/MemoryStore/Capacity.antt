-- ===== src/ResultCache/MemoryStore/Capacity.antt =====
-- mcp/core/cache/stores/MemoryResultCacheStore.ts: the number of entries and the limit.
use peta_core.Prelude.{
  ℕ, String, string_eq, All-keep, Bool-cases, List, [], arith, false, inl, inr, keep, leb, length,
  none, some, ◌<◌, ◌==◌, ◌∷◌, ◌≡◌, ◌≤◌, Option, if_cases, not, ◌&&◌, ◌*◌, ◌+◌,
}
use peta_core.Prelude.Dict
use peta_core.Prelude.Dict.{keep-IsUnique, delete-IsUnique, length-set, set-IsUnique}
use peta_core.ResultCache.MemoryStore.{
  MemoryEntry, MemoryStore, evict_oldest, is_fresh, scan_oldest, cache_set, drop_oldest,
}
use peta_core.ResultCache.MemoryStore.Bounds.{length-evict_oldest, KeysGiven}

module _ {V : Type 0} where
  -- The store holds no more entries than its limit, no key twice and no empty key.
  pub record IsBounded (s : MemoryStore V) : Type 0 where
    pub unique : Dict.IsUnique s.entries
    pub given : KeysGiven s.entries
    pub bounded : length s.entries ≤ s.max_entries

  set-KeysGiven :
      (k : String) (e : MemoryEntry V) (m : List (String × MemoryEntry V))
      → (k == "") ≡ false
      → KeysGiven m
      → KeysGiven (Dict.set k e m)
  unfolding Dict.set
  set-KeysGiven k e [] g h = (g, tt)
  set-KeysGiven k e ((i, b) ∷ m) g h = ground (arith, set-KeysGiven k e m g h.1)

  delete-KeysGiven :
      (k : String) (m : List (String × MemoryEntry V)) → KeysGiven m → KeysGiven (Dict.delete k m)
  unfolding Dict.delete
  delete-KeysGiven k [] h = tt
  delete-KeysGiven k ((i, b) ∷ m) h = ground (arith, delete-KeysGiven k m h.1)

  length-delete-le :
      (k : String) (m : List (String × MemoryEntry V)) → length (Dict.delete k m) ≤ length m
  unfolding Dict.delete
  length-delete-le k [] = omega arith
  length-delete-le k ((i, b) ∷ m) = ground (arith, length-delete-le k m)

  evict-KeysGiven :
      (limit now : ℕ) (m : List (String × MemoryEntry V))
      → KeysGiven m
      → KeysGiven (evict_oldest limit now m)
  unfolding evict_oldest
  evict-KeysGiven limit now m h =
      let live = keep (is_fresh now) m in
      let g = All-keep (λ b. (b.0 == "") ≡ false) (is_fresh now) m h in
      if_cases KeysGiven (leb limit (length live)) (drop_oldest (scan_oldest none live) live) live
        (λ _. drop-KeysGiven (scan_oldest none live) live g) (λ _. g)
    where
      drop-KeysGiven :
          (o : Option (String × ℕ)) (l : List (String × MemoryEntry V))
          → KeysGiven l
          → KeysGiven (drop_oldest o l)
      drop-KeysGiven none l g = g
      drop-KeysGiven (some (k, x)) l g =
          if_cases KeysGiven (k == "") l (Dict.delete k l) (λ _. g) (λ _. delete-KeysGiven k l g)

  evict-IsUnique :
      (limit now : ℕ) (m : List (String × MemoryEntry V))
      → Dict.IsUnique m
      → Dict.IsUnique (evict_oldest limit now m)
  unfolding evict_oldest
  evict-IsUnique limit now m h =
      let live = keep (is_fresh now) m in
      let g = keep-IsUnique (is_fresh now) m h in
      if_cases Dict.IsUnique (leb limit (length live)) (drop_oldest (scan_oldest none live) live)
        live (λ _. drop-IsUnique (scan_oldest none live) live g) (λ _. g)
    where
      drop-IsUnique :
          (o : Option (String × ℕ)) (l : List (String × MemoryEntry V))
          → Dict.IsUnique l
          → Dict.IsUnique (drop_oldest o l)
      drop-IsUnique none l g = g
      drop-IsUnique (some (k, x)) l g =
          if_cases Dict.IsUnique (k == "") l (Dict.delete k l) (λ _. g) (λ _. delete-IsUnique k l g)

  -- Storing under a key that is not empty keeps the store within its limit, which is not zero.
  pub cache_set-IsBounded :
      (k : String) (v : V) (ttl now later : ℕ) (s : MemoryStore V)
      → (k == "") ≡ false
      → 0 < s.max_entries
      → IsBounded s
      → IsBounded (cache_set k v ttl now later s)
  unfolding cache_set
  cache_set-IsBounded k v ttl now later s g h b =
      elim (Bool-cases (leb s.max_entries (length s.entries) && not (Dict.has k s.entries))) [
        | inl full ↦
            let m = evict_oldest s.max_entries now s.entries in
            rw full (record {
              unique = set-IsUnique k _ m (evict-IsUnique s.max_entries now s.entries b.unique);
              given = set-KeysGiven k _ m g (evict-KeysGiven s.max_entries now s.entries b.given);
              bounded = ground (
                arith,
                length-set {V = MemoryEntry V} k
                    (record { value = v; expires_at = later + ttl * 1000 }) m,
                length-evict_oldest s.max_entries now s.entries b.given b.unique h b.bounded,
              );
            })
        | inr room ↦ rw room (record {
          unique = set-IsUnique k _ s.entries b.unique;
          given = set-KeysGiven k _ s.entries g b.given;
          bounded = ground (
            arith,
            room,
            b.bounded,
            length-set {V = MemoryEntry V} k (record { value = v; expires_at = later + ttl * 1000 })
                s.entries,
          );
        })
      ]
