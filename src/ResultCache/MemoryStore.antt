-- ===== src/ResultCache/MemoryStore.antt =====
-- mcp/core/cache/stores/MemoryResultCacheStore.ts. `now` is `Date.now()`; values are of any type.
pub mod Entries
pub mod Bounds
pub mod Capacity
pub mod Sweep
use peta_core.Prelude.{
  ℕ, String, string_eq, Bool, List, Option, [], get_or, if◌then◌else◌, keep, leb, length, ltb, none,
  not, some, ◌&&◌, ◌*◌, ◌+◌, ◌==◌, ◌∷◌,
}
use peta_core.Prelude.Dict

pub record MemoryEntry (V : Type 0) : Type 0 where
  pub value : V
  pub expires_at : ℕ

pub record AdmissionEntry : Type 0 where
  pub hits : ℕ
  pub lapses_at : ℕ

pub record MemoryStore (V : Type 0) : Type 0 where
  pub entries : List (String × MemoryEntry V)
  pub admissions : List (String × AdmissionEntry)
  pub namespaces : List (String × ℕ)
  pub max_entries : ℕ

abbrev pub is_open_admission : ℕ → String × AdmissionEntry → Bool
is_open_admission now b = ltb now b.1.lapses_at

abbrev pub hits_at : ℕ → Option AdmissionEntry → ℕ
hits_at now none = 0
hits_at now (some a) = if leb a.lapses_at now then 0 else a.hits

module _ {V : Type 0} where
  abbrev pub is_fresh : ℕ → String × MemoryEntry V → Bool
  is_fresh now b = ltb now b.1.expires_at

  -- from the entry that the map has
  abbrev pub read : String → ℕ → MemoryStore V → Option (MemoryEntry V) → MemoryStore V × Option V
  read k now s none = (s, none)
  read k now s (some e) =
      if leb e.expires_at now
      then (record s { entries = Dict.delete k s.entries }, none)
      else (s, some e.value)

  unfoldable pub cache_get : String → ℕ → MemoryStore V → MemoryStore V × Option V
  cache_get k now s = read k now s (Dict.get k s.entries)

  -- The loop for the oldest entry: the key and expiry found so far, `none` before the first.
  unfoldable pub scan_oldest :
      Option (String × ℕ) → List (String × MemoryEntry V) → Option (String × ℕ)
  scan_oldest best [] = best
  scan_oldest none ((k, e) ∷ m) = scan_oldest (some (k, e.expires_at)) m
  scan_oldest (some (j, x)) ((k, e) ∷ m) =
      scan_oldest (some (if ltb e.expires_at x then (k, e.expires_at) else (j, x))) m

  -- `if (oldestKey)`: an empty key is not deleted
  abbrev pub drop_oldest :
      Option (String × ℕ) → List (String × MemoryEntry V) → List (String × MemoryEntry V)
  drop_oldest none m = m
  drop_oldest (some (k, x)) m = if k == "" then m else Dict.delete k m

  unfoldable pub evict_oldest :
      ℕ → ℕ → List (String × MemoryEntry V) → List (String × MemoryEntry V)
  unfolding scan_oldest
  evict_oldest limit now m =
      let live = keep (is_fresh now) m in
      if leb limit (length live) then drop_oldest (scan_oldest none live) live else live

  -- `Date.now()` is read twice: at `now` where room is made, at `later` for the new entry.
  unfoldable pub cache_set : String → V → ℕ → ℕ → ℕ → MemoryStore V → MemoryStore V
  cache_set k v ttl now later s =
      let room =
        if leb s.max_entries (length s.entries) && not (Dict.has k s.entries)
        then evict_oldest s.max_entries now s.entries
        else s.entries in
      record s { entries = Dict.set k (record { value = v; expires_at = later + ttl * 1000 }) room }

  unfoldable pub cache_delete : String → MemoryStore V → MemoryStore V
  cache_delete k s = record s { entries = Dict.delete k s.entries }

  abbrev pub admit : String → ℕ → ℕ → MemoryStore V → Option AdmissionEntry → MemoryStore V × ℕ
  admit k window now s none = (
    record s {
      admissions = Dict.set k (record { hits = 1; lapses_at = now + window * 1000 }) s.admissions;
    },
    1,
  )
  admit k window now s (some a) =
      if ltb now a.lapses_at
      then (
        record s { admissions = Dict.set k (record a { hits = a.hits + 1 }) s.admissions },
        a.hits + 1,
      )
      else (
        record s {
          admissions =
              Dict.set k (record { hits = 1; lapses_at = now + window * 1000 }) s.admissions;
        },
        1,
      )

  unfoldable pub record_admission_attempt : String → ℕ → ℕ → MemoryStore V → MemoryStore V × ℕ
  record_admission_attempt k window now s = admit k window now s (Dict.get k s.admissions)

  unfoldable pub get_admission_count : String → ℕ → MemoryStore V → ℕ
  get_admission_count k now s = hits_at now (Dict.get k s.admissions)

  unfoldable pub clear_admission : String → MemoryStore V → MemoryStore V
  clear_admission k s = record s { admissions = Dict.delete k s.admissions }

  unfoldable pub get_namespace_version : String → MemoryStore V → ℕ
  get_namespace_version k s = get_or (Dict.get k s.namespaces) 0

  unfoldable pub bump_namespace_version : String → MemoryStore V → MemoryStore V × ℕ
  bump_namespace_version k s =
      let next = get_or (Dict.get k s.namespaces) 0 + 1 in
      (record s { namespaces = Dict.set k next s.namespaces }, next)

  unfoldable pub close : MemoryStore V → MemoryStore V
  close s = record s { entries = []; admissions = []; namespaces = [] }

  unfoldable pub sweep : ℕ → MemoryStore V → MemoryStore V
  sweep now s = record s {
    entries = keep (is_fresh now) s.entries;
    admissions = keep (is_open_admission now) s.admissions;
  }
