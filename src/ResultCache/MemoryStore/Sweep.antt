-- ===== src/ResultCache/MemoryStore/Sweep.antt =====
-- mcp/core/cache/stores/MemoryResultCacheStore.ts: the sweep, the admissions and the versions.
use peta_core.Prelude.{
  ℕ, String, string_eq, Option, arith, beq_self, get_or, if◌then◌else◌, inl, none, refl, some, ◌+◌,
  ◌==◌, ◌≡◌, ◌≤◌, ◌⊎◌,
}
use peta_core.Prelude.Dict
use peta_core.Prelude.Dict.{get-set}
use peta_core.ResultCache.MemoryStore.{
  AdmissionEntry, MemoryEntry, MemoryStore, admit, bump_namespace_version, get_admission_count,
  get_namespace_version, hits_at, is_fresh, is_open_admission, record_admission_attempt, sweep,
}
use peta_core.ResultCache.MemoryStore.Entries.{visible}

hits_kept :
    (k : String) (now later : ℕ) (o : Option AdmissionEntry)
    → now ≤ later
    → hits_at later (Dict.kept (is_open_admission now) k o) ≡ hits_at later o
hits_kept k now later none le = refl
hits_kept k now later (some e) le = ground arith

module _ {V : Type 0} where
  visible-kept :
      (k : String) (now later : ℕ) (o : Option (MemoryEntry V))
      → now ≤ later
      → visible later (Dict.kept (is_fresh now) k o) ≡ visible later o
  visible-kept k now later none le = refl
  visible-kept k now later (some e) le = ground arith

  -- No caller can tell whether the sweep has run: at its time or later every key holds the value and
  -- has the admissions that it would have had. No key occurs twice.
  pub sweep_transparent :
      (k : String) (now later : ℕ) (s : MemoryStore V)
      → Dict.IsUnique s.entries
      → Dict.IsUnique s.admissions
      → now ≤ later
      → (visible later (Dict.get k (sweep now s).entries) ≡ visible later (Dict.get k s.entries))
        × (get_admission_count k later (sweep now s) ≡ get_admission_count k later s)
  unfolding sweep get_admission_count
  sweep_transparent k now later s u u' le = (
    rw (Dict.get-keep (is_fresh now) k s.entries u)
        (visible-kept k now later (Dict.get k s.entries) le),
    rw (Dict.get-keep (is_open_admission now) k s.admissions u')
        (hits_kept k now later (Dict.get k s.admissions) le),
  )

  admit_counts :
      (k : String) (window now later : ℕ) (s : MemoryStore V) (o : Option AdmissionEntry)
      → Dict.get k s.admissions ≡ o
      → ((admit k window now s o).1 ≡ hits_at now o + 1)
        × ((hits_at now o ≡ 0)
            ⊎ (get_admission_count k now (admit k window now s o).0 ≡ hits_at now o + 1))
  unfolding get_admission_count
  admit_counts k window now later s none e = (refl, inl refl)
  admit_counts k window now later s (some a) e =
      ground (arith, get-set k k (record a { hits = a.hits + 1 }) s.admissions, beq_self k)

  -- Each attempt answers with one more than the attempts that its window has seen, and from the
  -- second on the store then shows that many.
  pub record_admission_attempt-counts :
      (k : String) (window now : ℕ) (s : MemoryStore V)
      → ((record_admission_attempt k window now s).1 ≡ get_admission_count k now s + 1)
        × ((get_admission_count k now s ≡ 0)
            ⊎ (get_admission_count k now (record_admission_attempt k window now s).0
                ≡ get_admission_count k now s + 1))
  unfolding record_admission_attempt get_admission_count
  record_admission_attempt-counts k window now s =
      unfold get_admission_count in admit_counts k window now now s (Dict.get k s.admissions) refl

  -- A purge of a namespace raises its version by one, so no key that was built with the old version
  -- is built again, and leaves the other namespaces alone.
  pub get_namespace_version-bump :
      (k j : String) (s : MemoryStore V)
      → ((bump_namespace_version k s).1 ≡ get_namespace_version k s + 1)
        × (get_namespace_version j (bump_namespace_version k s).0
            ≡ (if k == j then (bump_namespace_version k s).1 else get_namespace_version j s))
  unfolding bump_namespace_version get_namespace_version
  get_namespace_version-bump k j s =
      (refl, ground (arith, get-set k j (get_or (Dict.get k s.namespaces) 0 + 1) s.namespaces))
