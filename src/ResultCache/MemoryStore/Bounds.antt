-- ===== src/ResultCache/MemoryStore/Bounds.antt =====
-- mcp/core/cache/stores/MemoryResultCacheStore.ts: what the store evicts.
use peta_core.Prelude.{
  ℕ, String, string_eq, All, All-keep, Bool-cases, List, [], arith, eq_iff, false, inl, inr, keep,
  le_refl, le_trans, leb, leb→le, leb→lt, length, length-keep-le, ltb, ltb→le, ltb→lt, none, refl,
  some, subst, true, ◌<◌, ◌==◌, ◌∷◌, ◌≡◌, ◌≤◌, ◌⊎◌,
}
use peta_core.Prelude.Dict
use peta_core.Prelude.Dict.{length-delete, keep-IsUnique}
use peta_core.ResultCache.MemoryStore.{MemoryEntry, evict_oldest, is_fresh, scan_oldest}

module _ {V : Type 0} where
  -- An entry under the key `k` expires at `y`.
  abbrev pub Holds : String → ℕ → List (String × MemoryEntry V) → Type 0
  Holds k y [] = ⊥
  Holds k y ((i, e) ∷ m) = ((i ≡ k) × (e.expires_at ≡ y)) ⊎ Holds k y m

  -- `y` is the expiry of an entry under the key `k`, and no entry's is less.
  abbrev pub IsOldest : String → ℕ → List (String × MemoryEntry V) → Type 0
  IsOldest k y m = Holds k y m × All (λ b. y ≤ b.1.expires_at) m

  All-le :
      (x y : ℕ) (m : List (String × MemoryEntry V))
      → y ≤ x
      → All (λ b. x ≤ b.1.expires_at) m
      → All (λ b. y ≤ b.1.expires_at) m
  All-le x y [] h a = tt
  All-le x y (b ∷ m) h a = (le_trans h a.0, All-le x y m h a.1)

  has-Holds :
      (k : String) (y : ℕ) (m : List (String × MemoryEntry V)) → Holds k y m → Dict.has k m ≡ true
  unfolding Dict.get
  has-Holds k y [] h = elim h [ ]
  has-Holds k y ((i, e) ∷ m) (inl h) = ground (arith, eq_iff i k, h.0)
  has-Holds k y ((i, e) ∷ m) (inr h) = ground (arith, has-Holds k y m h)

  scan_oldest-some :
      (j : String) (x : ℕ) (m : List (String × MemoryEntry V))
      → (k : String) × (y : ℕ) × (scan_oldest (some (j, x)) m ≡ some (k, y))
        × (y ≤ x)
        × All (λ b. y ≤ b.1.expires_at) m
        × (((j ≡ k) × (x ≡ y)) ⊎ Holds k y m)
  unfolding scan_oldest
  scan_oldest-some j x [] = (j, x, refl, le_refl x, tt, inl (refl, refl))
  scan_oldest-some j x ((i, e) ∷ m) = elim (Bool-cases (ltb e.expires_at x)) [
    | inl sooner ↦
        let (k, y, found, le, least, place) = scan_oldest-some i e.expires_at m in
        (k, y, rw sooner found, omega (arith, ltb→lt e.expires_at x sooner), (le, least), inr place)
    | inr later ↦
        let (k, y, found, le, least, place) = scan_oldest-some j x m in
        (
          k,
          y,
          rw later found,
          le,
          (omega (arith, ltb→le e.expires_at x later), least),
          elim place [ inl here ↦ inl here | inr there ↦ inr (inr there) ],
        )
  ]

  scan_oldest-IsOldest :
      (m : List (String × MemoryEntry V))
      → 0 < length m
      → (k : String) × (y : ℕ) × (scan_oldest none m ≡ some (k, y)) × IsOldest k y m
  unfolding scan_oldest
  scan_oldest-IsOldest [] h = elim h [ ]
  scan_oldest-IsOldest ((i, e) ∷ m) h =
      let (k, y, found, le, least, place) = scan_oldest-some i e.expires_at m in
      (k, y, found, (place, (le, least)))

  abbrev pub KeysGiven : List (String × MemoryEntry V) → Type 0
  KeysGiven = All (λ b. (b.0 == "") ≡ false)

  key_given :
      (k : String) (y : ℕ) (m : List (String × MemoryEntry V))
      → KeysGiven m
      → Holds k y m
      → (k == "") ≡ false
  key_given k y [] g h = elim h [ ]
  key_given k y ((i, b) ∷ m) g (inl h) = subst (λ (x : String). (x == "") ≡ false) h.0 g.0
  key_given k y ((i, b) ∷ m) g (inr h) = key_given k y m g.1 h

  -- Where as many entries as the limit are unexpired, an eviction leaves out the expired ones and
  -- deletes the key of an unexpired one whose expiry is no later than that of any other. No key is
  -- empty, and the limit is not zero.
  pub evict_oldest-IsOldest :
      (limit now : ℕ) (m : List (String × MemoryEntry V))
      → KeysGiven m
      → 0 < limit
      → limit ≤ length (keep (is_fresh now) m)
      → (k : String) × (y : ℕ) × IsOldest k y (keep (is_fresh now) m)
        × (evict_oldest limit now m ≡ Dict.delete k (keep (is_fresh now) m))
  unfolding evict_oldest
  evict_oldest-IsOldest limit now m given h full =
      let live = keep (is_fresh now) m in
      let (k, y, found, oldest) = scan_oldest-IsOldest live (omega arith) in
      (
        k,
        y,
        oldest,
        ground (
          arith,
          found,
          key_given k y live (All-keep (λ b. (b.0 == "") ≡ false) (is_fresh now) m given) oldest.0,
        ),
      )

  pub length-evict_oldest :
      (limit now : ℕ) (m : List (String × MemoryEntry V))
      → KeysGiven m
      → Dict.IsUnique m
      → 0 < limit
      → length m ≤ limit
      → length (evict_oldest limit now m) < limit
  length-evict_oldest limit now m given unique h le =
      let live = keep (is_fresh now) m in
      elim (Bool-cases (leb limit (length live))) [
        | inl full ↦
            let (k, y, oldest, same) =
              evict_oldest-IsOldest limit now m given h (leb→le _ _ full) in
            rw same (
              ground (
                arith,
                has-Holds k y live oldest.0,
                length-delete k live (keep-IsUnique (is_fresh now) m unique),
                length-keep-le (is_fresh now) m,
              ))
        | inr room ↦ unfold evict_oldest in rw room (leb→lt _ _ room)
      ]
