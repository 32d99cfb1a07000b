-- ===== src/RequestIds/Placed.antt =====
-- mcp/core/RequestIdMapper.ts: when the map of the downstream ids leads to a request under its key.
use peta_core.Prelude.{
  ℕ, text_eq, Option, List, arith, if◌then◌else◌, none, some, ◌==◌, ◌≡◌, [], false, inl, inr, refl,
  ap, sym, ◌∙◌, ◌⊎◌, Bool, get_or, Bool-cases, eq_of_beq, true, subst, Bool, ◌∷◌,
}
use peta_core.Prelude.Dict
use peta_core.Prelude.Dict.{get-set, get-delete}
use peta_core.RequestIds.{
  MappingEntry, RequestId, id_eq, entry_place, downstream_key, leave, nonempty, place,
}
use peta_core.RequestIds.Agreement.{some-ne-none}

-- What a map with some keys left out leads to.
pub get-leave :
    (o : Option (List ℕ)) (k q : List ℕ) (d : List (List ℕ × List ℕ))
    → Dict.get k (leave o d) ≡ some q
    → (Dict.get k d ≡ some q) × (o ≡ some k → ⊥)
get-leave none k q d h = (h, λ e. some-ne-none (sym e))
get-leave (some j) k q d h = elim (Bool-cases (j == k)) [
  | inl same ↦ absurd (some-ne-none (sym h ∙ (rw (get-delete j k d) (rw same refl))))
  | inr ne ↦ (sym (rw (get-delete j k d) (rw ne refl)) ∙ h, λ e. different ne e)
]
  where
    different : (j == k) ≡ false → some j ≡ some k → ⊥
    different ne e = ground (arith, text_eq.beq_iff j k, ne, e)

-- A map with a key set leads it to its value, and every other key to where it led.
pub get-set_cases :
    (j k p q : List ℕ) (d : List (List ℕ × List ℕ))
    → Dict.get k (Dict.set j p d) ≡ some q
    → ((j ≡ k) × (p ≡ q)) ⊎ (Dict.get k d ≡ some q)
get-set_cases j k p q d h = chosen (j == k) refl (sym (get-set j k p d) ∙ h)
  where
    chosen :
        (b : Bool)
        → (j == k) ≡ b
        → (if b then some p else Dict.get k d) ≡ some q
        → ((j ≡ k) × (p ≡ q)) ⊎ (Dict.get k d ≡ some q)
    chosen true e h = inl (eq_of_beq j k e, ap (λ o. get_or o p) h)
    chosen false e h = inr h

pub moved_place :
    (i : RequestId) (server k : List ℕ)
    → downstream_key i server ≡ k
    → (place (some i) (nonempty (some server)) ≡ some k)
      ⊎ ((j : RequestId) × (k ≡ downstream_key j []))
moved_place i [] k e = inr (i, sym e)
moved_place i (c ∷ cs) k e = inl (ap some e)

module _ {C : Type 0} where
  abbrev pub place_of : Option (MappingEntry C) → Option (List ℕ)
  place_of none = none
  place_of (some e) = entry_place e

  -- the key of a request's downstream id
  abbrev pub placed_at : List ℕ → List (List ℕ × MappingEntry C) → Option (List ℕ)
  placed_at p entries = place_of (Dict.get p entries)

  -- The request is registered under the key, or the key is one of a server without a name.
  abbrev pub IsPlaced : List ℕ → List ℕ → List (List ℕ × MappingEntry C) → Type 0
  IsPlaced k p entries =
      (placed_at p entries ≡ some k) ⊎ ((i : RequestId) × (k ≡ downstream_key i []))

  abbrev pub Placed : List (List ℕ × List ℕ) → List (List ℕ × MappingEntry C) → Type 0
  Placed down entries = (k p : List ℕ) → Dict.get k down ≡ some p → IsPlaced k p entries

  pub placed_at-set :
      (p q : List ℕ) (e : MappingEntry C) (m : List (List ℕ × MappingEntry C))
      → placed_at q (Dict.set p e m) ≡ (if p == q then entry_place e else placed_at q m)
  placed_at-set p q e m = ap place_of (get-set p q e m) ∙ branches (p == q)
    where
      branches :
          (b : Bool)
          → place_of (if b then some e else Dict.get q m)
            ≡ (if b then entry_place e else placed_at q m)
      branches true = refl
      branches false = refl

  -- A request whose entry's place is the same, or whose entry's place is in no key, stays placed.
  pub set-IsPlaced :
      (k p q : List ℕ) (e : MappingEntry C) (m : List (List ℕ × MappingEntry C))
      → ((p == q) ≡ true → placed_at q m ≡ some k → entry_place e ≡ some k)
      → IsPlaced k q m
      → IsPlaced k q (Dict.set p e m)
  set-IsPlaced k p q e m f (inr named) = inr named
  set-IsPlaced k p q e m f (inl h) = inl (
      placed_at-set p q e m
      ∙ (elim (Bool-cases (p == q)) [ inl same ↦ rw same (f same h) | inr ne ↦ rw ne h ]))

  pub delete-IsPlaced :
      (k p q : List ℕ) (m : List (List ℕ × MappingEntry C))
      → (placed_at p m ≡ some k → ⊥)
      → IsPlaced k q m
      → IsPlaced k q (Dict.delete p m)
  delete-IsPlaced k p q m f (inr named) = inr named
  delete-IsPlaced k p q m f (inl h) = elim (Bool-cases (p == q)) [
    | inl same ↦ absurd (f (subst (λ x. placed_at x m ≡ some k) (sym (eq_of_beq p q same)) h))
    | inr ne ↦ inl (ap place_of (get-delete p q m) ∙ rw ne h)
  ]
