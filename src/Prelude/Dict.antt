-- ===== src/Prelude/Dict.antt =====
-- The JavaScript `Map`: an association list in insertion order. `set` writes in place or appends,
-- `delete` drops the key, and a loop over the map visits the entries in order.
use Prim.Native.Nat.{suc}
use mathlib.Core.Path.{◌≡◌, refl, ap, ◌∙◌}
use mathlib.Core.Bool.{Bool, true, false}
use mathlib.Core.Option.{Option, none, some}
use mathlib.Core.List.{List, [], ◌∷◌}
use native.Mathlib.Omega.{arith}
use peta_core.Prelude.Tests.{Eq, ◌==◌, if◌then◌else◌, is_some}
use peta_core.Prelude.Lists.{length, keep}

module _ {ℓ κ} {K : Type ℓ} {V : Type κ} ⦃e : Eq K⦄ where
  unfoldable pub get : K → List (K × V) → Option V
  get k [] = none
  get k ((j, v) ∷ m) = if j == k then some v else get k m

  abbrev pub has : K → List (K × V) → Bool
  has k m = is_some (get k m)

  unfoldable pub set : K → V → List (K × V) → List (K × V)
  set k v [] = (k, v) ∷ []
  set k v ((j, w) ∷ m) = if j == k then (j, v) ∷ m else (j, w) ∷ set k v m

  unfoldable pub delete : K → List (K × V) → List (K × V)
  delete k [] = []
  delete k ((j, v) ∷ m) = if j == k then delete k m else (j, v) ∷ delete k m

  -- No key occurs twice.
  abbrev pub IsUnique : List (K × V) → Type κ
  IsUnique [] = Unit
  IsUnique ((k, v) ∷ m) = (get k m ≡ none) × IsUnique m

  pub get-set :
      (k j : K) (v : V) (m : List (K × V))
      → get j (set k v m) ≡ (if k == j then some v else get j m)
  unfolding get set
  get-set k j v [] = refl
  get-set k j v ((i, w) ∷ m) =
      ground (arith, e.beq_iff k j, e.beq_iff i k, e.beq_iff i j, get-set k j v m)

  pub get-delete :
      (k j : K) (m : List (K × V)) → get j (delete k m) ≡ (if k == j then none else get j m)
  unfolding get delete
  get-delete k j [] = ground arith
  get-delete k j ((i, w) ∷ m) =
      ground (arith, e.beq_iff k j, e.beq_iff i k, e.beq_iff i j, get-delete k j m)

  pub has-set :
      (k j : K) (v : V) (m : List (K × V)) → has j (set k v m) ≡ (if k == j then true else has j m)
  has-set k j v m = ap is_some (get-set k j v m) ∙ is_some-if (k == j) (get j m)
    where
      is_some-if :
          (b : Bool) (o : Option V)
          → is_some (if b then some v else o) ≡ (if b then true else is_some o)
      is_some-if true o = refl
      is_some-if false o = refl

  pub has-delete :
      (k j : K) (m : List (K × V)) → has j (delete k m) ≡ (if k == j then false else has j m)
  has-delete k j m = ap is_some (get-delete k j m) ∙ is_some-if (k == j) (get j m)
    where
      is_some-if :
          (b : Bool) (o : Option V)
          → is_some (if b then none else o) ≡ (if b then false else is_some o)
      is_some-if true o = refl
      is_some-if false o = refl

  pub set-IsUnique : (k : K) (v : V) (m : List (K × V)) → IsUnique m → IsUnique (set k v m)
  unfolding get set
  set-IsUnique k v [] h = (refl, tt)
  set-IsUnique k v ((i, w) ∷ m) h =
      ground (arith, e.beq_iff i k, e.beq_iff k i, get-set k i v m, set-IsUnique k v m h.1)

  pub delete-IsUnique : (k : K) (m : List (K × V)) → IsUnique m → IsUnique (delete k m)
  unfolding get delete
  delete-IsUnique k [] h = tt
  delete-IsUnique k ((i, w) ∷ m) h = ground (arith, get-delete k i m, delete-IsUnique k m h.1)

  pub length-set :
      (k : K) (v : V) (m : List (K × V))
      → length (set k v m) ≡ (if has k m then length m else suc (length m))
  unfolding get set
  length-set k v [] = refl
  length-set k v ((i, w) ∷ m) = ground (arith, length-set k v m)

  pub delete_absent : (k : K) (m : List (K × V)) → get k m ≡ none → delete k m ≡ m
  unfolding get delete
  delete_absent k [] h = refl
  delete_absent k ((i, w) ∷ m) h = ground (arith, delete_absent k m)

  -- With unique keys a deletion drops one entry, if the key is there.
  pub length-delete :
      (k : K) (m : List (K × V))
      → IsUnique m
      → (if has k m then suc (length (delete k m)) else length (delete k m)) ≡ length m
  unfolding get delete
  length-delete k [] h = refl
  length-delete k ((i, w) ∷ m) h =
      ground (arith, e.beq_iff i k, length-delete k m h.1, delete_absent k m)

  pub keep-get-none :
      (p : K × V → Bool) (k : K) (m : List (K × V)) → get k m ≡ none → get k (keep p m) ≡ none
  unfolding get keep
  keep-get-none p k [] h = refl
  keep-get-none p k ((i, w) ∷ m) h = ground (arith, keep-get-none p k m)

  -- What is left of an entry when the entries that fail a test are dropped.
  abbrev pub kept : (K × V → Bool) → K → Option V → Option V
  kept p k none = none
  kept p k (some v) = if p (k, v) then some v else none

  pub get-keep :
      (p : K × V → Bool) (k : K) (m : List (K × V))
      → IsUnique m
      → get k (keep p m) ≡ kept p k (get k m)
  unfolding get keep
  get-keep p k [] h = refl
  get-keep p k ((i, w) ∷ m) h =
      ground (arith, e.beq_iff i k, get-keep p k m h.1, keep-get-none p k m)

  pub keep-IsUnique : (p : K × V → Bool) (m : List (K × V)) → IsUnique m → IsUnique (keep p m)
  unfolding get keep
  keep-IsUnique p [] h = tt
  keep-IsUnique p ((i, w) ∷ m) h = ground (arith, keep-get-none p i m, keep-IsUnique p m h.1)
