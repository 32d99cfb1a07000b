-- ===== src/Prelude/Sort.antt =====
-- `[...xs].sort(compare)`, which is stable, and the search for the first element that passes a test.
use mathlib.Core.Path.{◌≡◌, subst}
use mathlib.Core.Logic.{◌↔◌, inl, inr}
use mathlib.Core.Bool.{Bool, true, false}
use mathlib.Core.Option.{Option, none, some}
use mathlib.Core.List.{List, [], ◌∷◌, Mem, mem-cons_self, mem-cons_of_mem}
use native.Mathlib.Omega.{arith}
use peta_core.Prelude.Tests.{if◌then◌else◌, Bool-cases}
use peta_core.Prelude.Lists.{All, All-find, find, find-holds}

module _ {A : Type 0} where
  pub All-weaken : (P Q : A → Type 0) (xs : List A) → ((x : A) → P x → Q x) → All P xs → All Q xs
  All-weaken P Q [] f h = tt
  All-weaken P Q (x ∷ xs) f h = (f x h.0, All-weaken P Q xs f h.1)

  Mem-self : (xs : List A) → All (λ x. Mem x xs) xs
  Mem-self [] = tt
  Mem-self (x ∷ xs) = (
    mem-cons_self,
    All-weaken (λ y. Mem y xs) (λ y. Mem y (x ∷ xs)) xs (λ y m. mem-cons_of_mem x m) (Mem-self xs),
  )

  some_eq : (x y : A) → some x ≡ some y → x ≡ y
  some_eq x y e = cc

  find-none : (p : A → Bool) (xs : List A) → find p xs ≡ none → All (λ x. p x ≡ false) xs
  unfolding find
  find-none p [] h = tt
  find-none p (x ∷ xs) h = ground (arith, find-none p xs)

-- `before x y`: `compare(x, y) <= 0`
module _ {A : Type 0} (before : A → A → Bool) where
  unfoldable pub insert : A → List A → List A
  insert x [] = x ∷ []
  insert x (y ∷ ys) = if before x y then x ∷ y ∷ ys else y ∷ insert x ys

  unfoldable pub sort : List A → List A
  unfolding insert
  sort [] = []
  sort (x ∷ xs) = insert x (sort xs)

  -- no element stands behind one that must come after it
  abbrev pub IsSorted : List A → Type 0
  IsSorted [] = Unit
  IsSorted (x ∷ xs) = All (λ y. before x y ≡ true) xs × IsSorted xs

  -- What the search for the first passing element of a sorted list is to give: none when nothing
  -- passes, and else a listed element that passes and comes before every other one that does.
  abbrev pub IsFirst : (A → Bool) → List A → Option A → Type 0
  IsFirst p xs none = All (λ x. p x ≡ false) xs
  IsFirst p xs (some y) = Mem y xs × (p y ≡ true) × All (λ x. p x ≡ true → before y x ≡ true) xs

  All-insert : (P : A → Type 0) (x : A) (ys : List A) → All P (insert x ys) ↔ (P x × All P ys)
  unfolding insert
  All-insert P x [] = (λ h. h, λ h. h)
  All-insert P x (y ∷ ys) = elim (Bool-cases (before x y)) [
    | inl e ↦ rw e (λ h. h, λ h. h)
    | inr e ↦ rw e (
      λ h. let r = (All-insert P x ys).0 h.1 in (r.0, (h.0, r.1)),
      λ h. (h.1.0, (All-insert P x ys).1 (h.0, h.1.1)),
    )
  ]

  All-sort : (P : A → Type 0) (xs : List A) → All P (sort xs) ↔ All P xs
  unfolding sort
  All-sort P [] = (λ h. h, λ h. h)
  All-sort P (x ∷ xs) = (
    λ h. let r = (All-insert P x (sort xs)).0 h in (r.0, (All-sort P xs).0 r.1),
    λ h. (All-insert P x (sort xs)).1 (h.0, (All-sort P xs).1 h.1),
  )

  module _ (trans : (x y z : A) → before x y ≡ true → before y z ≡ true → before x z ≡ true)
      (total : (x y : A) → before x y ≡ false → before y x ≡ true) where
    insert-IsSorted : (x : A) (ys : List A) → IsSorted ys → IsSorted (insert x ys)
    unfolding insert
    insert-IsSorted x [] h = (tt, tt)
    insert-IsSorted x (y ∷ ys) h = elim (Bool-cases (before x y)) [
      | inl e ↦ rw e (
        (
          e,
          All-weaken (λ z. before y z ≡ true) (λ z. before x z ≡ true) ys (λ z k. trans x y z e k)
              h.0,
        ),
        h,
      )
      | inr e ↦ rw e (
        (All-insert (λ z. before y z ≡ true) x ys).1 (total x y e, h.0),
        insert-IsSorted x ys h.1,
      )
    ]

    sort-IsSorted : (xs : List A) → IsSorted (sort xs)
    unfolding sort
    sort-IsSorted [] = tt
    sort-IsSorted (x ∷ xs) = insert-IsSorted x (sort xs) (sort-IsSorted xs)

    itself : (x : A) → before x x ≡ true
    itself x = elim (Bool-cases (before x x)) [ inl e ↦ e | inr e ↦ total x x e ]

    find-IsSorted :
        (p : A → Bool) (xs : List A) (y : A)
        → IsSorted xs
        → find p xs ≡ some y
        → All (λ x. p x ≡ true → before y x ≡ true) xs
    unfolding find
    find-IsSorted p [] y d h = tt
    find-IsSorted p (x ∷ xs) y d h = elim (Bool-cases (p x)) [
      | inl e ↦
          subst (λ z. All (λ t. p t ≡ true → before z t ≡ true) (x ∷ xs))
            (some_eq x y (ground arith))
            (
              (λ m. itself x),
              All-weaken (λ t. before x t ≡ true) (λ t. p t ≡ true → before x t ≡ true) xs
                  (λ t k m. k) d.0,
            )
      | inr e ↦ ((λ m. ground arith), find-IsSorted p xs y d.1 (ground arith))
    ]

    -- Searching the sorted list gives the first passing element of the list.
    pub find-sort :
        (p : A → Bool) (xs : List A) (o : Option A) → find p (sort xs) ≡ o → IsFirst p xs o
    find-sort p xs none h = (All-sort (λ x. p x ≡ false) xs).0 (find-none p (sort xs) h)
    find-sort p xs (some y) h = (
      All-find (λ x. Mem x xs) p (sort xs) y ((All-sort (λ x. Mem x xs) xs).1 (Mem-self xs)) h,
      find-holds p (sort xs) y h,
      (All-sort (λ x. p x ≡ true → before y x ≡ true) xs).0
          (find-IsSorted p (sort xs) y (sort-IsSorted xs) h),
    )
