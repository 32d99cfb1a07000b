-- ===== src/Approval/Hasher/Order.antt =====
-- An order of keys for runs of mcp/services/ApprovalRequestHasher.ts: texts in the order of their
-- characters' codes.
use Prim.Native.Char.{Char, code}
use text.Mathlib.TextEquality.{codes_equal}
use peta_core.Prelude.{
  String, Bool, Bool-cases, ap, arith, false, inl, inr, ltb, nat_beq, refl, subst, true, ◌&&◌, ◌||◌,
  ◌≡◌, ◌⊎◌,
}
use peta_core.Approval.Hasher.{KeyOrder}

unfoldable pub before : String → String → Bool
before String.[] String.[] = false
before String.[] (String.◌∷◌ d t) = true
before (String.◌∷◌ c s) String.[] = false
before (String.◌∷◌ c s) (String.◌∷◌ d t) =
    let rest = before s t in ltb (code c) (code d) || (nat_beq (code c) (code d) && rest)

same_head :
    (c d : Char) (s t : String)
    → c ≡ d
    → (before s t ≡ true) ⊎ (before t s ≡ true) ⊎ (s ≡ t)
    → (before (String.◌∷◌ c s) (String.◌∷◌ d t) ≡ true)
      ⊎ (before (String.◌∷◌ d t) (String.◌∷◌ c s) ≡ true)
      ⊎ (String.◌∷◌ c s ≡ String.◌∷◌ d t)
unfolding before
same_head c d s t e h =
    subst
      (λ x.
        (before (String.◌∷◌ c s) (String.◌∷◌ x t) ≡ true)
        ⊎ (before (String.◌∷◌ x t) (String.◌∷◌ c s) ≡ true)
        ⊎ (String.◌∷◌ c s ≡ String.◌∷◌ x t))
      e
      (elim h [
        | inl f ↦ inl (ground (arith, f))
        | inr (inl f) ↦ inr (inl (ground (arith, f)))
        | inr (inr f) ↦ inr (inr (ap (λ u. String.◌∷◌ c u) f))
      ])

pub before-total : (s t : String) → (before s t ≡ true) ⊎ (before t s ≡ true) ⊎ (s ≡ t)
unfolding before
before-total String.[] String.[] = inr (inr refl)
before-total String.[] (String.◌∷◌ d t) = inl refl
before-total (String.◌∷◌ c s) String.[] = inr (inl refl)
before-total (String.◌∷◌ c s) (String.◌∷◌ d t) = elim (Bool-cases (ltb (code c) (code d))) [
  | inl e ↦ inl (ground arith)
  | inr e ↦ elim (Bool-cases (ltb (code d) (code c))) [
    | inl f ↦ inr (inl (ground arith))
    | inr f ↦ same_head c d s t (codes_equal c d (ground arith)) (before-total s t)
  ]
]

pub before-asym : (s t : String) → before s t ≡ true → before t s ≡ false
unfolding before
before-asym String.[] String.[] h = refl
before-asym String.[] (String.◌∷◌ d t) h = refl
before-asym (String.◌∷◌ c s) String.[] h = cc
before-asym (String.◌∷◌ c s) (String.◌∷◌ d t) h = ground (arith, before-asym s t)

pub before_trans : (s t u : String) → before s t ≡ true → before t u ≡ true → before s u ≡ true
unfolding before
before_trans String.[] String.[] u h k = k
before_trans String.[] (String.◌∷◌ d t) String.[] h k = cc
before_trans String.[] (String.◌∷◌ d t) (String.◌∷◌ b u) h k = refl
before_trans (String.◌∷◌ c s) String.[] u h k = cc
before_trans (String.◌∷◌ c s) (String.◌∷◌ d t) String.[] h k = cc
before_trans (String.◌∷◌ c s) (String.◌∷◌ d t) (String.◌∷◌ b u) h k =
    ground (arith, before_trans s t u)

abbrev pub code_order : KeyOrder
code_order = record { lt = before; total = before-total; asym = before-asym; trans = before_trans }
