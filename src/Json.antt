-- ===== src/Json.antt =====
-- The values of JavaScript that the gateway handles as `unknown`: what JSON can write. A number is
-- of any type `N`, a text is its UTF-16 code units, a key is compared whole.
use Prim.Native.Char.{code}
use peta_core.Prelude.{
  ℕ, suc, max, String, Bool, List, [], ◌∷◌, ◌++◌, if◌then◌else◌, ltb, zero, ◌%◌, ◌+◌, ◌/◌,
}

mutual
  pub data Value (N : Type 0) : Type 0 where
    null : Value N
    bool : Bool → Value N
    num : N → Value N
    str : List ℕ → Value N
    arr : Items N → Value N
    obj : Fields N → Value N

  pub data Items (N : Type 0) : Type 0 where
    nil : Items N
    cons : Value N → Items N → Items N

  pub data Fields (N : Type 0) : Type 0 where
    end : Fields N
    field : String → Value N → Fields N → Fields N

-- The code units of a text of the source, which is ASCII.
abbrev pub codes : String → List ℕ
codes String.[] = []
codes (String.◌∷◌ c s) = code c ∷ codes s

module _ {N : Type 0} where
  abbrev pub text : String → Value N
  text s = str (codes s)

  unfoldable pub size_items : Items N → ℕ
  size_items nil = 0
  size_items (cons v xs) = suc (size_items xs)

  unfoldable pub keys : Fields N → List String
  keys end = []
  keys (field k v fs) = k ∷ keys fs

-- The digits of a number, as `${n}` writes it; `n + 1` rounds are enough for `n`.
digits_from : ℕ → ℕ → List ℕ
digits_from zero n = []
digits_from (suc f) n =
    let rest = digits_from f (n / 10) in
    if ltb n 10 then (b'0' + n) ∷ [] else rest ++ (b'0' + n % 10) ∷ []

unfoldable pub show : ℕ → List ℕ
unfolding digits_from
show n = digits_from (suc n) n

-- How deep arrays and objects are nested.
unfoldable mutual
  pub depth : {N : Type 0} → Value N → ℕ
  depth (arr xs) = suc (depth_items xs)
  depth (obj fs) = suc (depth_fields fs)
  depth _ = 0

  pub depth_items : {N : Type 0} → Items N → ℕ
  depth_items nil = 0
  depth_items (cons v xs) = max (depth v) (depth_items xs)

  pub depth_fields : {N : Type 0} → Fields N → ℕ
  depth_fields end = 0
  depth_fields (field k v fs) = max (depth v) (depth_fields fs)
