-- ===== src/Approval/Redaction/Bounds.antt =====
-- mcp/services/ApprovalService.ts, `redactArgs` and `sanitizeExecutionResult`: shapes and sizes.
use peta_core.Prelude.{
  true, leb→lt, Option, some, none, ◌<◌, string_eq, ap, arith, refl, ℕ, ◌+◌, ◌∷◌, ◌≡◌, ◌≤◌, Bool,
  Bool-cases, List, String, eq_of_beq, false, inl, inr, leb, length, ◌==◌, ◌⊎◌, leb→le, ltb, ltb→lt,
}
use peta_core.Json.{
  Value, Items, Fields, null, bool, num, str, arr, obj, nil, cons, end, field, depth, depth_fields,
  depth_items, keys, text,
}
use peta_core.Approval.Redaction.{
  redact_args, redact_item, redact_items, redact_value, max_execution_result_bytes,
  sanitize_execution_result, walk, bounded_result, unserializable, walk_fields, walk_items,
  max_depth, truncated, unavailable,
}

module _ {N : Type 0} where
  -- All keys of the arguments stay visible, in their order.
  pub keys-redact_args : (fs : Fields N) (d : ℕ) → keys (redact_args fs d) ≡ keys fs
  unfolding redact_args keys
  keys-redact_args end d = refl
  keys-redact_args (field k v fs) d = ap (◌∷◌ k) (keys-redact_args fs d)

  depth-redact_item : (v : Value N) → depth (redact_item v) ≡ 0
  unfolding depth
  depth-redact_item (str s) = refl
  depth-redact_item _ = refl

  depth-redact_items : (xs : Items N) → depth_items (redact_items xs) ≡ 0
  unfolding depth redact_items
  depth-redact_items nil = refl
  depth-redact_items (cons v xs) = omega (arith, depth-redact_item v, depth-redact_items xs)

mutual
  unfolding depth redact_value redact_items

  depth-redact_value : {N : Type 0} (v : Value N) (d : ℕ) → d ≤ 2 → depth (redact_value v d) + d ≤ 2
  depth-redact_value null d h = omega arith
  depth-redact_value (bool b) d h = omega arith
  depth-redact_value (num n) d h = omega arith
  depth-redact_value (str s) d h = omega arith
  depth-redact_value (arr xs) d h = elim (Bool-cases (ltb d max_depth)) [
    | inl e ↦ rw e (omega (arith, depth-redact_items xs, ltb→lt d max_depth e))
    | inr e ↦ rw e (omega arith)
  ]
  depth-redact_value (obj fs) d h = elim (Bool-cases (ltb d max_depth)) [
    | inl e ↦
        rw e (omega (arith, depth-redact_fields fs (d + 1) (omega (arith, ltb→lt d max_depth e))))
    | inr e ↦ rw e (omega arith)
  ]

  depth-redact_fields :
      {N : Type 0} (fs : Fields N) (d : ℕ) → d ≤ 2 → depth_fields (redact_args fs d) + d ≤ 2
  depth-redact_fields end d h = omega arith
  depth-redact_fields (field k v fs) d h =
      omega (arith, depth-redact_value v d h, depth-redact_fields fs d h)

-- The arguments that are shown nest at most two arrays or objects deep, and keep every key at the
-- top in its order.
pub redact_args_shape :
    {N : Type 0} (fs : Fields N)
    → (depth_fields (redact_args fs 0) ≤ 2) × (keys (redact_args fs 0) ≡ keys fs)
redact_args_shape fs =
    (omega (arith, depth-redact_fields fs 0 (omega arith)), keys-redact_args fs 0)

-- A value in which no key that the test calls sensitive, at any depth, holds anything but the mark.
unfoldable mutual
  pub IsClean : {N : Type 0} → (String → Bool) → Value N → Type 0
  IsClean sensitive (arr xs) = ItemsClean sensitive xs
  IsClean sensitive (obj fs) = FieldsClean sensitive fs
  IsClean sensitive null = Unit
  IsClean sensitive (bool b) = Unit
  IsClean sensitive (num n) = Unit
  IsClean sensitive (str s) = Unit

  pub ItemsClean : {N : Type 0} → (String → Bool) → Items N → Type 0
  ItemsClean sensitive nil = Unit
  ItemsClean sensitive (cons v xs) = IsClean sensitive v × ItemsClean sensitive xs

  pub FieldsClean : {N : Type 0} → (String → Bool) → Fields N → Type 0
  FieldsClean sensitive end = Unit
  FieldsClean sensitive (field k v fs) =
      ((k ≡ "") ⊎ (sensitive k ≡ false) ⊎ (v ≡ text "[redacted]"))
      × IsClean sensitive v
      × FieldsClean sensitive fs

mutual
  unfolding walk IsClean

  walk-IsClean : {N : Type 0} (p : String → Bool) (v : Value N) → IsClean p (walk p v)
  walk-IsClean p null = tt
  walk-IsClean p (bool b) = tt
  walk-IsClean p (num n) = tt
  walk-IsClean p (str s) = tt
  walk-IsClean p (arr xs) = walk-ItemsClean p xs
  walk-IsClean p (obj fs) = walk-FieldsClean p fs

  walk-ItemsClean : {N : Type 0} (p : String → Bool) (xs : Items N) → ItemsClean p (walk_items p xs)
  walk-ItemsClean p nil = tt
  walk-ItemsClean p (cons v xs) = (walk-IsClean p v, walk-ItemsClean p xs)

  walk-FieldsClean :
      {N : Type 0} (p : String → Bool) (fs : Fields N) → FieldsClean p (walk_fields p fs)
  walk-FieldsClean p end = tt
  walk-FieldsClean p (field k v fs) = elim (Bool-cases (k == "")) [
    | inl e ↦ rw e (inl (eq_of_beq k "" e), walk-IsClean p v, walk-FieldsClean p fs)
    | inr e ↦ elim (Bool-cases (p k)) [
      | inl hot ↦ rw (e, hot) (inr (inr refl), tt, walk-FieldsClean p fs)
      | inr cold ↦ rw (e, cold) (inr (inl refl), walk-IsClean p v, walk-FieldsClean p fs)
    ]
  ]

-- The keys of the summaries are not sensitive.
abbrev pub Readable : (String → Bool) → Type 0
Readable p =
    (p "kind" ≡ false)
    × (p "preview" ≡ false)
    × (p "truncated" ≡ false)
    × (p "originalSizeBytes" ≡ false)

abbrev pub is_object : {N : Type 0} → Value N → Bool
is_object (obj fs) = true
is_object _ = false

-- The redacted result itself, whose text is no longer than the limit; the summary with the length
-- of its text, which is longer; the summary for a result that cannot be written out; or the one for
-- what is not an object.
abbrev pub Stores :
    {N : Type 0}
    → (ℕ → N)
    → (Value N → Option (List ℕ))
    → (String → Bool)
    → Value N
    → Value N
    → Type 0
Stores of_nat stringify p v stored =
    ((stored ≡ walk p v)
      × ((raw : List ℕ) × ((stringify stored ≡ some raw) × (length raw ≤ 65536))))
    ⊎ ((raw : List ℕ) × ((stringify (walk p v) ≡ some raw)
          × (65536 < length raw)
          × (stored ≡ truncated of_nat stringify p raw)))
    ⊎ ((stringify (walk p v) ≡ none) × (stored ≡ unserializable of_nat stringify p))
    ⊎ ((is_object v ≡ false) × (stored ≡ unavailable of_nat stringify p))

bounded_result-Stores :
    {N : Type 0} (of_nat : ℕ → N) (stringify : Value N → Option (List ℕ)) (p : String → Bool)
    (v : Value N) (o : Option (List ℕ))
    → Readable p
    → stringify (walk p v) ≡ o
    → IsClean p (bounded_result of_nat stringify p (walk p v) o)
      × Stores of_nat stringify p v (bounded_result of_nat stringify p (walk p v) o)
unfolding IsClean
bounded_result-Stores of_nat stringify p v none (k, w, t, o) e =
    ((inr (inl k), tt, (inr (inl w), tt, (inr (inl t), tt, tt))), inr (inr (inl (e, refl))))
bounded_result-Stores of_nat stringify p v (some raw) (k, w, t, o) e =
    elim (Bool-cases (leb (length raw) max_execution_result_bytes)) [
      | inl small ↦ rw small (walk-IsClean p v, inl (refl, (raw, (e, leb→le _ _ small))))
      | inr large ↦ rw large (
        (inr (inl k), tt, (inr (inl w), tt, (inr (inl t), tt, (inr (inl o), tt, tt)))),
        inr (inl (raw, (e, leb→lt _ _ large, refl))),
      )
    ]

unavailable-Stores :
    {N : Type 0} (of_nat : ℕ → N) (stringify : Value N → Option (List ℕ)) (p : String → Bool)
    (v : Value N)
    → Readable p
    → is_object v ≡ false
    → IsClean p (unavailable of_nat stringify p)
      × Stores of_nat stringify p v (unavailable of_nat stringify p)
unfolding IsClean
unavailable-Stores of_nat stringify p v (k, w, t, o) e =
    ((inr (inl k), tt, (inr (inl w), tt, (inr (inl t), tt, tt))), inr (inr (inr (e, refl))))

-- Whatever a tool returned, what is stored of it is clean of sensitive keys. It is the redacted
-- result, if its text is no longer than the limit; else one of three summaries: of a text that is
-- longer, of a result that cannot be written out, or of what is not an object. The test of a key
-- does not find the summaries' own keys sensitive.
pub sanitize_execution_result-IsClean :
    {N : Type 0} (of_nat : ℕ → N) (stringify : Value N → Option (List ℕ)) (p : String → Bool)
    (v : Value N)
    → Readable p
    → IsClean p (sanitize_execution_result of_nat stringify p v)
      × Stores of_nat stringify p v (sanitize_execution_result of_nat stringify p v)
unfolding sanitize_execution_result
sanitize_execution_result-IsClean of_nat stringify p (obj fs) r =
    bounded_result-Stores of_nat stringify p (obj fs) (stringify (walk p (obj fs))) r refl
sanitize_execution_result-IsClean of_nat stringify p null r =
    unavailable-Stores of_nat stringify p null r refl
sanitize_execution_result-IsClean of_nat stringify p (bool b) r =
    unavailable-Stores of_nat stringify p (bool b) r refl
sanitize_execution_result-IsClean of_nat stringify p (num n) r =
    unavailable-Stores of_nat stringify p (num n) r refl
sanitize_execution_result-IsClean of_nat stringify p (str s) r =
    unavailable-Stores of_nat stringify p (str s) r refl
sanitize_execution_result-IsClean of_nat stringify p (arr xs) r =
    unavailable-Stores of_nat stringify p (arr xs) r refl
