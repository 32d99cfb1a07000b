-- ===== src/Approval/Redaction.antt =====
-- mcp/services/ApprovalService.ts: what is shown of a call's arguments (`redactArgs`) and kept of
-- its result (`sanitizeExecutionResult`). `undefined` and values that JSON cannot write do not occur.
pub mod Bounds
use peta_core.Prelude.{
  string_eq, Bool, List, String, false, if◌then◌else◌, leb, length, ltb, not, take, true, ℕ, ◌&&◌,
  ◌++◌, ◌+◌, ◌==◌, Option, none, some,
}
use peta_core.Json.{
  Value, Items, Fields, null, bool, num, str, arr, obj, nil, cons, end, field, codes, depth, show,
  size_items, text,
}

abbrev pub max_string_length : ℕ
max_string_length = 100

abbrev pub max_depth : ℕ
max_depth = 2

abbrev pub max_execution_result_bytes : ℕ
max_execution_result_bytes = 65536

abbrev pub max_preview_chars : ℕ
max_preview_chars = 280

abbrev pub shorten : List ℕ → List ℕ
shorten s = if ltb max_string_length (length s) then take max_string_length s ++ codes "..." else s

module _ {N : Type 0} where
  abbrev pub redact_item : Value N → Value N
  redact_item null = null
  redact_item (bool b) = bool b
  redact_item (num n) = num n
  redact_item (str s) = str (shorten s)
  redact_item (arr xs) = text "[object]"
  redact_item (obj fs) = text "[object]"

  unfoldable pub redact_items : Items N → Items N
  redact_items nil = nil
  redact_items (cons v xs) = cons (redact_item v) (redact_items xs)

unfoldable mutual
  pub redact_value : {N : Type 0} → Value N → ℕ → Value N
  redact_value null depth = null
  redact_value (bool b) depth = bool b
  redact_value (num n) depth = num n
  redact_value (str s) depth = str (shorten s)
  redact_value (arr xs) depth =
      if ltb depth max_depth
      then arr (redact_items xs)
      else str (codes "[Array(" ++ show (size_items xs) ++ codes ")]")
  redact_value (obj fs) depth =
      let inner = redact_args fs (depth + 1) in
      if ltb depth max_depth then obj inner else text "[object]"

  pub redact_args : {N : Type 0} → Fields N → ℕ → Fields N
  redact_args end depth = end
  redact_args (field k v fs) depth = field k (redact_value v depth) (redact_args fs depth)

-- The regular expression's test of a key is a parameter: it is the engine's.
unfoldable mutual
  pub walk : {N : Type 0} → (String → Bool) → Value N → Value N
  walk sensitive (arr xs) = arr (walk_items sensitive xs)
  walk sensitive (obj fs) = obj (walk_fields sensitive fs)
  walk sensitive null = null
  walk sensitive (bool b) = bool b
  walk sensitive (num n) = num n
  walk sensitive (str s) = str s

  pub walk_items : {N : Type 0} → (String → Bool) → Items N → Items N
  walk_items sensitive nil = nil
  walk_items sensitive (cons v xs) = cons (walk sensitive v) (walk_items sensitive xs)

  pub walk_fields : {N : Type 0} → (String → Bool) → Fields N → Fields N
  walk_fields sensitive end = end
  walk_fields sensitive (field k v fs) =
      field k (if not (k == "") && sensitive k then text "[redacted]" else walk sensitive v)
        (walk_fields sensitive fs)

-- `stringify` is none where `JSON.stringify` throws.
module _ {N : Type 0} (of_nat : ℕ → N) (stringify : Value N → Option (List ℕ))
    (sensitive : String → Bool) where
  abbrev pub unavailable : Value N
  unavailable = obj (
      field "kind" (text "execution_result_unavailable") (
        field "preview" (text "Execution result is unavailable for replay.")
          (field "truncated" (bool false) end)))

  abbrev pub truncated : List ℕ → Value N
  truncated raw = obj (
      field "kind" (text "execution_result_truncated") (
        field "preview" (str (take max_preview_chars raw)) (
          field "truncated" (bool true)
            (field "originalSizeBytes" (num (of_nat (length raw))) end))))

  abbrev pub unserializable : Value N
  unserializable = obj (
      field "kind" (text "execution_result_unserializable") (
        field "preview" (text "Execution result could not be serialized safely.")
          (field "truncated" (bool false) end)))

  -- from the redacted result and its text
  abbrev pub bounded_result : Value N → Option (List ℕ) → Value N
  bounded_result redacted none = unserializable
  bounded_result redacted (some raw) =
      if leb (length raw) max_execution_result_bytes then redacted else truncated raw

  unfoldable pub sanitize_execution_result : Value N → Value N
  sanitize_execution_result (obj fs) =
      bounded_result (walk sensitive (obj fs)) (stringify (walk sensitive (obj fs)))
  sanitize_execution_result null = unavailable
  sanitize_execution_result (bool b) = unavailable
  sanitize_execution_result (num n) = unavailable
  sanitize_execution_result (str s) = unavailable
  sanitize_execution_result (arr xs) = unavailable
