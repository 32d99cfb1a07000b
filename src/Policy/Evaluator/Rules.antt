-- ===== src/Policy/Evaluator/Rules.antt =====
-- mcp/services/PolicyDslEvaluator.ts: rules, and what they are evaluated on.
use peta_core.Prelude.{ℕ, String, List, Bool, Option}
use peta_core.Json.{Value, Fields}

pub record Runtime (N : Type 0) : Type 0 where
  pub to_string : Option (Value N) → List ℕ
  -- `Number(v)` and `parseFloat(s)`, none where they give NaN
  pub to_number : Option (Value N) → Option N
  pub parse_float : List ℕ → Option N
  pub less : N → N → Bool
  pub same_number : N → N → Bool
  pub is_zero : N → Bool
  pub byte_length : List ℕ → N
  -- `new URL(s).hostname`, none where it throws
  pub hostname : List ℕ → Option (List ℕ)
  -- `new RegExp(p).test(s)`, none where the pattern is refused
  pub regex_test : List ℕ → List ℕ → Option Bool
  -- whether two arrays or two objects are one and the same
  pub same_object : Value N → Value N → Bool
  -- a property of an object or array that is not a field of its own
  pub inherited : Value N → List ℕ → Option (Value N)

pub data Decision : Type 0 where
  allow require_approval deny : Decision

pub data Kind : Type 0 where
  as_string as_number as_boolean url_host bytes_length : Kind

pub data Op : Type 0 where
  eq neq gt gte lt lte in_list not_in matches : Op

pub record Extractor : Type 0 where
  pub path : List ℕ
  pub kind : Kind

pub record Condition (N : Type 0) : Type 0 where
  pub left : List ℕ
  pub op : Op
  pub right : Value N

pub record Rule (N : Type 0) : Type 0 where
  pub id : String
  pub priority : Option ℕ
  pub tool : Option (List ℕ)
  pub server : Option (List ℕ)
  pub extract : List (String × Extractor)
  pub conditions : List (Condition N)
  pub decision : Decision
  pub reason : Option String

pub record Context (N : Type 0) : Type 0 where
  pub server_id : Option (List ℕ)
  pub tool_name : List ℕ
  pub args : Fields N

pub record Evaluation : Type 0 where
  pub decision : Decision
  pub matched_rule : Option String
  pub reason : Option String
