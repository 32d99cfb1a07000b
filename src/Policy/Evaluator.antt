-- ===== src/Policy/Evaluator.antt =====
-- mcp/services/PolicyDslEvaluator.ts: which rule of a set applies to a tool call.
-- An absent or `undefined` value is `none`. A priority is a natural number. `Runtime` holds what
-- JavaScript itself supplies: number conversions, regular expressions, URLs, inherited properties.
mod Rules
pub mod First
unfoldable pub use Rules.*
use mathlib.Core.Option
use peta_core.Prelude.{
  string_eq, text_eq, ℕ, String, List, Bool, Option, [], all, false, find, get_or, if◌then◌else◌,
  leb, length, ltb, map, nat_beq, none, not, some, sort, true, ◌&&◌, ◌+◌, ◌==◌, ◌||◌, ◌∷◌,
}
use peta_core.Text.{split_on}
use peta_core.Json.{
  Value, Fields, Items, arr, bool, codes, cons, end, field, nil, null, num, obj, str,
}
use peta_core.Policy.Glob.{match_glob}

abbrev pub max_pattern_length : ℕ
max_pattern_length = 512

abbrev pub max_subject_length : ℕ
max_subject_length = 4096

abbrev glob_admits : Option (List ℕ) → List ℕ → Bool
glob_admits none value = true
glob_admits (some pattern) value = match_glob pattern value

abbrev server_admits : Option (List ℕ) → Option (List ℕ) → Bool
server_admits none server = true
server_admits (some pattern) none = false
server_admits (some pattern) (some server) = match_glob pattern server

abbrev pub lower : ℕ → ℕ
lower c = if leb b'A' c && leb c b'Z' then c + 32 else c

module _ {N : Type 0} where
  unfoldable pub matches_rule : Rule N → Context N → Bool
  matches_rule rule c = server_admits rule.server c.server_id && glob_admits rule.tool c.tool_name

  unfoldable pub own_field : List ℕ → Fields N → Option (Value N)
  own_field name end = none
  own_field name (field k v fs) = if codes k == name then some v else own_field name fs

  -- later fields replace earlier ones of the same name
  unfoldable pub put_field : String → Value N → Fields N → Fields N
  put_field name value end = field name value end
  put_field name value (field k v fs) =
      if k == name then field k value fs else field k v (put_field name value fs)

  abbrev pub answer : Option (Rule N) → Evaluation
  answer none = record { decision = allow; matched_rule = none; reason = none }
  answer (some rule) = record {
    decision = rule.decision;
    matched_rule = some rule.id;
    reason = rule.reason;
  }

  unfoldable pub includes : (Value N → Bool) → Items N → Bool
  includes is nil = false
  includes is (cons v vs) = is v || includes is vs

abbrev pub rank : {N : Type 0} → Rule N → ℕ
rank rule = get_or rule.priority 1000

abbrev pub by_priority : {N : Type 0} → Rule N → Rule N → Bool
by_priority r s = leb (rank r) (rank s)

module _ {N : Type 0} (rt : Runtime N) where
  abbrev pub or_inherited : Option (Value N) → Value N → List ℕ → Option (Value N)
  or_inherited (some v) owner name = some v
  or_inherited none owner name = rt.inherited owner name

  abbrev pub member : Option (Value N) → List ℕ → Option (Value N)
  member (some (obj fs)) name = or_inherited (own_field name fs) (obj fs) name
  member (some (arr xs)) name = rt.inherited (arr xs) name
  member _ name = none

  unfoldable pub follow : Option (Value N) → List (List ℕ) → Option (Value N)
  follow current [] = current
  follow current (name ∷ names) = follow (member current name) names

  unfoldable pub extract_by_path : Option (Value N) → List ℕ → Option (Value N)
  unfolding follow
  extract_by_path v [] = v
  extract_by_path v (c ∷ cs) = follow v (split_on b'.' (c ∷ cs))

  abbrev pub truthy : Value N → Bool
  truthy null = false
  truthy (bool b) = b
  truthy (num n) = not (rt.is_zero n)
  truthy (str []) = false
  truthy (str (c ∷ cs)) = true
  truthy (arr xs) = true
  truthy (obj fs) = true

  abbrev pub to_boolean : Value N → Bool
  to_boolean (str s) =
      if map lower s == codes "true"
      then true
      else if map lower s == codes "false"
      then false
      else truthy (str s)
  to_boolean v = truthy v

  unfoldable pub coerce_type : Value N → Kind → Option (Value N)
  coerce_type v as_string = some (str (rt.to_string (some v)))
  coerce_type v as_number = Option.map num (rt.parse_float (rt.to_string (some v)))
  coerce_type v as_boolean = some (bool (to_boolean v))
  coerce_type v url_host = Option.map str (rt.hostname (rt.to_string (some v)))
  coerce_type v bytes_length = some (num (rt.byte_length (rt.to_string (some v))))

  abbrev pub coerce_found : Option (Value N) → Kind → Option (Value N)
  coerce_found none kind = none
  coerce_found (some v) kind = coerce_type v kind

  abbrev pub put_found : String → Option (Value N) → Fields N → Fields N
  put_found name none fs = fs
  put_found name (some v) fs = put_field name v fs

  -- the fields of a scope once the extracted variables are spread over it
  unfoldable pub extract_variables : List (String × Extractor) → Fields N → Fields N → Fields N
  unfolding extract_by_path coerce_type
  extract_variables [] args scope = scope
  extract_variables ((name, x) ∷ xs) args scope =
      extract_variables xs args
        (put_found name (coerce_found (extract_by_path (some (obj args)) x.path) x.kind) scope)

  abbrev pub condition_scope : Rule N → Fields N → Fields N
  condition_scope rule args = put_field "args" (obj args) (extract_variables rule.extract args args)

  abbrev pub resolve_text : List ℕ → Fields N → Option (Value N)
  resolve_text [] scope = some (str [])
  resolve_text (c ∷ cs) scope =
      if nat_beq c b'$' then extract_by_path (some (obj scope)) cs else some (str (c ∷ cs))

  unfoldable pub resolve_operand : Value N → Fields N → Option (Value N)
  resolve_operand (str s) scope = resolve_text s scope
  resolve_operand v scope = some v

  abbrev pub same_value : Value N → Value N → Bool
  same_value null null = true
  same_value (bool true) (bool b) = b
  same_value (bool false) (bool b) = not b
  same_value (num n) (num m) = rt.same_number n m
  same_value (str s) (str t) = s == t
  same_value (arr xs) (arr ys) = rt.same_object (arr xs) (arr ys)
  same_value (obj fs) (obj gs) = rt.same_object (obj fs) (obj gs)
  same_value v w = false

  -- `===`
  abbrev pub strict_equal : Option (Value N) → Option (Value N) → Bool
  strict_equal none none = true
  strict_equal (some v) (some w) = same_value v w
  strict_equal _ _ = false

  abbrev pub compare_numbers : (N → N → Bool) → Option N → Option N → Bool
  compare_numbers test (some n) (some m) = test n m
  compare_numbers test _ _ = false

  -- Whether a list holds the value; none if it is no list.
  abbrev pub holds : Option (Value N) → Option (Value N) → Option Bool
  holds (some (arr xs)) v = some (includes (λ x. strict_equal (some x) v) xs)
  holds _ v = none

  unfoldable pub evaluate_condition : Option (Value N) → Op → Option (Value N) → Bool
  evaluate_condition l eq r = strict_equal l r
  evaluate_condition l neq r = not (strict_equal l r)
  evaluate_condition l gt r = compare_numbers (λ n m. rt.less m n) (rt.to_number l) (rt.to_number r)
  evaluate_condition l gte r =
      compare_numbers (λ n m. rt.less m n || rt.same_number n m) (rt.to_number l) (rt.to_number r)
  evaluate_condition l lt r = compare_numbers rt.less (rt.to_number l) (rt.to_number r)
  evaluate_condition l lte r =
      compare_numbers (λ n m. rt.less n m || rt.same_number n m) (rt.to_number l) (rt.to_number r)
  evaluate_condition l in_list r = get_or (holds r l) false
  evaluate_condition l not_in r = not (get_or (holds r l) true)
  evaluate_condition l matches r =
      if ltb max_pattern_length (length (rt.to_string r))
      then false
      else if ltb max_subject_length (length (rt.to_string l))
      then false
      else get_or (rt.regex_test (rt.to_string r) (rt.to_string l)) false

  abbrev pub condition_holds : Fields N → Condition N → Bool
  condition_holds scope c =
      evaluate_condition (resolve_operand (str c.left) scope) c.op (resolve_operand c.right scope)

  unfoldable pub applies : Context N → Rule N → Bool
  applies c rule =
      matches_rule rule c && all (condition_holds (condition_scope rule c.args)) rule.conditions

  unfoldable pub evaluate : List (Rule N) → Context N → Evaluation
  evaluate rules c = answer (find (applies c) (sort by_priority rules))
