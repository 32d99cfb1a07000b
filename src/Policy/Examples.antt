-- ===== src/Policy/Examples.antt =====
-- Runs of the policy engine, mcp/services/PolicyEngine.ts, at concrete inputs.
use peta_core.Prelude.{
  All, ℕ, string_eq, text_eq, IsFirst, List, Option, [], false, if◌then◌else◌, length, ltb, nat_beq,
  none, refl, some, true, ◌↔◌, ◌∷◌, ◌≡◌, ◌≤◌, ap, find, if_cases, opt_beq, sort, ◌==◌, ◌≢◌, arith,
}
use peta_core.Prelude.Dict
use peta_core.Json.{codes, end, field, str}
use peta_core.Text.{split_on}
use peta_core.Enums.{silent}
use peta_core.Policy.Glob.{match_glob-Glob, Glob, match_glob}
use peta_core.Policy.Evaluator.{
  Rule, Runtime, Context, allow, answer, applies, by_priority, deny, eq, evaluate,
  evaluate_condition, extract_by_path, matches_rule, resolve_operand, extract_variables, own_field,
  put_field,
}
use peta_core.Policy.Evaluator.First.{evaluate-IsFirst}
use peta_core.Policy.Engine.{PolicySet, Cache, clear_cache, decide, evaluate_call, global_key}
use peta_core.Policy.Engine.Decides.{decide-Decides, Decides}
use peta_core.Policy.Engine.Recent.{evaluate_call-IsRecent, IsHonest, IsRecent, WasAnswered}
use peta_core.Policy.Engine.Waiting.{
  EngineState, Event, answering, asking, clearing, serve, serve_all, start_evaluation,
  finish_evaluation,
}
use peta_core.Policy.Engine.Renewed.{IsCurrentlyDecided}
use peta_core.Policy.Engine.Cleared.{serve_all-clearing}

-- An engine whose numbers are natural and which reads no number, URL or expression.
abbrev runtime : Runtime ℕ
runtime = record {
  to_string = λ v. [];
  to_number = λ v. none;
  parse_float = λ s. none;
  less = ltb;
  same_number = nat_beq;
  is_zero = λ n. nat_beq n 0;
  byte_length = length;
  hostname = λ s. none;
  regex_test = λ p s. none;
  same_object = λ v w. false;
  inherited = λ v name. none;
}

abbrev deny_large : Rule ℕ
deny_large = record {
  id = "deny";
  priority = some 10;
  tool = some (codes "db_*");
  server = none;
  extract = [];
  conditions = record { left = codes "$mode"; op = eq; right = str (codes "write") } ∷ [];
  decision = deny;
  reason = none;
}

abbrev allow_rest : Rule ℕ
allow_rest = record {
  id = "allow";
  priority = none;
  tool = none;
  server = none;
  extract = [];
  conditions = [];
  decision = allow;
  reason = none;
}

abbrev rules : List (Rule ℕ)
rules = allow_rest ∷ deny_large ∷ []

abbrev sets : List (PolicySet ℕ)
sets = record { rules = []; version = 1 } ∷ record { rules = rules; version = 7 } ∷ []

abbrev call : Context ℕ
call = record {
  server_id = some (codes "s1");
  tool_name = codes "db_query";
  args = field "mode" (str (codes "write")) end;
}

-- The rule with the smaller priority number wins over the rule that stands before it.
denied : (decide runtime sets call silent).matched_rule ≡ some "deny"
unfolding decide evaluate applies matches_rule evaluate_condition resolve_operand extract_by_path
    find sort match_glob own_field put_field extract_variables split_on
denied = refl

match_glob-Glob_example :
    (match_glob (codes "db_?*") (codes "db_query") ≡ true)
    ↔ ((length (codes "db_?*") ≤ 512) × Glob (codes "db_?*") (codes "db_query"))
match_glob-Glob_example = match_glob-Glob (codes "db_?*") (codes "db_query")

evaluate-IsFirst_example :
    (o : Option (Rule ℕ)) × (IsFirst by_priority (applies runtime call) rules o
      × (evaluate runtime rules call ≡ answer o))
evaluate-IsFirst_example = evaluate-IsFirst runtime rules call

decide-Decides_example : Decides runtime call sets silent (decide runtime sets call silent)
decide-Decides_example = decide-Decides runtime call sets silent

-- The repository's answers: version 1 of the rules before a second has passed, version 7 after it.
abbrev policies_at : ℕ → Option (List ℕ) → List (PolicySet ℕ)
policies_at t server = if ltb t 1000 then [] else sets

abbrev cache : Cache ℕ
cache = (codes "s1", record { policies = []; fetched_at = 500 }) ∷ []

cache-IsHonest : IsHonest policies_at cache
unfolding Dict.get
cache-IsHonest none n = tt
cache-IsHonest (some s) n =
    if_cases (WasAnswered policies_at (some s)) (codes "s1" == s)
      (some (record { policies = []; fetched_at = 500 })) none (λ e. refl) (λ e. tt)

not-global : some (codes "s1") ≢ some global_key
not-global e = absurd (impossible (ap (λ o. opt_beq o (some (codes "s1"))) e))
  where
    impossible : true ≡ false → ⊥
    impossible h = cc

evaluate_call-IsRecent_example :
    ((ps : List (PolicySet ℕ)) × (IsRecent policies_at 20000 (some (codes "s1")) ps
        × ((evaluate_call runtime policies_at 20000 call silent cache).0
            ≡ decide runtime ps call silent)))
    × IsHonest policies_at (evaluate_call runtime policies_at 20000 call silent cache).1
evaluate_call-IsRecent_example =
    evaluate_call-IsRecent policies_at runtime 20000 call silent cache not-global cache-IsHonest

-- The cache is cleared while no call waits; then two calls overlap, and a third finds their answer.
abbrev busy : EngineState ℕ
busy = record { cache = cache; waiting = [] }

abbrev events : List (Event ℕ)
events =
    asking 20000 call silent
    ∷ asking 20010 call silent
    ∷ answering 1 5
    ∷ clearing (some (codes "s2"))
    ∷ answering 0 90
    ∷ asking 20200 call silent
    ∷ []

all_decided :
    length (serve_all runtime policies_at (clearing (some (codes "s1")) ∷ events) busy).1 ≡ 3
unfolding serve_all serve start_evaluation finish_evaluation clear_cache Dict.get Dict.set
    Dict.delete
all_decided = refl

serve_all-clearing_example :
    All
      (IsCurrentlyDecided runtime policies_at 15000 (codes "s1"))
      (serve_all runtime policies_at (clearing (some (codes "s1")) ∷ events) busy).1
serve_all-clearing_example =
    serve_all-clearing runtime policies_at 15000 (some (codes "s1")) (some (codes "s1")) events busy
      refl tt (omega arith, (omega arith, (tt, (tt, (tt, (omega arith, tt))))))
