-- ===== src/Policy/Evaluator/First.antt =====
-- mcp/services/PolicyDslEvaluator.ts, evaluate: which rule decides.
use peta_core.Prelude.{List, IsFirst, Option, arith, find, find-sort, refl, sort, ◌≡◌}
use peta_core.Policy.Evaluator.{Rule, Context, Runtime, answer, applies, by_priority, evaluate}

-- A set of rules is decided by one of its rules that applies, the first by priority: every other
-- rule that applies has a priority no smaller. When no rule applies the answer is to allow, with no
-- rule named.
pub evaluate-IsFirst :
    {N : Type 0} (rt : Runtime N) (rules : List (Rule N)) (c : Context N)
    → (o : Option (Rule N)) × (IsFirst by_priority (applies rt c) rules o
        × (evaluate rt rules c ≡ answer o))
unfolding evaluate
evaluate-IsFirst rt rules c = (
  find (applies rt c) (sort by_priority rules),
  (
    find-sort by_priority (λ p q r h k. ground arith) (λ p q h. ground arith) (applies rt c) rules
        (find (applies rt c) (sort by_priority rules)) refl,
    refl,
  ),
)
