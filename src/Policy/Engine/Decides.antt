-- ===== src/Policy/Engine/Decides.antt =====
-- mcp/services/PolicyEngine.ts: which policy set decides a call.
use peta_core.Prelude.{
  All, IsFirst, List, Option, [], false, inl, inr, none, refl, some, ◌++◌, ◌∷◌, ◌≡◌, ◌⊎◌,
}
use peta_core.Policy.Evaluator.{
  Rule, Context, Evaluation, Runtime, answer, applies, by_priority, evaluate,
}
use peta_core.Policy.Evaluator.First.{evaluate-IsFirst}
use peta_core.Policy.Engine.{PolicySet, EngineResult, decide, fallback_to_danger_level, first_of}
use peta_core.Enums.{DangerLevel}

abbrev pub ruling : {N : Type 0} → PolicySet N → Rule N → EngineResult
ruling p r = record {
  decision = r.decision;
  policy_version = p.version;
  matched_rule = some r.id;
  reason = r.reason;
}

module _ {N : Type 0} (rt : Runtime N) (c : Context N) where
  abbrev pub IsSilent : PolicySet N → Type 0
  IsSilent p = All (λ r. applies rt c r ≡ false) p.rules

  -- Either no rule of any set applies and the danger level decides, or a rule `r` of a set `p`
  -- does: no rule applies in the sets before `p`, and `r` is the first by priority that applies in it.
  abbrev pub Decides : List (PolicySet N) → DangerLevel → EngineResult → Type 0
  Decides ps level result =
      (All IsSilent ps × (result ≡ fallback_to_danger_level level))
      ⊎ ((p : PolicySet N) × (r : Rule N) × (before after : List (PolicySet N)) × ((ps
              ≡ before ++ p ∷ after)
            × All IsSilent before
            × IsFirst by_priority (applies rt c) p.rules (some r)
            × (result ≡ ruling p r)))

  behind :
      (p : PolicySet N) (ps : List (PolicySet N)) (level : DangerLevel) (result : EngineResult)
      → IsSilent p
      → Decides ps level result
      → Decides (p ∷ ps) level result
  behind p ps level result s (inl (a, e)) = inl ((s, a), e)
  behind p ps level result s (inr (q, r, before, after, (e, a, f, g))) =
      inr (q, r, p ∷ before, after, (rw e refl, (s, a), f, g))

  step_on :
      (p : PolicySet N) (ps : List (PolicySet N)) (level : DangerLevel) (o : Option (Rule N))
      (found : Evaluation) (later : EngineResult)
      → IsFirst by_priority (applies rt c) p.rules o
      → found ≡ answer o
      → Decides ps level later
      → Decides (p ∷ ps) level (
          first_of found.matched_rule
            (record {
              decision = found.decision;
              policy_version = p.version;
              matched_rule = found.matched_rule;
              reason = found.reason;
            })
            later)
  step_on p ps level none found later f e d = rw e (behind p ps level later f d)
  step_on p ps level (some r) found later f e d = rw e (inr (p, r, [], ps, (refl, tt, f, refl)))

  -- Over the policy sets in force, either no rule of any set applies to the call, and its danger
  -- level decides; or the decision is that of a rule that applies, the first by priority in its
  -- set, where no rule applies in the sets before.
  pub decide-Decides :
      (ps : List (PolicySet N)) (level : DangerLevel) → Decides ps level (decide rt ps c level)
  unfolding decide
  decide-Decides [] level = inl (tt, refl)
  decide-Decides (p ∷ ps) level =
      let k = evaluate-IsFirst rt p.rules c in
      step_on p ps level k.0 (evaluate rt p.rules c) (decide rt ps c level) k.1.0 k.1.1
        (decide-Decides ps level)
