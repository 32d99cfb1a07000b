-- ===== src/Policy/Engine/Alone.antt =====
-- mcp/services/PolicyEngine.ts: an evaluation that nothing comes between.
use native.Mathlib.Numerals.{unary_clauses}
use peta_core.Prelude.{
  ℕ, text_eq, List, Option, refl, ◌≡◌, Option-cases, Bool-cases, inl, inr, ltb, ◌-◌, ◌∷◌, [],
}
use peta_core.Prelude.Dict
use peta_core.Policy.Engine.{
  PolicySet, Cache, cache_key, cache_ttl_ms, evaluate_call, load_policies,
}
use peta_core.Policy.Engine.Waiting.{
  answering, asking, start_evaluation, finish_evaluation, serve, serve_all,
}
use peta_core.Enums.{DangerLevel}
use peta_core.Policy.Evaluator.{Context, Runtime}

-- A call that nothing comes between, with an answer at once, is the evaluation in one step.
pub serve_all-evaluate_call :
    {N : Type 0} (rt : Runtime N) (policies_at : ℕ → Option (List ℕ) → List (PolicySet N)) (now : ℕ)
    (c : Context N) (level : DangerLevel) (cache : Cache N)
    → serve_all rt policies_at
        (asking now c level ∷ answering 0 0 ∷ [])
        (record { cache = cache; waiting = [] })
      ≡ (
        record { cache = (evaluate_call rt policies_at now c level cache).1; waiting = [] },
        record {
          context = c;
          level = level;
          result = (evaluate_call rt policies_at now c level cache).0;
        }
            ∷ [],
      )
unfolding serve_all serve start_evaluation finish_evaluation evaluate_call load_policies
serve_all-evaluate_call rt policies_at now c level cache =
    elim (Option-cases (Dict.get (cache_key c.server_id) cache)) [
      | inl e ↦ rw e (simp unary_clauses refl)
      | inr (d, e) ↦ rw e (elim (Bool-cases (ltb (now - d.fetched_at) cache_ttl_ms)) [
        | inl fresh ↦ rw fresh refl
        | inr stale ↦ rw stale (simp unary_clauses refl)
      ])
    ]
