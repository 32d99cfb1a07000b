-- ===== src/Policy/Engine.antt =====
-- mcp/services/PolicyEngine.ts: the decision on a tool call, and the cache of effective policies.
-- `policies_at t server` is what PolicyRepository.getEffectivePolicy answers at time `t`. A policy
-- set whose `dsl` has no list of rules is one with no rules.
pub mod Decides
pub mod Recent
pub mod Waiting
pub mod Renewed
pub mod Cleared
mod Alone
use peta_core.Prelude.{
  ℕ, String, List, Option, text_eq, ltb, [], get_or, if◌then◌else◌, none, some, ◌-◌, ◌∷◌,
}
use peta_core.Prelude.Dict
use peta_core.Enums.{DangerLevel, approval, notification, silent}
use peta_core.Policy.Evaluator.{Rule, evaluate, Context, Decision, Runtime, allow, require_approval}
use peta_core.Json.{codes}

pub record PolicySet (N : Type 0) : Type 0 where
  pub rules : List (Rule N)
  pub version : ℕ

pub record CachedPolicies (N : Type 0) : Type 0 where
  pub policies : List (PolicySet N)
  pub fetched_at : ℕ

pub record EngineResult : Type 0 where
  pub decision : Decision
  pub policy_version : ℕ
  pub matched_rule : Option String
  pub reason : Option String

abbrev pub cache_ttl_ms : ℕ
cache_ttl_ms = 30000

abbrev pub Cache : Type 0 → Type 0
Cache N = List (List ℕ × CachedPolicies N)

abbrev pub global_key : List ℕ
global_key = codes "__global__"

-- `serverId ?? '__global__'`
abbrev pub cache_key : Option (List ℕ) → List ℕ
cache_key server = get_or server global_key

abbrev pub danger_decision : DangerLevel → Decision
danger_decision approval = require_approval
danger_decision notification = allow
danger_decision silent = allow

unfoldable pub fallback_to_danger_level : DangerLevel → EngineResult
fallback_to_danger_level level = record {
  decision = danger_decision level;
  policy_version = 0;
  matched_rule = none;
  reason = none;
}

abbrev pub first_of : Option String → EngineResult → EngineResult → EngineResult
first_of none here later = later
first_of (some id) here later = here

module _ {N : Type 0} where
  -- the cached policies where they are fresh, else those of a new query, which are then cached
  abbrev pub refresh :
      List (PolicySet N)
      → ℕ
      → List ℕ
      → Option (CachedPolicies N)
      → Cache N
      → List (PolicySet N) × Cache N
  refresh fetched now key none cache =
      (fetched, Dict.set key (record { policies = fetched; fetched_at = now }) cache)
  refresh fetched now key (some e) cache =
      if ltb (now - e.fetched_at) cache_ttl_ms
      then (e.policies, cache)
      else (fetched, Dict.set key (record { policies = fetched; fetched_at = now }) cache)

  unfoldable pub load_policies :
      (ℕ → Option (List ℕ) → List (PolicySet N))
      → ℕ
      → Option (List ℕ)
      → Cache N
      → List (PolicySet N) × Cache N
  load_policies policies_at now server cache =
      refresh (policies_at now server) now (cache_key server) (Dict.get (cache_key server) cache)
        cache

module _ {N : Type 0} (rt : Runtime N) where
  -- the first policy set with a matching rule, else the danger level
  unfoldable pub decide : List (PolicySet N) → Context N → DangerLevel → EngineResult
  decide [] c level = fallback_to_danger_level level
  decide (p ∷ ps) c level =
      let later = decide ps c level in
      let found = evaluate rt p.rules c in
      first_of found.matched_rule
        (record {
          decision = found.decision;
          policy_version = p.version;
          matched_rule = found.matched_rule;
          reason = found.reason;
        })
        later

  -- an evaluation that nothing comes between: its clock, its query and the writing of the cache are
  -- one step here, and two in Engine/Waiting
  unfoldable pub evaluate_call :
      (ℕ → Option (List ℕ) → List (PolicySet N))
      → ℕ
      → Context N
      → DangerLevel
      → Cache N
      → EngineResult × Cache N
  unfolding decide load_policies
  evaluate_call policies_at now c level cache =
      let loaded = load_policies policies_at now c.server_id cache in
      (decide loaded.0 c level, loaded.1)

unfoldable pub clear_cache : {N : Type 0} → Option (List ℕ) → Cache N → Cache N
clear_cache none cache = []
clear_cache (some server) cache = Dict.delete global_key (Dict.delete server cache)
