-- ===== src/ResultCache/PolicyResolver/Bounds.antt =====
-- mcp/core/cache/CachePolicyResolver.ts: what every resolved policy satisfies.
use peta_core.Prelude.{
  ℕ, String, string_eq, text_eq, List, Option, none, some, true, ◌≡◌, arith, if_cases, ◌≢◌, ◌≤◌,
  if_some, refl,
}
use peta_core.Prelude.Dict
use peta_core.Enums.{DangerLevel, approval, silent, notification}
use peta_core.ResultCache.PolicyResolver.{
  CachePolicyConfig, CapabilitiesConfig, Override, PatternOverride, ResolvedCachePolicy,
  ResultCacheConfig, ToolConfig, exact_policy, is_off, is_tool_cache_safe, match_resource_pattern,
  max_entry_size, max_ttl_seconds, min_entry_size, min_ttl_seconds, named_resource, override_policy,
  prompt_policy, resolve_enabled, resolve_policy, resolve_prompt_policy, resolve_resource_policy,
  resolve_tool_policy, switched, tool_policy, DangerLevel,
}

-- The numbers of a policy lie between the limits that the code names.
abbrev pub IsWithin : Option ResolvedCachePolicy → Type 0
IsWithin none = Unit
IsWithin (some p) =
    (min_ttl_seconds ≤ p.ttl_seconds)
    × (p.ttl_seconds ≤ max_ttl_seconds)
    × (min_ttl_seconds ≤ p.admission_window_seconds)
    × (p.admission_window_seconds ≤ max_ttl_seconds)
    × (min_entry_size ≤ p.max_entry_bytes)
    × (p.max_entry_bytes ≤ max_entry_size)

resolve_policy-IsWithin :
    (g : ResultCacheConfig) (c : Option CachePolicyConfig) → IsWithin (resolve_policy g c)
unfolding resolve_policy resolve_enabled
resolve_policy-IsWithin g none = tt
resolve_policy-IsWithin g (some c) = ground arith

prompt_policy-IsWithin :
    (g : ResultCacheConfig) (c : Option (Option CachePolicyConfig)) → IsWithin (prompt_policy g c)
prompt_policy-IsWithin g none = tt
prompt_policy-IsWithin g (some c) = resolve_policy-IsWithin g c

override_policy-IsWithin : (g : ResultCacheConfig) (o : Override) → IsWithin (override_policy g o)
override_policy-IsWithin g o =
    if_cases IsWithin (is_off o.enabled) none (resolve_policy g (some (switched o.enabled o.cache)))
      (λ h. tt) (λ h. resolve_policy-IsWithin g (some (switched o.enabled o.cache)))

exact_policy-IsWithin :
    (g : ResultCacheConfig) (o : Option Override) (p : Option PatternOverride)
    (named : Option (Option CachePolicyConfig))
    → IsWithin (exact_policy g o p named)
exact_policy-IsWithin g (some o) p named = override_policy-IsWithin g o
exact_policy-IsWithin g none (some p) named = override_policy-IsWithin g p.override
exact_policy-IsWithin g none none named = prompt_policy-IsWithin g named

tool_policy-IsWithin : (g : ResultCacheConfig) (t : Option ToolConfig) → IsWithin (tool_policy g t)
tool_policy-IsWithin g none = tt
tool_policy-IsWithin g (some t) =
    if_cases IsWithin (is_tool_cache_safe t.danger_level) (resolve_policy g t.cache) none
      (λ h. resolve_policy-IsWithin g t.cache) (λ h. tt)

-- Whatever the configuration holds, a policy resolved for a tool, a prompt or a resource keeps a
-- result and an admission window from one second to a day, and an entry from 1024 to 5242880 bytes.
pub resolve-IsWithin :
    (c : CapabilitiesConfig) (g : ResultCacheConfig) (tool prompt : String) (uri : List ℕ)
    (name : Option (List ℕ))
    → IsWithin (resolve_tool_policy c tool g)
      × IsWithin (resolve_prompt_policy c prompt g)
      × IsWithin (resolve_resource_policy c uri name g)
unfolding resolve_tool_policy resolve_prompt_policy resolve_resource_policy
resolve-IsWithin c g tool prompt uri name = (
  if_cases IsWithin g.enabled (tool_policy g (Dict.get tool c.tools)) none
      (λ h. tool_policy-IsWithin g (Dict.get tool c.tools)) (λ h. tt),
  if_cases IsWithin g.enabled (prompt_policy g (Dict.get prompt c.prompts)) none
      (λ h. prompt_policy-IsWithin g (Dict.get prompt c.prompts)) (λ h. tt),
  if_cases IsWithin g.enabled
      (exact_policy g (Dict.get uri c.exact) (match_resource_pattern c.patterns uri)
        (named_resource c.resources uri name))
      none
      (λ h.
        exact_policy-IsWithin g (Dict.get uri c.exact) (match_resource_pattern c.patterns uri)
          (named_resource c.resources uri name))
      (λ h. tt),
)

-- What a cached tool's configuration must say.
abbrev pub Caches : ResultCacheConfig → Option ToolConfig → ResolvedCachePolicy → Type 0
Caches g none p = ⊥
Caches g (some t) p =
    (t.danger_level ≢ some approval)
    × ((k : CachePolicyConfig) × ((t.cache ≡ some k)
          × (k.enabled ≡ true)
          × (resolve_enabled g k ≡ p)))

unsafe_approval : (d : Option DangerLevel) → is_tool_cache_safe d ≡ true → d ≢ some approval
unsafe_approval none h e = cc
unsafe_approval (some silent) h e = cc
unsafe_approval (some notification) h e = cc
unsafe_approval (some approval) h e = cc

resolve_policy-some :
    (g : ResultCacheConfig) (o : Option CachePolicyConfig) (p : ResolvedCachePolicy)
    → resolve_policy g o ≡ some p
    → (k : CachePolicyConfig) × ((o ≡ some k) × (k.enabled ≡ true) × (resolve_enabled g k ≡ p))
unfolding resolve_policy
resolve_policy-some g none p h = cc
resolve_policy-some g (some k) p h =
    let s = if_some k.enabled (some (resolve_enabled g k)) p h in (k, (refl, s.0, cc))

tool_policy-Caches :
    (g : ResultCacheConfig) (t : Option ToolConfig) (p : ResolvedCachePolicy)
    → tool_policy g t ≡ some p
    → Caches g t p
tool_policy-Caches g none p h = cc
tool_policy-Caches g (some t) p h =
    let s = if_some (is_tool_cache_safe t.danger_level) (resolve_policy g t.cache) p h in
    (unsafe_approval t.danger_level s.0, resolve_policy-some g t.cache p s.1)

-- A tool gets a policy only if the cache is on, the tool is configured, its danger level is not
-- `approval`, and its own policy is there and switched on; that policy is then the one resolved.
pub resolve_tool_policy-Caches :
    (c : CapabilitiesConfig) (g : ResultCacheConfig) (tool : String) (p : ResolvedCachePolicy)
    → resolve_tool_policy c tool g ≡ some p
    → (g.enabled ≡ true) × Caches g (Dict.get tool c.tools) p
unfolding resolve_tool_policy
resolve_tool_policy-Caches c g tool p h =
    let s = if_some g.enabled (tool_policy g (Dict.get tool c.tools)) p h in
    (s.0, tool_policy-Caches g (Dict.get tool c.tools) p s.1)
