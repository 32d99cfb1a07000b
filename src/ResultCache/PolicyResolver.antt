-- ===== src/ResultCache/PolicyResolver.antt =====
-- mcp/core/cache/CachePolicyResolver.ts and types.ts: which results may be cached, and for how long.
-- Patterns and URIs are lists of code units; an absent option is `none`.
pub mod Bounds
pub mod Patterns
use peta_core.Prelude.{
  ℕ, String, string_eq, text_eq, Bool, List, Option, [], false, find, get_or, if◌then◌else◌, keep,
  leb, length, ltb, max, min, nat_beq, none, not, some, true, ◌==◌, ◌∷◌, sort,
}
use peta_core.Prelude.Dict
use peta_core.Text.{strip_star, starts_with}
use peta_core.Enums.{DangerLevel, approval, danger_rank}

pub data CacheScope : Type 0 where
  user tenant global : CacheScope

pub data AdmissionPolicy : Type 0 where
  immediate second_hit : AdmissionPolicy

pub record KeyFields : Type 0 where
  pub deny_fields : Option (List String)
  pub allow_fields : Option (List String)

pub record CachePolicyConfig : Type 0 where
  pub enabled : Bool
  pub ttl_seconds : Option ℕ
  pub scope : Option CacheScope
  pub admission_policy : Option AdmissionPolicy
  pub admission_window_seconds : Option ℕ
  pub key : Option KeyFields
  pub max_entry_bytes : Option ℕ

pub record ResolvedCachePolicy : Type 0 where
  pub enabled : Bool
  pub ttl_seconds : ℕ
  pub scope : CacheScope
  pub admission_policy : AdmissionPolicy
  pub admission_window_seconds : ℕ
  pub deny_fields : List String
  pub allow_fields : Option (List String)
  pub max_entry_bytes : ℕ

-- What the resolver reads of the global configuration.
pub record ResultCacheConfig : Type 0 where
  pub enabled : Bool
  pub default_ttl_seconds : ℕ
  pub default_admission_policy : AdmissionPolicy
  pub default_admission_window_seconds : ℕ
  pub max_entry_bytes : ℕ

pub record ToolConfig : Type 0 where
  pub danger_level : Option DangerLevel
  pub cache : Option CachePolicyConfig

pub record Override : Type 0 where
  pub enabled : Option Bool
  pub cache : Option CachePolicyConfig

pub record PatternOverride : Type 0 where
  pub pattern : List ℕ
  pub override : Override

pub record CapabilitiesConfig : Type 0 where
  pub tools : List (String × ToolConfig)
  pub prompts : List (String × Option CachePolicyConfig)
  pub resources : List (List ℕ × Option CachePolicyConfig)
  pub exact : List (List ℕ × Override)
  pub patterns : List PatternOverride

abbrev pub min_ttl_seconds : ℕ
min_ttl_seconds = 1

abbrev pub max_ttl_seconds : ℕ
max_ttl_seconds = 86400

abbrev pub min_entry_size : ℕ
min_entry_size = 1024

abbrev pub max_entry_size : ℕ
max_entry_size = 5242880

abbrev pub clamp : ℕ → ℕ → ℕ → ℕ
clamp value low high = max low (min high value)

-- `Array.from(new Set(xs))`
unfoldable pub dedup : List String → List String
dedup [] = []
dedup (x ∷ xs) = x ∷ keep (λ y. not (y == x)) (dedup xs)

abbrev pub deny_of : Option KeyFields → List String
deny_of none = []
deny_of (some k) = dedup (get_or k.deny_fields [])

-- an empty list allows no field, and counts as absent
abbrev pub nonempty : Option (List String) → Option (List String)
nonempty none = none
nonempty (some []) = none
nonempty (some (x ∷ xs)) = some (x ∷ xs)

abbrev pub allow_of : Option KeyFields → Option (List String)
allow_of none = none
allow_of (some k) = nonempty k.allow_fields

unfoldable pub resolve_enabled : ResultCacheConfig → CachePolicyConfig → ResolvedCachePolicy
resolve_enabled g c = record {
  enabled = true;
  ttl_seconds = clamp (get_or c.ttl_seconds g.default_ttl_seconds) min_ttl_seconds max_ttl_seconds;
  scope = get_or c.scope user;
  admission_policy = get_or c.admission_policy g.default_admission_policy;
  admission_window_seconds =
      clamp (get_or c.admission_window_seconds g.default_admission_window_seconds) min_ttl_seconds
        max_ttl_seconds;
  deny_fields = deny_of c.key;
  allow_fields = allow_of c.key;
  max_entry_bytes =
      clamp (get_or c.max_entry_bytes g.max_entry_bytes) min_entry_size max_entry_size;
}

unfoldable pub resolve_policy :
    ResultCacheConfig → Option CachePolicyConfig → Option ResolvedCachePolicy
unfolding resolve_enabled
resolve_policy g none = none
resolve_policy g (some c) = if c.enabled then some (resolve_enabled g c) else none

abbrev pub is_tool_cache_safe : Option DangerLevel → Bool
is_tool_cache_safe none = true
is_tool_cache_safe (some d) = ltb (danger_rank d) (danger_rank approval)

abbrev pub tool_policy : ResultCacheConfig → Option ToolConfig → Option ResolvedCachePolicy
tool_policy g none = none
tool_policy g (some t) =
    if is_tool_cache_safe t.danger_level then resolve_policy g t.cache else none

unfoldable pub resolve_tool_policy :
    CapabilitiesConfig → String → ResultCacheConfig → Option ResolvedCachePolicy
resolve_tool_policy c tool g = if g.enabled then tool_policy g (Dict.get tool c.tools) else none

abbrev pub prompt_policy :
    ResultCacheConfig → Option (Option CachePolicyConfig) → Option ResolvedCachePolicy
prompt_policy g none = none
prompt_policy g (some cache) = resolve_policy g cache

unfoldable pub resolve_prompt_policy :
    CapabilitiesConfig → String → ResultCacheConfig → Option ResolvedCachePolicy
resolve_prompt_policy c prompt g =
    if g.enabled then prompt_policy g (Dict.get prompt c.prompts) else none

abbrev pub star : ℕ
star = b'*'

-- the text up to the first `*`
unfoldable pub literal_prefix : List ℕ → List ℕ
literal_prefix [] = []
literal_prefix (c ∷ cs) = if nat_beq c star then [] else c ∷ literal_prefix cs

-- Without `*` the pattern is the URI; with one at its end it is a prefix of the URI.
unfoldable pub matches : List ℕ → List ℕ → Bool
unfolding strip_star starts_with
matches pattern value = elim (strip_star pattern) [
  | none ↦ value == pattern
  | some prefix ↦ starts_with value prefix
]

abbrev pub prefix_length : PatternOverride → ℕ
prefix_length p = length (literal_prefix p.pattern)

-- longest prefix first
abbrev pub by_prefix : PatternOverride → PatternOverride → Bool
by_prefix p q = leb (prefix_length q) (prefix_length p)

unfoldable pub match_resource_pattern : List PatternOverride → List ℕ → Option PatternOverride
match_resource_pattern ps uri = find (λ p. matches p.pattern uri) (sort by_prefix ps)

-- `cache?.enabled ?? override.enabled ?? true` in place of the cache's own switch
abbrev pub switched : Option Bool → Option CachePolicyConfig → CachePolicyConfig
switched on none = record {
  enabled = get_or on true;
  ttl_seconds = none;
  scope = none;
  admission_policy = none;
  admission_window_seconds = none;
  key = none;
  max_entry_bytes = none;
}
switched on (some c) = c

abbrev pub is_off : Option Bool → Bool
is_off none = false
is_off (some b) = not b

abbrev pub override_policy : ResultCacheConfig → Override → Option ResolvedCachePolicy
override_policy g o =
    if is_off o.enabled then none else resolve_policy g (some (switched o.enabled o.cache))

-- `resources[uri] ?? (name ? resources[name] : undefined)`
abbrev pub named_resource :
    List (List ℕ × Option CachePolicyConfig)
    → List ℕ
    → Option (List ℕ)
    → Option (Option CachePolicyConfig)
named_resource rs uri none = Dict.get uri rs
named_resource rs uri (some name) = elim (Dict.get uri rs) [
  | some r ↦ some r
  | none ↦ if name == [] then none else Dict.get name rs
]

abbrev pub pattern_policy :
    ResultCacheConfig
    → Option PatternOverride
    → Option (Option CachePolicyConfig)
    → Option ResolvedCachePolicy
pattern_policy g (some p) named = override_policy g p.override
pattern_policy g none named = prompt_policy g named

abbrev pub exact_policy :
    ResultCacheConfig
    → Option Override
    → Option PatternOverride
    → Option (Option CachePolicyConfig)
    → Option ResolvedCachePolicy
exact_policy g (some o) p named = override_policy g o
exact_policy g none p named = pattern_policy g p named

unfoldable pub resolve_resource_policy :
    CapabilitiesConfig → List ℕ → Option (List ℕ) → ResultCacheConfig → Option ResolvedCachePolicy
unfolding match_resource_pattern
resolve_resource_policy c uri name g =
    if g.enabled
    then exact_policy g (Dict.get uri c.exact) (match_resource_pattern c.patterns uri)
        (named_resource c.resources uri name)
    else none
