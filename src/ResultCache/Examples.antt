-- ===== src/ResultCache/Examples.antt =====
-- Runs of the result cache, mcp/core/cache, at concrete inputs.
use peta_core.Prelude.{
  ℕ, String, string_eq, text_eq, ◌⊎◌, List, [], arith, keep, length, none, refl, some, true, ◌∷◌,
  ◌≡◌, ◌≤◌,
}
use peta_core.Prelude.Dict
use peta_core.Json.{codes}
use peta_core.Enums.{silent}
use peta_core.ResultCache.MemoryStore.{
  MemoryEntry, MemoryStore, cache_set, evict_oldest, get_admission_count, is_fresh, sweep,
}
use peta_core.ResultCache.MemoryStore.Entries.{IsSpared, cache_set-visible, visible}
use peta_core.ResultCache.MemoryStore.Bounds.{evict_oldest-IsOldest, IsOldest, KeysGiven}
use peta_core.ResultCache.MemoryStore.Capacity.{cache_set-IsBounded, IsBounded}
use peta_core.ResultCache.MemoryStore.Sweep.{sweep_transparent}
use peta_core.ResultCache.PolicyResolver.{
  ResultCacheConfig, CachePolicyConfig, CapabilitiesConfig, Override, PatternOverride,
  ResolvedCachePolicy, resolve_enabled, resolve_policy, resolve_prompt_policy,
  resolve_resource_policy, resolve_tool_policy, second_hit, user,
}
use peta_core.ResultCache.PolicyResolver.Bounds.{resolve-IsWithin, IsWithin}

abbrev entries : List (String × MemoryEntry ℕ)
entries =
    ("a", record { value = 1; expires_at = 5000 })
    ∷ ("b", record { value = 2; expires_at = 9000 })
    ∷ []

abbrev store : MemoryStore ℕ
store = record { entries = entries; admissions = []; namespaces = []; max_entries = 2 }

entries-IsUnique : Dict.IsUnique entries
unfolding Dict.get
entries-IsUnique = (refl, (refl, tt))

entries-KeysGiven : KeysGiven entries
entries-KeysGiven = (refl, (refl, tt))

-- "c" is stored in a full store: "a" is evicted for it.
evicting : Dict.get "a" (cache_set "c" 7 60 1000 1001 store).entries ≡ none
unfolding cache_set evict_oldest Dict.get Dict.set keep Dict.delete
evicting = refl

cache_set-visible_example :
    (visible 4000 (Dict.get "c" (cache_set "c" 7 60 1000 1001 store).entries) ≡ some 7)
    × (◌≡◌ {A = String} "c" "a"
        ⊎ IsSpared "c" store
            (some 1)
            (visible 4000 (Dict.get "a" (cache_set "c" 7 60 1000 1001 store).entries)))
unfolding Dict.get
cache_set-visible_example = cache_set-visible "c" "a" 7 60 1000 1001 4000 store entries-IsUnique

full : 2 ≤ length (keep (is_fresh 1000) entries)
unfolding keep
full = omega arith

evict_oldest-IsOldest_example :
    (k : String) × (y : ℕ) × IsOldest k y (keep (is_fresh 1000) entries)
    × (evict_oldest 2 1000 entries ≡ Dict.delete k (keep (is_fresh 1000) entries))
evict_oldest-IsOldest_example =
    evict_oldest-IsOldest 2 1000 entries entries-KeysGiven (omega arith) full

cache_set-IsBounded_example : IsBounded (cache_set "c" 7 60 1000 1001 store)
cache_set-IsBounded_example =
    cache_set-IsBounded "c" 7 60 1000 1001 store refl (omega arith)
      (record { unique = entries-IsUnique; given = entries-KeysGiven; bounded = omega arith })

sweep_transparent_example :
    (visible 8000 (Dict.get "b" (sweep 6000 store).entries) ≡ visible 8000 (Dict.get "b" entries))
    × (get_admission_count "b" 8000 (sweep 6000 store) ≡ get_admission_count "b" 8000 store)
sweep_transparent_example = sweep_transparent "b" 6000 8000 store entries-IsUnique tt (omega arith)

abbrev global_config : ResultCacheConfig
global_config = record {
  enabled = true;
  default_ttl_seconds = 100000;
  default_admission_policy = second_hit;
  default_admission_window_seconds = 60;
  max_entry_bytes = 10;
}

abbrev plain_policy : CachePolicyConfig
plain_policy = record {
  enabled = true;
  ttl_seconds = none;
  scope = none;
  admission_policy = none;
  admission_window_seconds = none;
  key = none;
  max_entry_bytes = none;
}

abbrev on_override : Override
on_override = record { enabled = none; cache = some plain_policy }

abbrev patterns : List PatternOverride
patterns =
    record { pattern = codes "file://*"; override = on_override }
    ∷ record { pattern = codes "file://docs/*"; override = on_override }
    ∷ []

abbrev config : CapabilitiesConfig
config = record {
  tools = ("search", record { danger_level = some silent; cache = some plain_policy }) ∷ [];
  prompts = [];
  resources = [];
  exact = [];
  patterns = patterns;
}

abbrev search_policy : ResolvedCachePolicy
search_policy = record {
  enabled = true;
  ttl_seconds = 86400;
  scope = user;
  admission_policy = second_hit;
  admission_window_seconds = 60;
  deny_fields = [];
  allow_fields = none;
  max_entry_bytes = 1024;
}

resolve_search : resolve_tool_policy config "search" global_config ≡ some search_policy
unfolding resolve_tool_policy resolve_policy resolve_enabled Dict.get
resolve_search = refl

resolve-IsWithin_example :
    IsWithin (resolve_tool_policy config "search" global_config)
    × IsWithin (resolve_prompt_policy config "greet" global_config)
    × IsWithin (resolve_resource_policy config (codes "file://docs/a") none global_config)
resolve-IsWithin_example =
    resolve-IsWithin config global_config "search" "greet" (codes "file://docs/a") none
