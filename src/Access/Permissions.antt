-- ===== src/Access/Permissions.antt =====
-- mcp/types/mcp.ts: the settings of tools, resources and prompts, of a server, for a user by an
-- administrator, and by the user. The three kinds of items share one record: a resource or a prompt has
-- no danger level. The stored settings may lack `enabled`, also a server's; an enumeration that no
-- code here looks at is its number.
use peta_core.Enums.{DangerLevel}
use peta_core.ResultCache.PolicyResolver.{CachePolicyConfig, Override, PatternOverride}
use peta_core.Prelude.{ℕ, string_eq, String, Bool, Option, List, none, some}
use peta_core.Prelude.Dict

pub record CapabilityConfig : Type 0 where
  pub enabled : Option Bool
  pub description : Option String
  pub danger_level : Option DangerLevel
  pub cache : Option CachePolicyConfig

pub record ResourceCachePolicies : Type 0 where
  pub exact : Option (List (List ℕ × Override))
  pub patterns : Option (List PatternOverride)

pub record ServerConfig : Type 0 where
  pub enabled : Option Bool
  pub tools : List (String × CapabilityConfig)
  pub resources : List (String × CapabilityConfig)
  pub prompts : List (String × CapabilityConfig)
  pub resource_cache_policies : Option ResourceCachePolicies
  pub server_name : String
  pub allow_user_input : Bool
  pub auth_type : ℕ
  pub category : Option ℕ
  pub config_template : String
  pub configured : Bool
  pub status : Option ℕ

abbrev pub Permissions : Type 0
Permissions = List (String × ServerConfig)

pub data Kind : Type 0 where
  tool resource prompt : Kind

unfoldable pub items_of : Kind → ServerConfig → List (String × CapabilityConfig)
items_of tool c = c.tools
items_of resource c = c.resources
items_of prompt c = c.prompts

-- `o?.enabled`
abbrev pub enabled_of : Option CapabilityConfig → Option Bool
enabled_of none = none
enabled_of (some c) = c.enabled

-- `config?.tools[name]?.enabled`
unfoldable pub setting : Kind → String → Option ServerConfig → Option Bool
unfolding items_of
setting k name none = none
setting k name (some c) = enabled_of (Dict.get name (items_of k c))

-- `config?.enabled`
abbrev pub server_setting : Option ServerConfig → Option Bool
server_setting none = none
server_setting (some c) = c.enabled
