-- ===== src/Access/Changes.antt =====
-- mcp/services/CapabilitiesService.ts, comparePermissions: which lists a client is told to read anew.
pub mod Unseen
use peta_core.Enums.{danger_eq}
use peta_core.Prelude.{
  string_eq, bool_eq, String, Bool, Option, List, any, false, if◌then◌else◌, is_some, none, not,
  opt_beq, some, true, ◌&&◌,
}
use peta_core.Prelude.Dict
use peta_core.Access.Permissions.{
  Permissions, ServerConfig, CapabilityConfig, Kind, items_of, prompt, resource, tool,
}

pub record Changes : Type 0 where
  pub tools_changed : Bool
  pub resources_changed : Bool
  pub prompts_changed : Bool

abbrev pub everything : Changes
everything = record { tools_changed = true; resources_changed = true; prompts_changed = true }

-- an item of the new list against that of the old one
abbrev pub item_changed : Option CapabilityConfig → CapabilityConfig → Bool
item_changed none new = is_some new.danger_level
item_changed (some old) new =
    if not (opt_beq old.enabled new.enabled)
    then true
    else not (opt_beq old.danger_level new.danger_level)

unfoldable pub is_capability_list_changed :
    List (String × CapabilityConfig) → List (String × CapabilityConfig) → Bool
is_capability_list_changed old new =
    if any (λ e. not (Dict.has e.0 old)) new
    then true
    else if any (λ e. not (Dict.has e.0 new)) old
    then true
    else any (λ e. item_changed (Dict.get e.0 old) e.1) new

abbrev pub enabled_changed : Option ServerConfig → ServerConfig → Bool
enabled_changed none new = false
enabled_changed (some old) new = not (opt_beq old.enabled new.enabled)

abbrev pub list_changed : Kind → Option ServerConfig → ServerConfig → Bool
list_changed k none new = false
list_changed k (some old) new =
    opt_beq old.enabled new.enabled && is_capability_list_changed (items_of k old) (items_of k new)

abbrev pub some_list_changed : Kind → Permissions → Permissions → Bool
some_list_changed k old new = any (λ e. list_changed k (Dict.get e.0 old) e.1) new

unfoldable pub compare_permissions : Permissions → Permissions → Changes
unfolding is_capability_list_changed items_of
compare_permissions old new =
    if any (λ e. not (Dict.has e.0 old)) new
    then everything
    else if any (λ e. not (Dict.has e.0 new)) old
    then everything
    else if any (λ e. enabled_changed (Dict.get e.0 old) e.1) new
    then everything
    else record {
      tools_changed = some_list_changed tool old new;
      resources_changed = some_list_changed resource old new;
      prompts_changed = some_list_changed prompt old new;
    }
