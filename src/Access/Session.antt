-- ===== src/Access/Session.antt =====
-- mcp/core/ClientSession.ts: the tests that a request passes before it is sent to a server. The
-- answers of ServerManager.getServerContext are arguments: one for each time that it is asked.
pub mod Layers
use peta_core.Prelude.{
  string_eq, String, Bool, Option, false, get_or, if◌then◌else◌, none, not, opt_beq, some, true,
  ◌&&◌,
}
use peta_core.Prelude.Dict
use peta_core.Access.Permissions.{Permissions, ServerConfig, Kind, setting, server_setting}

pub data ServerStatus : Type 0 where
  online offline connecting failed sleeping : ServerStatus

pub record ServerEntity : Type 0 where
  pub enabled : Bool
  pub allow_user_input : Bool
  pub public_access : Bool
  pub anonymous_access : Bool

-- `user_id` is that of a server that a user configured
pub record ServerContext : Type 0 where
  pub server_id : String
  pub user_id : Option String
  pub entity : ServerEntity
  pub status : ServerStatus
  pub capabilities_config : Option ServerConfig

pub record Session : Type 0 where
  pub user_id : String
  pub is_anonymous : Bool
  pub permissions : Permissions
  pub user_preferences : Permissions

abbrev pub is_ready : ServerStatus → Bool
is_ready online = true
is_ready sleeping = true
is_ready _ = false

abbrev pub is_own : Session → ServerContext → Bool
is_own s c = opt_beq c.user_id (some s.user_id)

-- what an administrator set for the user, or else what the server is open to
abbrev pub permitted : Session → String → ServerContext → Bool
permitted s server c =
    get_or (server_setting (Dict.get server s.permissions))
      (if s.is_anonymous then c.entity.anonymous_access else c.entity.public_access)

abbrev pub preferred : Session → String → Bool
preferred s server = get_or (server_setting (Dict.get server s.user_preferences)) true

unfoldable pub can_access_server : Session → String → Option ServerContext → Bool
can_access_server s server none = false
can_access_server s server (some c) =
    if not c.entity.enabled
    then false
    else if not (is_ready c.status)
    then false
    else if s.is_anonymous && not c.entity.anonymous_access
    then false
    else if not c.entity.allow_user_input
    then permitted s server c && preferred s server
    else if s.is_anonymous
    then false
    else if not (is_own s c)
    then false
    else permitted s server c && preferred s server

abbrev pub if_enabled : Option Bool → ServerContext → Option ServerContext
if_enabled o c = if get_or o true then some c else none

abbrev pub find_capability : Kind → String → Option ServerContext → Option ServerContext
find_capability k name none = none
find_capability k name (some c) =
    if not c.entity.enabled
    then none
    else if not (is_ready c.status)
    then none
    else if_enabled (setting k name c.capabilities_config) c

-- the server is asked for twice, once in `can_access_server`
unfoldable pub can_access_server_capabilities :
    Session
    → String
    → Kind
    → String
    → Option ServerContext
    → Option ServerContext
    → Option ServerContext
unfolding can_access_server
can_access_server_capabilities s server k name first second =
    if not (can_access_server s server first) then none else find_capability k name second

-- canUseToolByServerContext and its siblings: a server that the user configured takes no settings
-- of an administrator
unfoldable pub can_use_by_server_context : Session → Kind → String → ServerContext → Bool
can_use_by_server_context s k name c =
    let by_preference = get_or (setting k name (Dict.get c.server_id s.user_preferences)) true in
    if c.entity.allow_user_input
    then (if not (is_own s c) then false else by_preference)
    else if not (get_or (setting k name (Dict.get c.server_id s.permissions)) true)
    then false
    else by_preference

abbrev pub use_found : Session → Kind → String → Option ServerContext → Bool
use_found s k name none = false
use_found s k name (some c) = can_use_by_server_context s k name c

-- canUseTool, canAccessResource and canUsePrompt
unfoldable pub can_use :
    Session → String → Kind → String → Option ServerContext → Option ServerContext → Bool
unfolding can_access_server_capabilities can_use_by_server_context
can_use s server k name first second =
    use_found s k name (can_access_server_capabilities s server k name first second)
