-- ===== src/Access/Examples.antt =====
-- Runs of the tests of mcp/core/ClientSession.ts and of comparePermissions at concrete inputs.
use peta_core.Enums.{silent}
use peta_core.Prelude.{string_eq, Bool, Option, ◌≡◌, ◌↔◌, [], false, none, refl, some, true, ◌∷◌}
use peta_core.Prelude.Dict
use peta_core.Access.Permissions.{
  ServerConfig, CapabilityConfig, tool, setting, server_setting, items_of, Permissions,
}
use peta_core.Access.Session.{
  Session, ServerContext, can_use, can_access_server, can_access_server_capabilities,
  can_use_by_server_context, sleeping,
}
use peta_core.Access.Session.Layers.{can_use-IsOn, IsOn, without_preferences}
use peta_core.Access.Changes.{compare_permissions, is_capability_list_changed}
use peta_core.Access.Changes.Unseen.{compare_permissions-SameView, SameView, unchanged}

abbrev item : Option Bool → CapabilityConfig
item o = record { enabled = o; description = none; danger_level = some silent; cache = none }

abbrev files : ServerConfig
files = record {
  enabled = some true;
  tools = ("read", item (some true)) ∷ ("delete", item (some false)) ∷ [];
  resources = [];
  prompts = [];
  resource_cache_policies = none;
  server_name = "Files";
  allow_user_input = false;
  auth_type = 1;
  category = none;
  config_template = "";
  configured = false;
  status = none;
}

abbrev wishes : ServerConfig
wishes = record files { enabled = none; tools = ("read", item none) ∷ [] }

abbrev server : ServerContext
server = record {
  server_id = "files";
  user_id = none;
  entity = record {
    enabled = true;
    allow_user_input = false;
    public_access = false;
    anonymous_access = false;
  };
  status = sleeping;
  capabilities_config = some files;
}

abbrev session : Session
session = record {
  user_id = "ann";
  is_anonymous = false;
  permissions = ("files", files) ∷ [];
  user_preferences = ("files", wishes) ∷ [];
}

may_read : can_use session "files" tool "read" (some server) (some server) ≡ true
unfolding can_use can_access_server_capabilities can_access_server can_use_by_server_context setting
    items_of Dict.get
may_read = refl

may_not_delete : can_use session "files" tool "delete" (some server) (some server) ≡ false
unfolding can_use can_access_server_capabilities can_access_server can_use_by_server_context setting
    items_of Dict.get
may_not_delete = refl

can_use-IsOn_example :
    ((can_use session "files" tool "read" (some server) (some server) ≡ true) ↔ (
      (can_use (without_preferences session) "files" tool "read" (some server) (some server) ≡ true)
      × IsOn (server_setting (Dict.get "files" session.user_preferences))
      × IsOn (setting tool "read" (Dict.get server.server_id session.user_preferences))))
    × (can_use session "files" tool "read" (some server) (some server) ≡ true
        → IsOn (setting tool "read" server.capabilities_config)
          × (server.entity.allow_user_input ≡ false
              → IsOn (setting tool "read" (Dict.get server.server_id session.permissions))))
can_use-IsOn_example = can_use-IsOn session "files" tool "read" (some server) server

-- in another order, and with another description of a tool, which is not looked at
abbrev before : Permissions
before = ("files", files) ∷ []

abbrev after : Permissions
after =
    (
      "files",
      record files {
        tools =
            ("delete", record (item (some false)) { description = some "Deletes a file" })
            ∷ ("read", item (some true))
            ∷ [];
      },
    )
    ∷ []

not_told : compare_permissions before after ≡ unchanged
unfolding compare_permissions is_capability_list_changed items_of Dict.get
not_told = refl

compare_permissions-SameView_example : SameView (Dict.get "files" before) (Dict.get "files" after)
compare_permissions-SameView_example = compare_permissions-SameView before after "files" not_told
