-- ===== src/Router.antt =====
-- mcp/core/GlobalRequestRouter.ts: the notifications of downstream servers, sent on to the sessions
-- that may see them. Which session can access the server, and for which the sending throws, are
-- arguments; the sessions are those of the session store, in its order.
pub mod Delivered
pub mod Once
mod Examples
use peta_core.Json.{codes, show, keys}
use peta_core.Prelude.{
  string_eq, text_eq, ℕ, String, Bool, List, [], any, drop, get_or, if◌then◌else◌, length, ltb, not,
  ◌&&◌, ◌++◌, ◌-◌, ◌==◌, ◌∷◌,
}
use peta_core.Prelude.Dict

-- a `Set` of keys for each session, in insertion order
abbrev pub Sent : Type 0
Sent = List (String × List (List ℕ))

abbrev pub sent_to : String → Sent → List (List ℕ)
sent_to i m = get_or (Dict.get i m) []

abbrev pub has_key : List ℕ → List (List ℕ) → Bool
has_key key keys = any (λ k. k == key) keys

abbrev pub key_limit : ℕ
key_limit = 100

-- the last of the keys, if there are too many
unfoldable pub trim_keys : List (List ℕ) → List (List ℕ)
trim_keys keys = if ltb key_limit (length keys) then drop (length keys - key_limit) keys else keys

abbrev pub wants : (String → Bool) → List ℕ → Sent → String → Bool
wants can_access key m i = can_access i && not (has_key key (sent_to i m))

-- the map, and the sessions that were sent to, in their order
unfoldable pub broadcast :
    (String → Bool) → (String → Bool) → List ℕ → List String → Sent → Sent × List String
unfolding trim_keys
broadcast can_access throws key [] m = (m, [])
broadcast can_access throws key (i ∷ ids) m =
    let sends = wants can_access key m i && not (throws i) in
    let (m', to) =
      broadcast can_access throws key ids
        (if sends then Dict.set i (trim_keys (sent_to i m ++ key ∷ [])) m else m) in
    (m', if sends then i ∷ to else to)

abbrev pub key_of : List ℕ → List ℕ → ℕ → List ℕ
key_of what which now = what ++ which ++ b'_' ∷ show now

unfoldable pub handle_tools_list_changed :
    (String → Bool) → (String → Bool) → List ℕ → ℕ → List String → Sent → Sent × List String
unfolding broadcast
handle_tools_list_changed can_access throws server now ids m =
    broadcast can_access throws (key_of (codes "tools_changed_") server now) ids m

unfoldable pub handle_resources_list_changed :
    (String → Bool) → (String → Bool) → List ℕ → ℕ → List String → Sent → Sent × List String
unfolding broadcast
handle_resources_list_changed can_access throws server now ids m =
    broadcast can_access throws (key_of (codes "resources_changed_") server now) ids m

unfoldable pub handle_prompts_list_changed :
    (String → Bool) → (String → Bool) → List ℕ → ℕ → List String → Sent → Sent × List String
unfolding broadcast
handle_prompts_list_changed can_access throws server now ids m =
    broadcast can_access throws (key_of (codes "prompts_changed_") server now) ids m

abbrev pub is_among : List String → String → Bool
is_among subscribers i = any (λ j. j == i) subscribers

-- only the sessions that subscribed to the resource
unfoldable pub handle_resource_updated :
    (String → Bool)
    → (String → Bool)
    → List ℕ
    → List ℕ
    → List String
    → ℕ
    → List String
    → Sent
    → Sent × List String
unfolding broadcast
handle_resource_updated can_access throws server uri [] now ids m = (m, [])
handle_resource_updated can_access throws server uri (j ∷ subscribers) now ids m =
    broadcast (λ i. is_among (j ∷ subscribers) i && can_access i) throws
      (key_of (codes "resource_updated_") (server ++ b'_' ∷ uri) now) ids m

unfoldable pub cleanup_session_notifications : String → Sent → Sent
cleanup_session_notifications i m = Dict.delete i m

unfoldable pub cleanup_all_session_notifications : Sent → Sent
cleanup_all_session_notifications m = []
