-- ===== src/Access/Session/Layers.antt =====
-- mcp/core/ClientSession.ts: what each layer of settings does to what a session may use.
use peta_core.Prelude.{
  string_eq, String, Bool, Option, ◌≡◌, ◌↔◌, [], arith, get_or, none, some, true, Bool-cases, false,
  if◌then◌else◌, inl, inr, not, ap, refl, ◌&&◌, ◌∙◌,
}
use peta_core.Prelude.Dict
use peta_core.Access.Permissions.{Kind, setting, server_setting}
use peta_core.Access.Session.{
  Session, ServerContext, can_access_server, can_use_by_server_context,
  can_access_server_capabilities, can_use, is_ready, find_capability, use_found,
}

abbrev pub without_preferences : Session → Session
without_preferences s = record s { user_preferences = [] }

-- A setting other than `false`.
abbrev pub IsOn : Option Bool → Type 0
IsOn o = get_or o true ≡ true

access-layers :
    (s : Session) (server : String) (a : Option ServerContext)
    → (can_access_server s server a ≡ true) ↔ (
        (can_access_server (without_preferences s) server a ≡ true)
        × IsOn (server_setting (Dict.get server s.user_preferences)))
unfolding can_access_server Dict.get
access-layers s server none = (λ h. cc, λ h. h.0)
access-layers s server (some a) = (λ h. (ground arith, ground arith), λ h. ground (arith, h.0, h.1))

by_context-layers :
    (s : Session) (k : Kind) (name : String) (b : ServerContext)
    → (can_use_by_server_context s k name b ≡ true) ↔ (
        (can_use_by_server_context (without_preferences s) k name b ≡ true)
        × IsOn (setting k name (Dict.get b.server_id s.user_preferences)))
unfolding can_use_by_server_context setting Dict.get
by_context-layers s k name b = (λ h. (ground arith, ground arith), λ h. ground (arith, h.0, h.1))

-- The settings of the server itself, which are the same for all sessions.
abbrev shows : Kind → String → ServerContext → Bool
shows k name b =
    if not b.entity.enabled
    then false
    else if not (is_ready b.status)
    then false
    else get_or (setting k name b.capabilities_config) true

find_capability-shows :
    (k : Kind) (name : String) (b : ServerContext)
    → find_capability k name (some b) ≡ (if shows k name b then some b else none)
find_capability-shows k name b = elim (Bool-cases b.entity.enabled) [
  | inr e ↦ rw e refl
  | inl e ↦ elim (Bool-cases (is_ready b.status)) [
    | inr f ↦ rw e (rw f refl)
    | inl f ↦ rw e (rw f refl)
  ]
]

can_use-all :
    (s : Session) (server : String) (k : Kind) (name : String) (a : Option ServerContext)
    (b : ServerContext)
    → can_use s server k name a (some b)
      ≡ (can_access_server s server a && (shows k name b && can_use_by_server_context s k name b))
unfolding can_use can_access_server_capabilities
can_use-all s server k name a b = elim (Bool-cases (can_access_server s server a)) [
  | inr e ↦ rw e refl
  | inl e ↦ rw e (
      ap (use_found s k name) (find_capability-shows k name b)
      ∙ (elim (Bool-cases (shows k name b)) [ inl f ↦ rw f refl | inr f ↦ rw f refl ]))
]

-- A session may use a tool, a resource or a prompt of a server exactly if it may without the
-- preferences of its user and these turn off neither the server nor the item; and if it may, then
-- the item is turned off neither by the server nor, unless a user configured the server, by an
-- administrator.
pub can_use-IsOn :
    (s : Session) (server : String) (k : Kind) (name : String) (a : Option ServerContext)
    (b : ServerContext)
    → ((can_use s server k name a (some b) ≡ true) ↔ (
        (can_use (without_preferences s) server k name a (some b) ≡ true)
        × IsOn (server_setting (Dict.get server s.user_preferences))
        × IsOn (setting k name (Dict.get b.server_id s.user_preferences))))
      × (can_use s server k name a (some b) ≡ true
          → IsOn (setting k name b.capabilities_config)
            × (b.entity.allow_user_input ≡ false
                → IsOn (setting k name (Dict.get b.server_id s.permissions))))
unfolding can_use_by_server_context
can_use-IsOn s server k name a b =
    let full = can_use-all s server k name a b in
    let bare = can_use-all (without_preferences s) server k name a b in
    let access = access-layers s server a in
    let context = by_context-layers s k name b in
    (
      (
        λ h. (
          ground (arith, bare, access, context),
          ground (arith, access),
          ground (arith, context),
        ),
        λ h. ground (arith, full, bare, access.1, context.1, h.0, h.1, h.2),
      ),
      λ h. (ground arith, λ u. ground arith),
    )
