-- ===== src/Sessions/Calls.antt =====
-- mcp/core/SessionStore.ts: whole calls, where no other call runs while one waits. The profile of
-- discoveryConfigService is an argument.
pub mod Indexed
pub mod Removed
pub mod Updated
use peta_core.Prelude.{
  string_eq, ℕ, String, Bool, Option, List, [], false, if◌then◌else◌, keep, map, none, not, some,
  true, ◌&&◌, ◌==◌, ◌∷◌, get_or, ◌++◌,
}
use peta_core.Prelude.Dict
use peta_core.Access.Permissions.{Permissions}
use peta_core.Access.Changes.{Changes, compare_permissions}
use peta_core.Sessions.Client.{ClientSession, is_expired, is_inactive}
use peta_core.Sessions.Store.{
  SessionStore, DisconnectReason, NewSession, clear_sessions, drop_resources, drop_session,
  finish_create, finish_remove, finish_remove_user, session_inactivity_timeout_ms, session_timeout,
  start_create, start_remove, user_expired, get_user_sessions,
}

pub record Profile : Type 0 where
  pub enabled : Bool
  pub is_flat : Bool
  pub instruction_text : Option String

-- an empty text counts as none
abbrev pub if_not_empty : Option String → Option String
if_not_empty none = none
if_not_empty (some t) = if t == "" then none else some t

abbrev pub instructions_of : Option Profile → Option String
instructions_of none = none
instructions_of (some p) =
    if p.enabled && not p.is_flat then if_not_empty p.instruction_text else none

abbrev pub finish_created :
    Option String → Option (SessionStore × ClientSession) → Option (SessionStore × ClientSession)
finish_created instructions none = none
finish_created instructions (some (s, c)) = some (finish_create c instructions s, c)

unfoldable pub create_session :
    NewSession → ℕ → Option Profile → SessionStore → Option (SessionStore × ClientSession)
create_session q now profile s = finish_created (instructions_of profile) (start_create q now s)

-- removeAllUserSessions: the sessions of the index that exist, one after the other
abbrev pub drop_one : String → SessionStore → SessionStore
drop_one i s = if Dict.has i s.sessions then drop_resources i (drop_session i s) else s

unfoldable pub drop_all : List String → SessionStore → SessionStore
drop_all [] s = s
drop_all (i ∷ ids) s = drop_all ids (drop_one i s)

abbrev pub remove_users_of : String → SessionStore → Option (List String) → SessionStore
remove_users_of user s none = s
remove_users_of user s (some []) = s
remove_users_of user s (some (i ∷ ids)) = finish_remove_user user (drop_all (i ∷ ids) s)

unfoldable pub remove_all_user_sessions : String → SessionStore → SessionStore
unfolding drop_all
remove_all_user_sessions user s = remove_users_of user s (Dict.get user s.user_sessions)

unfoldable pub remove_all_sessions : SessionStore → SessionStore
remove_all_sessions s = clear_sessions s

abbrev pub remove_started : String → SessionStore × Option ClientSession → SessionStore
remove_started i (s, none) = s
remove_started i (s, some c) = (finish_remove i c s).0

abbrev pub expired_entries : ℕ → SessionStore → List String
expired_entries now s = map (λ e. e.0) (keep (λ e. is_expired now none e.1) s.sessions)

abbrev pub inactive_entries : ℕ → SessionStore → List String
inactive_entries now s =
    map (λ e. e.0)
      (keep
        (λ e. not (is_expired now none e.1) && is_inactive now session_inactivity_timeout_ms e.1)
        s.sessions)

module _ (fingerprint : List ℕ → List ℕ) where
  unfoldable pub remove_single_session :
      String → DisconnectReason → Bool → ℕ → ℕ → SessionStore → SessionStore
  remove_single_session i reason preserve now at s =
      remove_started i (start_remove fingerprint i reason preserve now at s)

  abbrev pub remove_found :
      String → DisconnectReason → Bool → ℕ → SessionStore → Option ClientSession → SessionStore
  remove_found i reason is_user now s none = s
  remove_found i reason is_user now s (some c) =
      if is_user
      then remove_all_user_sessions c.user_id s
      else remove_single_session i reason false now now s

  -- nothing is recorded here, so no clock counts
  unfoldable pub remove_session : String → DisconnectReason → Bool → ℕ → SessionStore → SessionStore
  unfolding remove_all_user_sessions remove_single_session
  remove_session i reason is_user now s =
      remove_found i reason is_user now s (Dict.get i s.sessions)

  -- the removal that is tried again after an error is the same
  unfoldable pub terminate_session : String → DisconnectReason → ℕ → SessionStore → SessionStore
  unfolding remove_single_session
  terminate_session i reason now s = remove_single_session i reason false now now s

  unfoldable pub remove_each :
      List String → DisconnectReason → Bool → ℕ → SessionStore → SessionStore
  unfolding remove_session
  remove_each [] reason is_user now s = s
  remove_each (i ∷ ids) reason is_user now s =
      remove_each ids reason is_user now (remove_session i reason is_user now s)

  -- one reading of the clock for the whole scan
  unfoldable pub cleanup_expired_sessions : ℕ → SessionStore → SessionStore
  unfolding remove_each
  cleanup_expired_sessions now s =
      remove_each (inactive_entries now s) session_timeout false now
        (remove_each (expired_entries now s) user_expired true now s)

-- what the session is told of, and the session with the new preferences
abbrev pub with_preferences : Permissions → ClientSession → ClientSession
with_preferences new c = record c {
  auth_context = record c.auth_context { user_preferences = new };
}

abbrev pub update_one :
    Permissions
    → String
    → List (String × ClientSession)
    → Option ClientSession
    → List (String × ClientSession)
update_one new i m none = m
update_one new i m (some c) = Dict.set i (with_preferences new c) m

abbrev pub told_one : Permissions → Option ClientSession → List (String × Changes)
told_one new none = []
told_one new (some c) = (c.session_id, compare_permissions c.auth_context.user_preferences new) ∷ []

unfoldable pub update_each :
    Permissions
    → List String
    → List (String × ClientSession)
    → List (String × ClientSession) × List (String × Changes)
update_each new [] m = (m, [])
update_each new (i ∷ ids) m =
    let (m', told) = update_each new ids (update_one new i m (Dict.get i m)) in
    (m', told_one new (Dict.get i m) ++ told)

abbrev pub update_found_sessions :
    String
    → Option Permissions
    → SessionStore
    → List ClientSession
    → Option (SessionStore × List (String × Changes))
update_found_sessions user found s [] = some (s, [])
update_found_sessions user none s (c ∷ cs) = none
update_found_sessions user (some new) s (c ∷ cs) =
    let (m, told) = update_each new (get_or (Dict.get user s.user_sessions) []) s.sessions in
    some (record s { sessions = m }, told)

-- `found` is what the user's row says, `none` where there is no row and the source throws
unfoldable pub update_user_preferences :
    String → Option Permissions → SessionStore → Option (SessionStore × List (String × Changes))
unfolding update_each
update_user_preferences user found s = update_found_sessions user found s (get_user_sessions user s)

pub data Call : Type 0 where
  creation : NewSession → ℕ → Option Profile → Call
  removal : String → DisconnectReason → Bool → ℕ → ℕ → Call
  leaving : String → DisconnectReason → Bool → ℕ → Call
  user_removal : String → Call
  clean_up : ℕ → Call
  preference_update : String → Option Permissions → Call
  shutdown : Call

abbrev pub after_create : SessionStore → Option (SessionStore × ClientSession) → SessionStore
after_create s none = s
after_create s (some (s', c)) = s'

abbrev pub after_update :
    SessionStore → Option (SessionStore × List (String × Changes)) → SessionStore
after_update s none = s
after_update s (some (s', told)) = s'

module _ (fingerprint : List ℕ → List ℕ) where
  unfoldable pub call : Call → SessionStore → SessionStore
  call (creation q now profile) s = after_create s (create_session q now profile s)
  call (removal i reason preserve now at) s =
      remove_single_session fingerprint i reason preserve now at s
  call (leaving i reason is_user now) s = remove_session fingerprint i reason is_user now s
  call (user_removal user) s = remove_all_user_sessions user s
  call (clean_up now) s = cleanup_expired_sessions fingerprint now s
  call (preference_update user found) s = after_update s (update_user_preferences user found s)
  call shutdown s = remove_all_sessions s

  unfoldable pub call_all : List Call → SessionStore → SessionStore
  unfolding call
  call_all [] s = s
  call_all (c ∷ cs) s = call_all cs (call c s)
