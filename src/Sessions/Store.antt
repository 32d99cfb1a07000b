-- ===== src/Sessions/Store.antt =====
-- mcp/core/SessionStore.ts: the maps, and each stretch of code that runs without waiting. A call that
-- waits is a `start_…` and what follows its waits. `fingerprint` is the SHA-256 of a token.
use peta_core.Prelude.{
  bool_eq, ℕ, String, Bool, Option, List, string_eq, text_eq, [], any, false, get_or, if◌then◌else◌,
  keep, leb, length, map, none, not, some, true, ◌&&◌, ◌++◌, ◌+◌, ◌==◌, ◌∷◌,
}
use peta_core.Prelude.Dict
use peta_core.Text.{mask_token}
use peta_core.Sessions.Client.{AuthContext, ClientSession}

pub data DisconnectReason : Type 0 where
  client_disconnect user_disabled user_expired permission_revoked : DisconnectReason
  admin_request session_timeout server_shutdown session_removed : DisconnectReason

pub record Tombstone : Type 0 where
  pub user_id : String
  pub is_anonymous : Bool
  pub token_fingerprint : List ℕ
  pub expires_at : ℕ

pub record EventStore : Type 0 where
  pub session_id : String
  pub user_id : String

pub record SessionLogger : Type 0 where
  pub user_id : String
  pub session_id : String
  pub token_mask : List ℕ
  pub ip : String
  pub user_agent : String

pub record ProxySession : Type 0 where
  pub session_id : String
  pub user_id : String
  pub instructions : Option String

pub record SessionStore : Type 0 where
  pub sessions : List (String × ClientSession)
  pub proxy_sessions : List (String × ProxySession)
  pub user_sessions : List (String × List String)
  pub event_stores : List (String × EventStore)
  pub session_loggers : List (String × SessionLogger)
  pub terminated_sessions : List (String × Tombstone)

unfoldable pub no_sessions : SessionStore
no_sessions = record {
  sessions = [];
  proxy_sessions = [];
  user_sessions = [];
  event_stores = [];
  session_loggers = [];
  terminated_sessions = [];
}

abbrev pub session_inactivity_timeout_ms : ℕ
session_inactivity_timeout_ms = 600000

abbrev pub session_reconnect_grace_ms : ℕ
session_reconnect_grace_ms = 30000

pub record NewSession : Type 0 where
  pub session_id : String
  pub user_id : String
  pub token : List ℕ
  pub auth_context : AuthContext
  pub ip : String
  pub user_agent : String

abbrev pub client_session : NewSession → ℕ → ClientSession
client_session q now = record {
  session_id = q.session_id;
  user_id = q.user_id;
  token = q.token;
  auth_context = q.auth_context;
  last_active = now;
  last_user_info_refresh = now;
  sse_connected = false;
  last_sse_disconnected_at = none;
}

-- `none` where the source throws
unfoldable pub start_create : NewSession → ℕ → SessionStore → Option (SessionStore × ClientSession)
start_create q now s =
    if Dict.has q.session_id s.sessions
    then none
    else some (
      record s {
        event_stores =
            Dict.set q.session_id (record { session_id = q.session_id; user_id = q.user_id })
              s.event_stores;
        session_loggers =
            Dict.set q.session_id
              (record {
                user_id = q.user_id;
                session_id = q.session_id;
                token_mask = mask_token q.token;
                ip = q.ip;
                user_agent = q.user_agent;
              })
              s.session_loggers;
      },
      client_session q now,
    )

-- a `Set`: a list that has no entry twice, in insertion order
abbrev pub is_in : String → List String → Bool
is_in i ids = any (λ j. j == i) ids

unfoldable pub add_id : String → List String → List String
add_id i ids = if is_in i ids then ids else ids ++ i ∷ []

unfoldable pub add_to_user :
    String → String → List (String × List String) → List (String × List String)
unfolding add_id
add_to_user user i m = Dict.set user (add_id i (get_or (Dict.get user m) [])) m

unfoldable pub finish_create : ClientSession → Option String → SessionStore → SessionStore
unfolding add_to_user
finish_create c instructions s = record s {
  sessions = Dict.set c.session_id c s.sessions;
  proxy_sessions =
      Dict.set c.session_id
        (record { session_id = c.session_id; user_id = c.user_id; instructions = instructions })
        s.proxy_sessions;
  user_sessions = add_to_user c.user_id c.session_id s.user_sessions;
}

unfoldable pub prune_terminated_sessions : ℕ → SessionStore → SessionStore
prune_terminated_sessions now s = record s {
  terminated_sessions = keep (λ e. not (leb e.1.expires_at now)) s.terminated_sessions;
}

abbrev pub is_client_disconnect : DisconnectReason → Bool
is_client_disconnect client_disconnect = true
is_client_disconnect _ = false

module _ (fingerprint : List ℕ → List ℕ) where
  abbrev pub tombstone_of : ClientSession → ℕ → Tombstone
  tombstone_of c at = record {
    user_id = c.user_id;
    is_anonymous = c.auth_context.is_anonymous;
    token_fingerprint = fingerprint c.token;
    expires_at = at + session_reconnect_grace_ms;
  }

  unfoldable pub record_terminated_session : ClientSession → ℕ → ℕ → SessionStore → SessionStore
  unfolding prune_terminated_sessions
  record_terminated_session c now at s =
      let s' = prune_terminated_sessions now s in
      record s' {
        terminated_sessions = Dict.set c.session_id (tombstone_of c at) s'.terminated_sessions;
      }

  abbrev pub matches : Tombstone → AuthContext → List ℕ → Bool
  matches t a token =
      t.user_id == a.user_id
      && t.is_anonymous == a.is_anonymous
      && t.token_fingerprint == fingerprint token

  abbrev pub consume_found :
      String → AuthContext → List ℕ → ℕ → SessionStore → Option Tombstone → SessionStore × Bool
  consume_found i a token at s none = (s, false)
  consume_found i a token at s (some t) =
      let buried = record s { terminated_sessions = Dict.delete i s.terminated_sessions } in
      if leb t.expires_at at
      then (buried, false)
      else if matches t a token
      then (buried, true)
      else (s, false)

  -- an empty id counts as none
  unfoldable pub consume_terminated_session :
      Option String → AuthContext → List ℕ → ℕ → ℕ → SessionStore → SessionStore × Bool
  unfolding prune_terminated_sessions
  consume_terminated_session none a token now at s = (s, false)
  consume_terminated_session (some i) a token now at s =
      if i == ""
      then (s, false)
      else let s' = prune_terminated_sessions now s in
        consume_found i a token at s' (Dict.get i s'.terminated_sessions)

  -- the session that is being removed, if there is one
  unfoldable pub start_remove :
      String → DisconnectReason → Bool → ℕ → ℕ → SessionStore → SessionStore × Option ClientSession
  unfolding record_terminated_session
  start_remove i reason preserve now at s = start_remove_found (Dict.get i s.sessions)
    where
      start_remove_found : Option ClientSession → SessionStore × Option ClientSession
      start_remove_found none = (s, none)
      start_remove_found (some c) = (
        if preserve && is_client_disconnect reason then record_terminated_session c now at s else s,
        some c,
      )

abbrev pub delete_id : String → List String → List String
delete_id i ids = keep (λ j. not (j == i)) ids

-- the index without the id, and whether the user has no session left
abbrev pub drop_from_set :
    String → List (String × List String) → List String → List (String × List String) × Bool
drop_from_set user m [] = (Dict.delete user m, true)
drop_from_set user m (i ∷ ids) = (Dict.set user (i ∷ ids) m, false)

abbrev pub drop_from_user :
    String
    → String
    → List (String × List String)
    → Option (List String)
    → List (String × List String) × Bool
drop_from_user user i m none = (m, false)
drop_from_user user i m (some ids) = drop_from_set user m (delete_id i ids)

-- after the clean-up of the proxy session; true where the user's temporary servers are then closed
unfoldable pub finish_remove : String → ClientSession → SessionStore → SessionStore × Bool
finish_remove i c s =
    let (m, last) =
      drop_from_user c.user_id i s.user_sessions (Dict.get c.user_id s.user_sessions) in
    (
      record s {
        sessions = Dict.delete i s.sessions;
        proxy_sessions = Dict.delete i s.proxy_sessions;
        user_sessions = m;
        event_stores = Dict.delete i s.event_stores;
        session_loggers = Dict.delete i s.session_loggers;
      },
      last,
    )

-- removeAllUserSessions, for one session: after the clean-up of its proxy session
unfoldable pub drop_session : String → SessionStore → SessionStore
drop_session i s = record s {
  sessions = Dict.delete i s.sessions;
  proxy_sessions = Dict.delete i s.proxy_sessions;
}

-- and after its closing
unfoldable pub drop_resources : String → SessionStore → SessionStore
drop_resources i s = record s {
  event_stores = Dict.delete i s.event_stores;
  session_loggers = Dict.delete i s.session_loggers;
}

-- removeAllUserSessions, once all of them are closed
unfoldable pub finish_remove_user : String → SessionStore → SessionStore
finish_remove_user user s = record s { user_sessions = Dict.delete user s.user_sessions }

-- removeAllSessions, once all of them are closed
unfoldable pub clear_sessions : SessionStore → SessionStore
clear_sessions s = record s {
  sessions = [];
  proxy_sessions = [];
  user_sessions = [];
  event_stores = [];
  session_loggers = [];
}

-- the sessions of the index that are in the map
unfoldable pub sessions_of : List String → List (String × ClientSession) → List ClientSession
sessions_of [] m = []
sessions_of (i ∷ ids) m = add_found (Dict.get i m) (sessions_of ids m)
  where
    add_found : Option ClientSession → List ClientSession → List ClientSession
    add_found none cs = cs
    add_found (some c) cs = c ∷ cs

unfoldable pub get_user_sessions : String → SessionStore → List ClientSession
unfolding sessions_of
get_user_sessions user s = sessions_of (get_or (Dict.get user s.user_sessions) []) s.sessions

unfoldable pub get_user_session_counts : SessionStore → List (String × ℕ)
get_user_session_counts s = map (λ e. (e.0, length e.1)) s.user_sessions
