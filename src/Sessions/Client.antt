-- ===== src/Sessions/Client.antt =====
-- mcp/core/ClientSession.ts: what a session is created with, its activity and when it ends. Times are
-- in milliseconds, `expires_at` is in seconds, and each clock reading is an argument.
use peta_core.Access.Permissions.{Permissions}
use peta_core.Prelude.{
  ℕ, String, Bool, Option, List, false, get_or, if◌then◌else◌, ltb, max, nat_beq, none, some, suc,
  true, zero, ◌*◌, ◌-◌, ◌/◌,
}

pub record AuthContext : Type 0 where
  pub is_anonymous : Bool
  pub user_id : String
  pub expires_at : Option ℕ
  pub user_preferences : Permissions

pub record ClientSession : Type 0 where
  pub session_id : String
  pub user_id : String
  pub token : List ℕ
  pub auth_context : AuthContext
  pub last_active : ℕ
  pub last_user_info_refresh : ℕ
  pub sse_connected : Bool
  pub last_sse_disconnected_at : Option ℕ

unfoldable pub touch : ℕ → ClientSession → ClientSession
touch now c = record c { last_active = now }

unfoldable pub mark_sse_connected : ℕ → ClientSession → ClientSession
unfolding touch
mark_sse_connected now c =
    if c.sse_connected
    then c
    else touch now (record c { sse_connected = true; last_sse_disconnected_at = none })

unfoldable pub mark_sse_disconnected : ℕ → ClientSession → ClientSession
mark_sse_disconnected now c =
    if c.sse_connected
    then record c { sse_connected = false; last_sse_disconnected_at = some now }
    else c

-- an expiry of 0 counts as none
abbrev pub is_past : ℕ → Option ℕ → Bool
is_past now none = false
is_past now (some zero) = false
is_past now (some (suc e)) = ltb (suc e) (now / 1000)

-- `limit` is the two optional parameters, which count when neither is 0
unfoldable pub is_expired : ℕ → Option (ℕ × ℕ) → ClientSession → Bool
is_expired clock none c = is_past clock c.auth_context.expires_at
is_expired clock (some (now, minutes)) c =
    if is_past clock c.auth_context.expires_at
    then true
    else if nat_beq minutes 0
    then false
    else ltb (minutes * 60 * 1000) (now - c.last_active)

unfoldable pub is_inactive : ℕ → ℕ → ClientSession → Bool
is_inactive now timeout c =
    if c.sse_connected
    then false
    else ltb timeout (now - max c.last_active (get_or c.last_sse_disconnected_at 0))
