-- ===== src/OAuth/Refresh.antt =====
-- oauth/controllers/OAuthController.ts: the refresh of a token and its revocation.
use peta_core.Json.{codes, text}
use peta_core.Prelude.{
  text_eq, ℕ, Bool, Option, List, false, find, if◌then◌else◌, ltb, none, not, some, true, ◌*◌, ◌+◌,
  ◌==◌, any, nat_beq, ◌&&◌,
}
use peta_core.OAuth.Service.{Text, given, parse_scope, is_scope_subset}
use peta_core.OAuth.Tables.{Client, Token, Database, has_refresh_token, update_token}
use peta_core.OAuth.Exchange.{
  Result, TokenRequest, access_token_lifetime, check_client, granted, invalid_refresh_token,
  other_client, refresh_expired, refresh_token_required, refused, scope_exceeds, token_revoked,
}

-- the scopes that a refresh asks for, which the token must have
abbrev pub refreshed_scopes : Option Text → Token → Result (Token × List Text)
refreshed_scopes none t = granted (t, t.scopes)
refreshed_scopes (some s) t =
    let requested = parse_scope (some s) in
    if is_scope_subset requested t.scopes then granted (t, requested) else refused scope_exceeds

abbrev pub is_over : ℕ → Option ℕ → Bool
is_over now none = false
is_over now (some e) = ltb e now

abbrev pub check_found_token : Text → Option Text → ℕ → Option Token → Result (Token × List Text)
check_found_token client scope now none = refused invalid_refresh_token
check_found_token client scope now (some t) =
    if t.revoked
    then refused token_revoked
    else if is_over now t.refresh_token_expires_at
    then refused refresh_expired
    else if not (t.client_id == client)
    then refused other_client
    else refreshed_scopes scope t

abbrev pub check_refresher :
    Text
    → Option Text
    → ℕ
    → (Text → Option Token)
    → Result (Text × Client)
    → Result (Token × List Text)
check_refresher refresh scope now look (refused e) = refused e
check_refresher refresh scope now look (granted (i, c)) =
    check_found_token i scope now (look refresh)

abbrev pub check_refresh_token :
    Option Text
    → Option Text
    → ℕ
    → (Text → Option Token)
    → Result (Text × Client)
    → Result (Token × List Text)
check_refresh_token none scope now look client = refused refresh_token_required
check_refresh_token (some refresh) scope now look client =
    check_refresher refresh scope now look client

-- handleRefreshTokenGrant up to the update: the token as it was read, and its new scopes
unfoldable pub check_refresh :
    (Text → Text)
    → TokenRequest
    → Option Client
    → Option Client
    → (Text → Option Token)
    → ℕ
    → Result (Token × List Text)
check_refresh decode q client again look now =
    check_refresh_token (given q.refresh_token) (given q.scope) now look
      (check_client decode (codes "refresh_token") q client again)

-- the columns that the refresh sets
abbrev pub refreshed : Text → ℕ → List Text → Token → Token
refreshed access now scopes t = record t {
  access_token = access;
  access_token_expires_at = now + access_token_lifetime * 1000;
  scopes = scopes;
}

abbrev pub has_access_token : ℕ → Text → Token → Bool
has_access_token id access t = t.access_token == access && not (nat_beq t.token_id id)

-- `none` where another row has the access token
unfoldable pub finish_refresh : ℕ → List Text → Text → ℕ → Database → Option Database
unfolding update_token
finish_refresh id scopes access now d =
    if any (has_access_token id access) d.tokens
    then none
    else some (update_token id (refreshed access now scopes) d)

pub data Hint : Type 0 where
  hint_refresh_token hint_access_token no_hint other_hint : Hint

abbrev pub looks_for_refresh : Hint → Bool
looks_for_refresh hint_refresh_token = true
looks_for_refresh no_hint = true
looks_for_refresh _ = false

abbrev pub looks_for_access : Hint → Bool
looks_for_access hint_access_token = true
looks_for_access no_hint = true
looks_for_access _ = false

abbrev pub first_found : Option Token → Option Token → Option Token
first_found none o = o
first_found (some t) o = some t

unfoldable pub find_revocable : Hint → Text → List Token → Option Token
find_revocable hint text ts =
    first_found (if looks_for_refresh hint then find (has_refresh_token text) ts else none)
      (if looks_for_access hint then find (λ t. t.access_token == text) ts else none)

-- a request that names no client revokes any client's token
abbrev pub may_revoke : Option Text → Token → Bool
may_revoke none t = true
may_revoke (some i) t = t.client_id == i

abbrev pub set_revoked : Token → Token
set_revoked t = record t { revoked = true }

abbrev pub revoke_found : Option Text → Database → Option Token → Database
revoke_found client d none = d
revoke_found client d (some t) =
    if may_revoke client t then update_token t.token_id set_revoked d else d

-- revoke, for a client that passed its checks or was not named
unfoldable pub revoke : Option Text → Hint → Text → Database → Database
unfolding find_revocable update_token
revoke client hint text d = revoke_found client d (find_revocable hint text d.tokens)
