-- ===== src/OAuth/Tables.antt =====
-- The tables oauth_authorization_codes and oauth_tokens with the statements of
-- oauth/controllers/OAuthController.ts, and what a client is registered with. Times are in
-- milliseconds.
use peta_core.Prelude.{
  text_eq, ℕ, Bool, Option, List, [], count, find, if◌then◌else◌, is_some, leb, map, nat_beq, none,
  not, opt_beq, some, true, ◌&&◌, ◌++◌, ◌==◌, ◌∷◌, any, false, ◌||◌,
}
use peta_core.OAuth.Service.{Text}

pub record AuthorizationCode : Type 0 where
  pub code : Text
  pub client_id : Text
  pub user_id : Text
  pub redirect_uri : Text
  pub scopes : List Text
  pub resource : Option Text
  pub code_challenge : Option Text
  pub challenge_method : Option Text
  pub expires_at : ℕ
  pub used : Bool

pub record Token : Type 0 where
  pub token_id : ℕ
  pub access_token : Text
  pub refresh_token : Option Text
  pub client_id : Text
  pub user_id : Text
  pub scopes : List Text
  pub resource : Option Text
  pub access_token_expires_at : ℕ
  pub refresh_token_expires_at : Option ℕ
  pub revoked : Bool

pub record Database : Type 0 where
  pub authorization_codes : List AuthorizationCode
  pub tokens : List Token

pub record Client : Type 0 where
  pub client_id : Text
  pub client_secret : Option Text
  pub redirect_uris : List Text
  pub scopes : List Text
  pub grant_types : List Text
  pub response_types : List Text
  pub token_endpoint_auth_method : Text

-- the key of the table
unfoldable pub find_code : Text → List AuthorizationCode → Option AuthorizationCode
find_code c t = find (λ r. r.code == c) t

-- `none` where the key is taken
unfoldable pub create_code : AuthorizationCode → Database → Option Database
unfolding find_code
create_code r d =
    if is_some (find_code r.code d.authorization_codes)
    then none
    else some (record d { authorization_codes = d.authorization_codes ++ r ∷ [] })

-- `where: { code, used: false, expiresAt: { gte: now } }`
abbrev pub is_claimable : Text → ℕ → AuthorizationCode → Bool
is_claimable c now r = r.code == c && not r.used && leb now r.expires_at

abbrev pub mark_used : Text → ℕ → AuthorizationCode → AuthorizationCode
mark_used c now r = if is_claimable c now r then record r { used = true } else r

-- the table with the claim, and the number of rows that it changed
unfoldable pub claim_code : Text → ℕ → Database → Database × ℕ
claim_code c now d = (
  record d { authorization_codes = map (mark_used c now) d.authorization_codes },
  count (is_claimable c now) d.authorization_codes,
)

abbrev pub same_refresh_token : Option Text → Option Text → Bool
same_refresh_token none o = false
same_refresh_token (some r) o = opt_beq o (some r)

-- the columns that no two rows share: the id, the access token and the refresh token
abbrev pub is_rival : Token → Token → Bool
is_rival t u =
    nat_beq u.token_id t.token_id
    || u.access_token == t.access_token
    || same_refresh_token t.refresh_token u.refresh_token

-- `none` where a column that is to be unique is not
unfoldable pub create_token : Token → Database → Option Database
create_token t d =
    if any (is_rival t) d.tokens then none else some (record d { tokens = d.tokens ++ t ∷ [] })

abbrev pub update_row : ℕ → (Token → Token) → Token → Token
update_row i f t = if nat_beq t.token_id i then f t else t

unfoldable pub update_token : ℕ → (Token → Token) → Database → Database
update_token i f d = record d { tokens = map (update_row i f) d.tokens }

abbrev pub has_refresh_token : Text → Token → Bool
has_refresh_token r t = opt_beq t.refresh_token (some r)
