-- ===== src/OAuth/Exchange.antt =====
-- oauth/controllers/OAuthController.ts: the authorization of a client and the exchange of its code
-- for tokens. What OAuthClientService answers about a client is an argument, and so are the texts
-- that jsonwebtoken and randomBytes make.
pub mod Checked
use peta_core.Json.{codes}
use peta_core.Prelude.{
  text_eq, ℕ, Bool, Option, false, if◌then◌else◌, ltb, none, not, opt_beq, some, true, ◌*◌, ◌+◌,
  ◌==◌,
}
use peta_core.OAuth.Service.{
  Text, given, includes, parse_basic_auth, verify_pkce_challenge, is_secret,
}
use peta_core.OAuth.Tables.{AuthorizationCode, Client, Token}

pub data Refusal : Type 0 where
  code_required client_id_required client_not_found client_not_registered : Refusal
  secret_required invalid_credentials invalid_code code_used code_expired : Refusal
  other_client redirect_uri_mismatch verifier_required invalid_verifier claim_lost : Refusal
  refresh_token_required invalid_refresh_token token_revoked refresh_expired : Refusal
  scope_exceeds : Refusal

pub data Result {ℓ} (A : Type ℓ) : Type ℓ where
  refused : Refusal → Result A
  granted : A → Result A

pub data ErrorCode : Type 0 where
  invalid_request invalid_client unauthorized_client invalid_grant invalid_scope : ErrorCode

-- the HTTP status and the error of the answer
abbrev pub answer_of : Refusal → ℕ × ErrorCode
answer_of code_required = (400, invalid_request)
answer_of refresh_token_required = (400, invalid_request)
answer_of client_id_required = (401, invalid_client)
answer_of client_not_found = (401, invalid_client)
answer_of secret_required = (401, invalid_client)
answer_of invalid_credentials = (401, invalid_client)
answer_of client_not_registered = (400, unauthorized_client)
answer_of scope_exceeds = (400, invalid_scope)
answer_of _ = (400, invalid_grant)

pub record TokenRequest : Type 0 where
  pub code : Option Text
  pub redirect_uri : Option Text
  pub client_id : Option Text
  pub client_secret : Option Text
  pub code_verifier : Option Text
  pub refresh_token : Option Text
  pub scope : Option Text
  pub authorization : Option Text

abbrev pub basic_of : (Text → Text) → Option Text → Option (Text × Text)
basic_of decode none = none
basic_of decode (some header) = parse_basic_auth decode header

-- the header comes before the body
abbrev pub credentials_from : TokenRequest → Option (Text × Text) → Option Text × Option Text
credentials_from q none = (given q.client_id, given q.client_secret)
credentials_from q (some (i, s)) = (some i, some s)

unfoldable pub credentials : (Text → Text) → TokenRequest → Option Text × Option Text
credentials decode q = credentials_from q (basic_of decode (given q.authorization))

abbrev pub is_public : Client → Bool
is_public c = c.token_endpoint_auth_method == codes "none"

unfoldable pub verify_client_credentials : Option Client → Text → Bool
verify_client_credentials none secret = false
verify_client_credentials (some c) secret =
    if is_public c then true else is_secret secret c.client_secret

-- `again` is the client as the check of the secret finds it
abbrev pub check_secret : Client → Option Client → Option Text → Result Client
check_secret c again none = refused secret_required
check_secret c again (some secret) =
    if verify_client_credentials again secret then granted c else refused invalid_credentials

abbrev pub check_registered : Text → Option Client → Option Client → Option Text → Result Client
check_registered grant none again secret = refused client_not_found
check_registered grant (some c) again secret =
    if not (includes c.grant_types grant)
    then refused client_not_registered
    else if is_public c
    then granted c
    else check_secret c again secret

-- the id that the client gave, and the client
abbrev pub with_id : Text → Result Client → Result (Text × Client)
with_id i (refused e) = refused e
with_id i (granted c) = granted (i, c)

abbrev pub check_credentials :
    Text → Option Client → Option Client → Option Text → Option Text → Result (Text × Client)
check_credentials grant client again none secret = refused client_id_required
check_credentials grant client again (some i) secret =
    with_id i (check_registered grant client again secret)

unfoldable pub check_client :
    (Text → Text) → Text → TokenRequest → Option Client → Option Client → Result (Text × Client)
unfolding credentials verify_client_credentials
check_client decode grant q client again =
    let (i, secret) = credentials decode q in check_credentials grant client again i secret

abbrev pub is_s256 : Option Text → Bool
is_s256 m = opt_beq m (some (codes "S256"))

abbrev pub check_proof :
    (Text → Text) → AuthorizationCode → Option Text → Option Text → Result AuthorizationCode
check_proof sha256 r (some challenge) (some verifier) =
    if not (is_s256 r.challenge_method)
    then refused verifier_required
    else if verify_pkce_challenge sha256 verifier challenge
    then granted r
    else refused invalid_verifier
check_proof sha256 r _ _ = refused verifier_required

abbrev pub check_found_code :
    (Text → Text)
    → Text
    → Text
    → Option Text
    → ℕ
    → Option AuthorizationCode
    → Result AuthorizationCode
check_found_code sha256 client uri verifier now none = refused invalid_code
check_found_code sha256 client uri verifier now (some r) =
    if r.used
    then refused code_used
    else if ltb r.expires_at now
    then refused code_expired
    else if not (r.client_id == client)
    then refused other_client
    else if not (r.redirect_uri == uri)
    then refused redirect_uri_mismatch
    else check_proof sha256 r (given r.code_challenge) verifier

-- a code that passed the checks, and whether a refresh token goes with it
abbrev pub with_refresh : Client → Result AuthorizationCode → Result (AuthorizationCode × Bool)
with_refresh c (refused e) = refused e
with_refresh c (granted r) = granted (r, includes c.grant_types (codes "refresh_token"))

abbrev pub check_authenticated :
    (Text → Text)
    → Text
    → Text
    → Option Text
    → ℕ
    → (Text → Option AuthorizationCode)
    → Result (Text × Client)
    → Result (AuthorizationCode × Bool)
check_authenticated sha256 code uri verifier now look (refused e) = refused e
check_authenticated sha256 code uri verifier now look (granted (i, c)) =
    with_refresh c (check_found_code sha256 i uri verifier now (look code))

abbrev pub check_parameters :
    (Text → Text)
    → Option Text
    → Option Text
    → Option Text
    → ℕ
    → (Text → Option AuthorizationCode)
    → Result (Text × Client)
    → Result (AuthorizationCode × Bool)
check_parameters sha256 (some code) (some uri) verifier now look client =
    check_authenticated sha256 code uri verifier now look client
check_parameters sha256 _ _ verifier now look client = refused code_required

-- handleAuthorizationCodeGrant up to the claim; `look` reads the table of codes
unfoldable pub check_exchange :
    (Text → Text)
    → (Text → Text)
    → TokenRequest
    → Option Client
    → Option Client
    → (Text → Option AuthorizationCode)
    → ℕ
    → Result (AuthorizationCode × Bool)
unfolding check_client verify_pkce_challenge
check_exchange decode sha256 q client again look now =
    check_parameters sha256 (given q.code) (given q.redirect_uri) (given q.code_verifier) now look
      (check_client decode (codes "authorization_code") q client again)

abbrev pub access_token_lifetime : ℕ
access_token_lifetime = 3600

abbrev pub refresh_token_lifetime : ℕ
refresh_token_lifetime = 2592000

-- the row that the handler creates after the claim
unfoldable pub token_of : AuthorizationCode → Bool → ℕ → Text → Text → ℕ → ℕ → Token
token_of r refreshes id access refresh now later = record {
  token_id = id;
  access_token = access;
  refresh_token = if refreshes then some refresh else none;
  client_id = r.client_id;
  user_id = r.user_id;
  scopes = r.scopes;
  resource = r.resource;
  access_token_expires_at = now + access_token_lifetime * 1000;
  refresh_token_expires_at =
      if refreshes then some (later + refresh_token_lifetime * 1000) else none;
  revoked = false;
}
