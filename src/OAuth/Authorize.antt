-- ===== src/OAuth/Authorize.antt =====
-- oauth/controllers/OAuthController.ts, completeAuthorizationGrant: the code that a user's consent
-- gives to a client. The client, the user, the own address of the server and the new code are
-- arguments.
use peta_core.Json.{codes}
use peta_core.Prelude.{
  text_eq, ℕ, Bool, Option, false, if◌then◌else◌, is_some, none, not, opt_beq, some, true, ◌&&◌,
  ◌*◌, ◌+◌, ◌==◌,
}
use peta_core.OAuth.Service.{
  Text, Url, given, includes, parse_scope, is_scope_subset, validate_redirect_uri,
}
use peta_core.OAuth.Tables.{AuthorizationCode, Client}

pub record AuthorizationParams : Type 0 where
  pub client_id : Text
  pub redirect_uri : Text
  pub scope : Option Text
  pub state : Option Text
  pub code_challenge : Option Text
  pub code_challenge_method : Option Text
  pub resource : Option Text

-- what the source throws, the errors of its redirections, and the row that it creates
pub data Consent : Type 0 where
  client_unknown response_type_unsupported redirect_uri_invalid pkce_required : Consent
  user_invalid scope_invalid target_invalid : Consent
  consented : AuthorizationCode → Consent

abbrev pub authorization_code_lifetime : ℕ
authorization_code_lifetime = 600

abbrev pub has_s256_pkce : Option Text → Option Text → Bool
has_s256_pkce challenge method = is_some (given challenge) && opt_beq method (some (codes "S256"))

-- an absent or empty resource is the server's own
abbrev pub is_own_resource : Text → Option Text → Bool
is_own_resource own none = true
is_own_resource own (some r) = r == own

module _ (to_lower_case : Text → Text) (parse_url : Text → Option Url) where
  abbrev pub consent_of_user :
      AuthorizationParams → Client → Text → Text → ℕ → Option Text → Consent
  consent_of_user p c own code now none = user_invalid
  consent_of_user p c own code now (some user) =
      let scopes = parse_scope p.scope in
      if not (is_scope_subset scopes c.scopes)
      then scope_invalid
      else if not (is_own_resource own (given p.resource))
      then target_invalid
      else consented (record {
        code = code;
        client_id = p.client_id;
        user_id = user;
        redirect_uri = p.redirect_uri;
        scopes = scopes;
        resource = some own;
        code_challenge = given p.code_challenge;
        challenge_method = given p.code_challenge_method;
        expires_at = now + authorization_code_lifetime * 1000;
        used = false;
      })

  unfoldable pub complete_authorization_grant :
      AuthorizationParams → Option Client → Option Text → Text → Text → ℕ → Consent
  complete_authorization_grant p none user own code now = client_unknown
  complete_authorization_grant p (some c) user own code now =
      if not (includes c.response_types (codes "code"))
      then response_type_unsupported
      else if not (validate_redirect_uri to_lower_case parse_url p.redirect_uri c.redirect_uris)
      then redirect_uri_invalid
      else if not (has_s256_pkce p.code_challenge p.code_challenge_method)
      then pkce_required
      else consent_of_user p c own code now user
