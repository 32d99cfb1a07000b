-- ===== src/OAuth/Examples.antt =====
-- Runs of the token endpoint of oauth/controllers/OAuthController.ts at concrete inputs.
use peta_core.Json.{codes, text}
use peta_core.Prelude.{
  string_eq, keep, text_eq, List, Option, ◌≡◌, All, count, [], arith, false, find, if◌then◌else◌,
  map, none, refl, some, true, ◌==◌, ◌∷◌, ◌≤◌,
}
use peta_core.OAuth.Service.{Text, is_scope_subset, parse_scope, verify_pkce_challenge}
use peta_core.OAuth.Tables.{
  AuthorizationCode, Client, claim_code, create_token, find_code, update_token,
}
use peta_core.OAuth.Exchange.{
  TokenRequest, check_exchange, granted, check_client, credentials, token_of,
}
use peta_core.OAuth.Exchange.Checked.{IsEntitled, check_exchange-IsEntitled}
use peta_core.OAuth.Interleaved.{
  Step, serve, opened, checking, checking_refresh, claiming, creating, updating,
}
use peta_core.Prelude.Dict
use peta_core.OAuth.Flows.{
  Call, completion, failure, creation, completed, Flow, Flows, call_all, new_flow,
}
use peta_core.OAuth.Authorize.{AuthorizationParams}
use peta_core.OAuth.Flows.Final.{IsStill, call_all-IsStill}
use peta_core.OAuth.Interleaved.Once.{serve-given_for}
use peta_core.OAuth.Interleaved.Within.{serve-TokenIn, start_tables}
use peta_core.OAuth.Interleaved.Granted.{TokenIn}
use peta_core.OAuth.Refresh.{check_refresh, finish_refresh}
use peta_core.Text.{split_on}

abbrev same : Text → Text
same text = text

abbrev desk : Client
desk = record {
  client_id = codes "desk";
  client_secret = none;
  redirect_uris = codes "http://localhost/done" ∷ [];
  scopes = codes "mcp:tools" ∷ [];
  grant_types = codes "authorization_code" ∷ codes "refresh_token" ∷ [];
  response_types = codes "code" ∷ [];
  token_endpoint_auth_method = codes "none";
}

abbrev code_row : AuthorizationCode
code_row = record {
  code = codes "k7";
  client_id = codes "desk";
  user_id = codes "ann";
  redirect_uri = codes "http://localhost/done";
  scopes = codes "mcp:tools" ∷ codes "mcp:prompts" ∷ [];
  resource = none;
  code_challenge = some (codes "v1");
  challenge_method = some (codes "S256");
  expires_at = 600000;
  used = false;
}

abbrev exchange : TokenRequest
exchange = record {
  code = some (codes "k7");
  redirect_uri = some (codes "http://localhost/done");
  client_id = some (codes "desk");
  client_secret = none;
  code_verifier = some (codes "v1");
  refresh_token = none;
  scope = none;
  authorization = none;
}

abbrev renewal : TokenRequest
renewal = record exchange {
  code = none;
  refresh_token = some (codes "r1");
  scope = some (codes "mcp:tools");
}

abbrev rows : List AuthorizationCode
rows = code_row ∷ []

-- Two requests with one code pass the checks before either claims it.
abbrev race : List Step
race =
    checking exchange (some desk) (some desk) 1000
    ∷ checking exchange (some desk) (some desk) 1001
    ∷ claiming 0 1002
    ∷ claiming 0 1003
    ∷ creating 0 1 (codes "a1") (codes "r1") 1004 1005
    ∷ creating 0 2 (codes "a2") (codes "r2") 1006 1007
    ∷ checking_refresh renewal (some desk) (some desk) 2000
    ∷ updating 0 (codes "a3") 2001
    ∷ []

race-tokens :
    map {B = Text × List Text}
      (λ t. (t.access_token, t.scopes))
      (serve same same race (opened (start_tables rows))).database.tokens
    ≡ (codes "a3", codes "mcp:tools" ∷ []) ∷ []
unfolding serve check_exchange check_client credentials find_code claim_code create_token token_of
    check_refresh finish_refresh update_token verify_pkce_challenge parse_scope is_scope_subset
    split_on find count keep
race-tokens = refl

unique_rows : (k : Text) → count (λ (r : AuthorizationCode). r.code == k) rows ≤ 1
unfolding count
unique_rows k = ground arith

serve-given_for_example :
    count (λ g. g == codes "k7") (serve same same race (opened (start_tables rows))).given_for ≤ 1
serve-given_for_example =
    serve-given_for same same race (start_tables rows) (codes "k7") unique_rows

serve-TokenIn_example :
    All
      (TokenIn (serve same same race (opened (start_tables rows))).database.authorization_codes)
      (serve same same race (opened (start_tables rows))).database.tokens
serve-TokenIn_example = serve-TokenIn same same race rows

abbrev look : Text → Option AuthorizationCode
look c = if c == codes "k7" then some code_row else none

exchange-granted :
    check_exchange same same exchange (some desk) (some desk) look 1000 ≡ granted (code_row, true)
unfolding check_exchange check_client credentials verify_pkce_challenge
exchange-granted = refl

check_exchange-IsEntitled_example : IsEntitled same same exchange look 1000 code_row
check_exchange-IsEntitled_example =
    check_exchange-IsEntitled same same exchange look 1000 (some desk) (some desk) code_row true
      exchange-granted

abbrev asked : AuthorizationParams
asked = record {
  client_id = codes "desk";
  redirect_uri = codes "http://localhost/done";
  scope = none;
  state = none;
  code_challenge = some (codes "v1");
  code_challenge_method = some (codes "S256");
  resource = none;
}

abbrev ended : Flow
ended = record (new_flow "f1" asked (codes "https://gate") 1000) {
  status = completed;
  redirect = some (codes "http://localhost/done?code=k7");
}

abbrev flows : Flows
flows = ("f1", ended) ∷ []

flows-IsUnique : Dict.IsUnique flows
unfolding Dict.get
flows-IsUnique = (refl, tt)

flows-get : Dict.get "f1" flows ≡ some ended
unfolding Dict.get
flows-get = refl

-- A second answer, a failure and a clean-up long after.
abbrev later_calls : List Call
later_calls =
    completion "f1" (codes "http://localhost/other") 2000
    ∷ failure "f1" (codes "invalid_request") (codes "User token is required") 2001
    ∷ creation "f2" asked (codes "https://gate") 9000000 9000001
    ∷ []

call_all-IsStill_example : IsStill ended (Dict.get "f1" (call_all later_calls flows))
call_all-IsStill_example =
    call_all-IsStill "f1" ended later_calls flows refl flows-IsUnique flows-get
      (tt, (tt, (refl, tt)))
