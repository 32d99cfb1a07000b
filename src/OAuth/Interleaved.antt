-- ===== src/OAuth/Interleaved.antt =====
-- The token endpoint for many requests at once: each step is what a request does between two waits
-- for the database. A step that a request may not take, or that the database refuses, changes
-- nothing. `given_for` notes the codes that tokens were created for.
pub mod Once
pub mod Scopes
pub mod Granted
pub mod Updated
pub mod Within
use peta_core.Json.{text}
use peta_core.Prelude.{
  text_eq, ℕ, Bool, Option, List, [], find, if◌then◌else◌, nat_beq, none, some, suc, zero, ◌∷◌,
}
use peta_core.OAuth.Service.{Text}
use peta_core.OAuth.Tables.{
  AuthorizationCode, Client, Token, Database, claim_code, create_code, create_token, find_code,
  has_refresh_token,
}
use peta_core.OAuth.Exchange.{Result, TokenRequest, check_exchange, granted, refused, token_of}
use peta_core.OAuth.Refresh.{Hint, check_refresh, finish_refresh, revoke}

-- `checked` has the requests that passed the checks, `claimed` those that claimed their code, and
-- `refreshing` those that refresh a token.
pub record Endpoint : Type 0 where
  pub database : Database
  pub checked : List (AuthorizationCode × Bool)
  pub claimed : List (AuthorizationCode × Bool)
  pub refreshing : List (Token × List Text)
  pub given_for : List Text

-- before any request
abbrev pub opened : Database → Endpoint
opened d = record { database = d; checked = []; claimed = []; refreshing = []; given_for = [] }

-- The clients of a request are what OAuthClientService answers in it.
pub data Step : Type 0 where
  consenting : AuthorizationCode → Step
  checking : TokenRequest → Option Client → Option Client → ℕ → Step
  claiming : ℕ → ℕ → Step
  creating : ℕ → ℕ → Text → Text → ℕ → ℕ → Step
  checking_refresh : TokenRequest → Option Client → Option Client → ℕ → Step
  updating : ℕ → Text → ℕ → Step
  revoking : Option Text → Hint → Text → Step

abbrev pub item {ℓ} : {A : Type ℓ} → ℕ → List A → Option A
item n [] = none
item zero (x ∷ xs) = some x
item (suc n) (x ∷ xs) = item n xs

abbrev pub without {ℓ} : {A : Type ℓ} → ℕ → List A → List A
without n [] = []
without zero (x ∷ xs) = xs
without (suc n) (x ∷ xs) = x ∷ without n xs

abbrev pub consent : AuthorizationCode → Endpoint → Option Database → Endpoint
consent r s none = s
consent r s (some d) = record s { database = d }

abbrev pub add_checked : Endpoint → Result (AuthorizationCode × Bool) → Endpoint
add_checked s (refused e) = s
add_checked s (granted p) = record s { checked = p ∷ s.checked }

abbrev pub add_refreshing : Endpoint → Result (Token × List Text) → Endpoint
add_refreshing s (refused e) = s
add_refreshing s (granted p) = record s { refreshing = p ∷ s.refreshing }

-- `if (claim.count !== 1)`
abbrev pub claim_item : ℕ → ℕ → Endpoint → Option (AuthorizationCode × Bool) → Endpoint
claim_item n now s none = s
claim_item n now s (some p) =
    let (d, changed) = claim_code p.0.code now s.database in
    record s {
      database = d;
      checked = without n s.checked;
      claimed = if nat_beq changed 1 then p ∷ s.claimed else s.claimed;
    }

abbrev pub created : ℕ → Text → Endpoint → Option Database → Endpoint
created n code s none = record s { claimed = without n s.claimed }
created n code s (some d) = record s {
  database = d;
  claimed = without n s.claimed;
  given_for = code ∷ s.given_for;
}

abbrev pub create_item :
    ℕ → ℕ → Text → Text → ℕ → ℕ → Endpoint → Option (AuthorizationCode × Bool) → Endpoint
create_item n id access refresh now later s none = s
create_item n id access refresh now later s (some p) =
    created n p.0.code s (create_token (token_of p.0 p.1 id access refresh now later) s.database)

abbrev pub updated : ℕ → Endpoint → Option Database → Endpoint
updated n s none = record s { refreshing = without n s.refreshing }
updated n s (some d) = record s { database = d; refreshing = without n s.refreshing }

abbrev pub update_item : ℕ → Text → ℕ → Endpoint → Option (Token × List Text) → Endpoint
update_item n access now s none = s
update_item n access now s (some (t, scopes)) =
    updated n s (finish_refresh t.token_id scopes access now s.database)

module _ (decode sha256 : Text → Text) where
  unfoldable pub step : Step → Endpoint → Endpoint
  unfolding create_code check_exchange claim_code create_token token_of check_refresh finish_refresh
      revoke
  step (consenting r) s = consent r s (create_code r s.database)
  step (checking q client again now) s = add_checked s (
      check_exchange decode sha256 q client again (λ c. find_code c s.database.authorization_codes)
        now)
  step (claiming n now) s = claim_item n now s (item n s.checked)
  step (creating n id access refresh now later) s =
      create_item n id access refresh now later s (item n s.claimed)
  step (checking_refresh q client again now) s =
      add_refreshing s (
        check_refresh decode q client again (λ r. find (has_refresh_token r) s.database.tokens) now)
  step (updating n access now) s = update_item n access now s (item n s.refreshing)
  step (revoking client hint text) s = record s { database = revoke client hint text s.database }

  unfoldable pub serve : List Step → Endpoint → Endpoint
  unfolding step
  serve [] s = s
  serve (p ∷ ps) s = serve ps (step p s)
