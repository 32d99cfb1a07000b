-- ===== src/OAuth/Interleaved/Within.antt =====
-- oauth/controllers/OAuthController.ts: all tokens of the table, in every order of the requests.
use peta_core.Prelude.{
  text_eq, ℕ, Bool, List, Option, ◌≡◌, All, All-find, [], find, if_cases, none, not, refl, some,
  true, ◌==◌, ◌∙◌, ◌∷◌,
}
use peta_core.OAuth.Service.{Text, is_scope_subset, given, parse_scope}
use peta_core.OAuth.Tables.{
  AuthorizationCode, Token, Database, Client, find_code, has_refresh_token,
}
use peta_core.OAuth.Exchange.{
  Result, TokenRequest, granted, other_client, refresh_expired, refused, scope_exceeds, token_of,
  token_revoked,
}
use peta_core.OAuth.Exchange.Checked.{Holds, IsEntitled, check_exchange-Holds, if_Holds}
use peta_core.OAuth.Interleaved.{
  Endpoint, Step, step, serve, add_checked, add_refreshing, checking, checking_refresh, claiming,
  consenting, create_item, creating, item, opened, revoking, updating,
}
use peta_core.OAuth.Interleaved.Scopes.{InGrant-fewer, found-InGrant, is_scope_subset_self}
use peta_core.OAuth.Interleaved.Granted.{
  IsGranted, All-item, CodeIn, Owned, RefreshIn, TokenIn, claim-IsGranted, consent-IsGranted,
  created-IsGranted, row-has_id,
}
use peta_core.OAuth.Interleaved.Updated.{revoke-IsGranted, update-IsGranted}
use peta_core.OAuth.Refresh.{
  check_found_token, check_refresh, check_refresh_token, is_over, refreshed_scopes, revoke,
}

abbrev pub start_tables : List AuthorizationCode → Database
start_tables rows = record { authorization_codes = rows; tokens = [] }

-- A refresh that is let through is of a token of the table, for scopes that it has.
abbrev Asks : Option Token → Token × List Text → Type 0
Asks o p = (o ≡ some p.0) × (is_scope_subset p.1 p.0.scopes ≡ true)

refreshed_scopes-Holds :
    (scope : Option Text) (o : Option Token) (t : Token)
    → o ≡ some t
    → Holds (Asks o) (refreshed_scopes scope t)
refreshed_scopes-Holds none o t e = (e, is_scope_subset_self t.scopes)
refreshed_scopes-Holds (some r) o t e =
    if_cases (λ x. Holds (Asks o) x) (is_scope_subset (parse_scope (some r)) t.scopes)
      (granted (t, parse_scope (some r))) (refused scope_exceeds) (λ h. (e, h)) (λ h. tt)

found-Holds :
    (client : Text) (scope : Option Text) (now : ℕ) (o : Option Token)
    → Holds (Asks o) (check_found_token client scope now o)
found-Holds client scope now none = tt
found-Holds client scope now (some t) = if_Holds (Asks (some t)) t.revoked token_revoked _ (λ a.
    if_Holds (Asks (some t)) (is_over now t.refresh_token_expires_at) refresh_expired _ (λ b.
      if_Holds (Asks (some t)) (not (t.client_id == client)) other_client _
        (λ c. refreshed_scopes-Holds scope (some t) t refl)))

refresh-IsGranted :
    (refresh scope : Option Text) (now : ℕ) (s : Endpoint) (r : Result (Text × Client))
    → IsGranted s
    → IsGranted (
        add_refreshing s (
          check_refresh_token refresh scope now
            (λ x. find (has_refresh_token x) s.database.tokens)
            r))
refresh-IsGranted none scope now s r k = k
refresh-IsGranted (some x) scope now s (refused e) k = k
refresh-IsGranted (some x) scope now s (granted (i, c)) k =
    let o = find (has_refresh_token x) s.database.tokens in
    added-IsGranted o refl (check_found_token i scope now o) (found-Holds i scope now o)
  where
    added-IsGranted :
        (o : Option Token)
        → find (has_refresh_token x) s.database.tokens ≡ o
        → (a : Result (Token × List Text)) → Holds (Asks o) a
        → IsGranted (add_refreshing s a)
    added-IsGranted o e (refused f) h = k
    added-IsGranted o e (granted (t, scopes)) h = record {
      tokens = k.tokens;
      owned = k.owned;
      checked = k.checked;
      claimed = k.claimed;
      refreshing = (known (e ∙ h.0) h.1, k.refreshing);
    }
      where
        known :
            find (has_refresh_token x) s.database.tokens ≡ some t
            → is_scope_subset scopes t.scopes ≡ true
            → RefreshIn s.database.authorization_codes s.database.tokens (t, scopes)
        known f g =
            let owner =
              All-find _ (has_refresh_token x) s.database.tokens t
                (row-has_id (λ u. Owned s.database.tokens u.token_id u.client_id u.user_id)
                  s.database.tokens k.owned)
                f in
            (
              owner.0,
              owner.1,
              InGrant-fewer s.database.authorization_codes t.client_id t.user_id scopes t.scopes g (
                  All-find (TokenIn s.database.authorization_codes) (has_refresh_token x)
                    s.database.tokens t k.tokens f),
            )

module _ (decode sha256 : Text → Text) where
  check-IsGranted :
      (q : TokenRequest) (client again : Option Client) (now : ℕ) (s : Endpoint)
      (o : Result (AuthorizationCode × Bool))
      → Holds
          (λ p.
            IsEntitled decode sha256 q (λ c. find_code c s.database.authorization_codes) now p.0)
          o
      → IsGranted s
      → IsGranted (add_checked s o)
  unfolding find_code
  check-IsGranted q client again now s (refused e) h k = k
  check-IsGranted q client again now s (granted (r, b)) h k = record {
    tokens = k.tokens;
    owned = k.owned;
    checked = (
      found-InGrant (λ x. x.code == h.asked.0) s.database.authorization_codes r h.asked.1.1,
      k.checked,
    );
    claimed = k.claimed;
    refreshing = k.refreshing;
  }

  create-IsGranted :
      (n id : ℕ) (access refresh : Text) (now later : ℕ) (s : Endpoint)
      (o : Option (AuthorizationCode × Bool))
      → item n s.claimed ≡ o
      → IsGranted s
      → IsGranted (create_item n id access refresh now later s o)
  unfolding token_of
  create-IsGranted n id access refresh now later s none e k = k
  create-IsGranted n id access refresh now later s (some p) e k =
      created-IsGranted n s p.0.code (token_of p.0 p.1 id access refresh now later)
        (All-item (CodeIn s.database.authorization_codes) n s.claimed p k.claimed e) k

  step-IsGranted : (p : Step) (s : Endpoint) → IsGranted s → IsGranted (step decode sha256 p s)
  unfolding step check_refresh revoke
  step-IsGranted (consenting r) s k = consent-IsGranted r s k
  step-IsGranted (checking q client again now) s k =
      check-IsGranted q client again now s _
        (check_exchange-Holds decode sha256 q (λ c. find_code c s.database.authorization_codes) now
          client again)
        k
  step-IsGranted (claiming n now) s k = claim-IsGranted n now s (item n s.checked) refl k
  step-IsGranted (creating n id access refresh now later) s k =
      create-IsGranted n id access refresh now later s (item n s.claimed) refl k
  step-IsGranted (checking_refresh q client again now) s k =
      refresh-IsGranted (given q.refresh_token) (given q.scope) now s _ k
  step-IsGranted (updating n access now) s k =
      update-IsGranted n access now s (item n s.refreshing) refl k
  step-IsGranted (revoking client hint text) s k = revoke-IsGranted client s _ k

  serve-IsGranted :
      (ps : List Step) (s : Endpoint) → IsGranted s → IsGranted (serve decode sha256 ps s)
  unfolding serve
  serve-IsGranted [] s k = k
  serve-IsGranted (p ∷ ps) s k = serve-IsGranted ps (step decode sha256 p s) (step-IsGranted p s k)

-- However the requests of all clients overlap, with any consents, refreshes and revocations between,
-- each token of the table has a code in its table with the same client and user whose scopes include
-- all of the token's, from an endpoint without tokens and requests on.
pub serve-TokenIn :
    (decode sha256 : Text → Text) (ps : List Step) (rows : List AuthorizationCode)
    → All
        (TokenIn (serve decode sha256 ps (opened (start_tables rows))).database.authorization_codes)
        (serve decode sha256 ps (opened (start_tables rows))).database.tokens
serve-TokenIn decode sha256 ps rows =
    (serve-IsGranted decode sha256 ps (opened (start_tables rows))
      (record { tokens = tt; owned = tt; checked = tt; claimed = tt; refreshing = tt })).tokens
