-- ===== src/OAuth/Exchange/Checked.antt =====
-- oauth/controllers/OAuthController.ts, handleAuthorizationCodeGrant: what a code and a request have
-- to be for the code to be claimed.
use peta_core.Json.{codes}
use peta_core.Prelude.{
  text_eq, ℕ, Bool, Option, ◌≡◌, ap, arith, eq_of_beq, false, if_cases, if◌then◌else◌, ltb, none,
  not, refl, some, subst, sym, true, ◌==◌, ◌∙◌, ◌≤◌,
}
use peta_core.OAuth.Service.{Text, given, verify_pkce_challenge}
use peta_core.OAuth.Tables.{AuthorizationCode, Client}
use peta_core.OAuth.Exchange.{
  Result, TokenRequest, credentials, Refusal, check_found_code, check_proof, code_expired,
  code_used, granted, invalid_verifier, is_s256, other_client, redirect_uri_mismatch, refused,
  verifier_required, check_authenticated, check_client, check_credentials, check_exchange,
  check_parameters, check_registered, with_id, with_refresh,
}

-- What holds of an answer that is no refusal.
abbrev pub Holds {ℓ κ} : {A : Type ℓ} → (A → Type κ) → Result A → Type κ
Holds P (refused e) = Unit
Holds P (granted a) = P a

pub if_Holds {ℓ κ} :
    {A : Type ℓ} (P : A → Type κ) (b : Bool) (e : Refusal) (r : Result A)
    → (b ≡ false → Holds P r)
    → Holds P (if b then refused e else r)
if_Holds P true e r h = tt
if_Holds P false e r h = h refl

pub Holds-granted {ℓ κ} :
    {A : Type ℓ} (P : A → Type κ) (r : Result A) (a : A) → Holds P r → r ≡ granted a → P a
Holds-granted P r a h e = subst (λ s. Holds P s) e h

is_s256-eq : (m : Option Text) → is_s256 m ≡ true → m ≡ some (codes "S256")
is_s256-eq none h = cc
is_s256-eq (some m) h = ap some (eq_of_beq m (codes "S256") h)

module _ (decode sha256 : Text → Text) (q : TokenRequest) (look : Text → Option AuthorizationCode)
    (now : ℕ) where
  -- The code is in the table under the text that the request gives, unused and not expired, it was
  -- given to the client that the request names and for its redirect address, and the request proves
  -- that it knows what the code's challenge is the hash of.
  pub record IsEntitled (r : AuthorizationCode) : Type 0 where
    pub asked : (c : Text) × ((given q.code ≡ some c) × (look c ≡ some r))
    pub unused : r.used ≡ false
    pub in_time : now ≤ r.expires_at
    pub own : (credentials decode q).0 ≡ some r.client_id
    pub same_uri : given q.redirect_uri ≡ some r.redirect_uri
    pub proven :
        (v : Text) × ((given q.code_verifier ≡ some v) × (given r.code_challenge ≡ some (sha256 v)))
    pub by_s256 : r.challenge_method ≡ some (codes "S256")

  abbrev Proof : AuthorizationCode → Type 0
  Proof r =
      ((v : Text) × ((given q.code_verifier ≡ some v) × (given r.code_challenge ≡ some (sha256 v))))
      × (r.challenge_method ≡ some (codes "S256"))

  check_proof-Holds :
      (r : AuthorizationCode) (ch v : Option Text)
      → given r.code_challenge ≡ ch
      → given q.code_verifier ≡ v
      → (Proof r → IsEntitled r)
      → Holds IsEntitled (check_proof sha256 r ch v)
  unfolding verify_pkce_challenge
  check_proof-Holds r none v e f k = tt
  check_proof-Holds r (some ch) none e f k = tt
  check_proof-Holds r (some ch) (some v) e f k =
      if_Holds IsEntitled (not (is_s256 r.challenge_method)) verifier_required
        (if verify_pkce_challenge sha256 v ch then granted r else refused invalid_verifier)
        (λ m.
          if_cases (λ s. Holds IsEntitled s) (sha256 v == ch) (granted r) (refused invalid_verifier)
            (λ h. k (
              (v, (f, e ∙ ap some (sym (eq_of_beq (sha256 v) ch h)))),
              is_s256-eq r.challenge_method (ground arith),
            ))
            (λ h. tt))

  check_found_code-Holds :
      (c i uri : Text) (o : Option AuthorizationCode)
      → look c ≡ o
      → given q.code ≡ some c
      → (credentials decode q).0 ≡ some i
      → given q.redirect_uri ≡ some uri
      → Holds IsEntitled (check_found_code sha256 i uri (given q.code_verifier) now o)
  check_found_code-Holds c i uri none e a b u = tt
  check_found_code-Holds c i uri (some r) e a b u = if_Holds IsEntitled r.used code_used _ (λ f.
      if_Holds IsEntitled (ltb r.expires_at now) code_expired _ (λ g.
        if_Holds IsEntitled (not (r.client_id == i)) other_client _ (λ h.
          if_Holds IsEntitled (not (r.redirect_uri == uri)) redirect_uri_mismatch _ (λ j.
            check_proof-Holds r (given r.code_challenge) (given q.code_verifier) refl refl (λ p.
              record {
                asked = (c, (a, e));
                unused = f;
                in_time = ground arith;
                own = b ∙ ap some (sym (eq_of_beq r.client_id i (ground arith)));
                same_uri = u ∙ ap some (sym (eq_of_beq r.redirect_uri uri (ground arith)));
                proven = p.0;
                by_s256 = p.1;
              })))))

  with_refresh-Holds :
      (c : Client) (r : Result AuthorizationCode)
      → Holds IsEntitled r
      → Holds (λ (p : AuthorizationCode × Bool). IsEntitled p.0) (with_refresh c r)
  with_refresh-Holds c (refused e) h = tt
  with_refresh-Holds c (granted r) h = h

  abbrev NamesClient : Result (Text × Client) → Type 0
  NamesClient = Holds (λ (p : Text × Client). (credentials decode q).0 ≡ some p.0)

  with_id-Holds :
      (i : Text) (r : Result Client) → (credentials decode q).0 ≡ some i → NamesClient (with_id i r)
  with_id-Holds i (refused e) h = tt
  with_id-Holds i (granted c) h = h

  check_credentials-Holds :
      (grant : Text) (client again : Option Client) (i secret : Option Text)
      → (credentials decode q).0 ≡ i
      → NamesClient (check_credentials grant client again i secret)
  check_credentials-Holds grant client again none secret e = tt
  check_credentials-Holds grant client again (some i) secret e =
      with_id-Holds i (check_registered grant client again secret) e

  check_authenticated-Holds :
      (code uri : Text) (r : Result (Text × Client))
      → given q.code ≡ some code
      → given q.redirect_uri ≡ some uri
      → NamesClient r
      → Holds
          (λ (p : AuthorizationCode × Bool). IsEntitled p.0)
          (check_authenticated sha256 code uri (given q.code_verifier) now look r)
  check_authenticated-Holds code uri (refused e) a u h = tt
  check_authenticated-Holds code uri (granted (i, c)) a u h =
      with_refresh-Holds c (check_found_code sha256 i uri (given q.code_verifier) now (look code))
        (check_found_code-Holds code i uri (look code) refl a h u)

  check_parameters-Holds :
      (code uri : Option Text) (r : Result (Text × Client))
      → given q.code ≡ code
      → given q.redirect_uri ≡ uri
      → NamesClient r
      → Holds
          (λ (p : AuthorizationCode × Bool). IsEntitled p.0)
          (check_parameters sha256 code uri (given q.code_verifier) now look r)
  check_parameters-Holds (some code) (some uri) r a u h = check_authenticated-Holds code uri r a u h
  check_parameters-Holds (some code) none r a u h = tt
  check_parameters-Holds none uri r a u h = tt

  pub check_exchange-Holds :
      (client again : Option Client)
      → Holds
          (λ (p : AuthorizationCode × Bool). IsEntitled p.0)
          (check_exchange decode sha256 q client again look now)
  unfolding check_exchange check_client
  check_exchange-Holds client again =
      check_parameters-Holds (given q.code) (given q.redirect_uri) _ refl refl (
        check_credentials-Holds (codes "authorization_code") client again (credentials decode q).0
          (credentials decode q).1 refl)

-- A request passes the checks of the exchange only with a code that is in the table, unused and not
-- expired, that was given to the client that the request names and for its redirect address, and
-- whose S256 challenge is the hash of the verifier of the request.
pub check_exchange-IsEntitled :
    (decode sha256 : Text → Text) (q : TokenRequest) (look : Text → Option AuthorizationCode)
    (now : ℕ) (client again : Option Client) (r : AuthorizationCode) (refreshes : Bool)
    → check_exchange decode sha256 q client again look now ≡ granted (r, refreshes)
    → IsEntitled decode sha256 q look now r
check_exchange-IsEntitled decode sha256 q look now client again r refreshes e =
    Holds-granted (λ (p : AuthorizationCode × Bool). IsEntitled decode sha256 q look now p.0)
      (check_exchange decode sha256 q client again look now) (r, refreshes)
      (check_exchange-Holds decode sha256 q look now client again) e
