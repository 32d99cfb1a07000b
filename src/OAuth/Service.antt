-- ===== src/OAuth/Service.antt =====
-- oauth/services/OAuthService.ts: scopes, redirect addresses, credentials and proofs. Base64, the
-- parser of URLs and SHA-256 are parameters. A text is its code units, an empty one counts as absent
-- where the source tests it.
use peta_core.Json.{codes, text}
use peta_core.Text.{split_on, starts_with}
use peta_core.Prelude.{
  text_eq, ℕ, Bool, Option, List, [], all, any, drop, false, if◌then◌else◌, keep, none, not, some,
  true, ◌==◌, ◌||◌, ◌∷◌,
}

abbrev pub Text : Type 0
Text = List ℕ

-- `text || undefined`
abbrev pub given : Option Text → Option Text
given none = none
given (some []) = none
given (some (c ∷ cs)) = some (c ∷ cs)

abbrev pub is_text : Text → Bool
is_text [] = false
is_text (c ∷ cs) = true

abbrev pub words : Text → List Text
words text = keep is_text (split_on b' ' text)

unfoldable pub parse_scope : Option Text → List Text
parse_scope none = codes "mcp:tools" ∷ []
parse_scope (some []) = codes "mcp:tools" ∷ []
parse_scope (some (c ∷ cs)) = words (c ∷ cs)

abbrev pub includes : List Text → Text → Bool
includes texts text = any (λ t. t == text) texts

unfoldable pub is_scope_subset : List Text → List Text → Bool
is_scope_subset requested original = all (includes original) requested

-- the parts of a `URL` that are used, and the whole of it written without its port
pub record Url : Type 0 where
  pub protocol : Text
  pub hostname : Text
  pub port : Text
  pub portless : Text

abbrev pub is_loopback_redirect_host : Text → Bool
is_loopback_redirect_host host =
    host == codes "localhost" || host == codes "127.0.0.1" || host == codes "[::1]"

module _ (to_lower_case : Text → Text) (parse_url : Text → Option Url) where
  abbrev pub key_from_url : Url → Option Text
  key_from_url u =
      if not (u.protocol == codes "http:")
      then none
      else if not (is_loopback_redirect_host (to_lower_case u.hostname))
      then none
      else some u.portless

  abbrev pub key_of : Option Url → Option Text
  key_of none = none
  key_of (some u) = key_from_url u

  abbrev pub key_if_portless : Option Url → Option Text
  key_if_portless none = none
  key_if_portless (some u) = if is_text u.port then none else key_from_url u

  unfoldable pub portless_loopback_redirect_key : Text → Option Text
  portless_loopback_redirect_key uri = key_if_portless (parse_url uri)

  unfoldable pub loopback_redirect_port_agnostic_key : Text → Option Text
  loopback_redirect_port_agnostic_key uri = key_of (parse_url uri)

  abbrev pub is_key : Text → Option Text → Bool
  is_key requested none = false
  is_key requested (some k) = k == requested

  abbrev pub some_portless : List Text → Option Text → Bool
  some_portless allowed none = false
  some_portless allowed (some []) = false
  some_portless allowed (some (c ∷ cs)) =
      any (λ uri. is_key (c ∷ cs) (portless_loopback_redirect_key uri)) allowed

  unfoldable pub validate_redirect_uri : Text → List Text → Bool
  unfolding portless_loopback_redirect_key loopback_redirect_port_agnostic_key
  validate_redirect_uri uri allowed =
      if includes allowed uri
      then true
      else some_portless allowed (loopback_redirect_port_agnostic_key uri)

unfoldable pub verify_pkce_challenge : (Text → Text) → Text → Text → Bool
verify_pkce_challenge sha256 verifier challenge = sha256 verifier == challenge

-- a stored secret that is absent or empty fits none
abbrev pub is_secret : Text → Option Text → Bool
is_secret secret none = false
is_secret secret (some []) = false
is_secret secret (some (c ∷ cs)) = secret == c ∷ cs

-- the two first parts of the decoded text, if neither is empty
abbrev pub two_parts : List Text → Option (Text × Text)
two_parts ((i ∷ is) ∷ (s ∷ ss) ∷ rest) = some (i ∷ is, s ∷ ss)
two_parts _ = none

unfoldable pub parse_basic_auth : (Text → Text) → Text → Option (Text × Text)
parse_basic_auth decode header =
    if starts_with header (codes "Basic ")
    then two_parts (split_on b':' (decode (drop 6 header)))
    else none
