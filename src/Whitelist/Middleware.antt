-- ===== src/Whitelist/Middleware.antt =====
-- middleware/IpWhitelistMiddleware.ts: whose address a request has, and what becomes of it. A header
-- is its first value; an absent one is `none`.
use peta_core.Prelude.{
  ℕ, List, Bool, Option, text_eq, [], all, any, drop, get_or, if◌then◌else◌, is_some, length,
  nat_beq, none, some, ◌&&◌, ◌==◌, ◌∷◌,
}
use peta_core.Text.{strip_star, split_on, trim, starts_with, has_char, parse_int}
use peta_core.Json.{codes}
use peta_core.Whitelist.Addresses.{dot, octet}
use peta_core.Whitelist.Service.{IpRecord, IpWhitelistService, is_ip_allowed}

pub record Request : Type 0 where
  pub forwarded_for : Option (List ℕ)
  pub real_ip : Option (List ℕ)
  pub cf_connecting_ip : Option (List ℕ)
  pub remote_address : Option (List ℕ)
  pub path : List ℕ

pub data Outcome : Type 0 where
  proceed : Outcome
  forbidden : List ℕ → Outcome

-- an empty text counts as absent
abbrev pub given : Option (List ℕ) → Option (List ℕ)
given none = none
given (some []) = none
given (some (c ∷ cs)) = some (c ∷ cs)

-- unlike the service's, this check does not compare the part with what the number is written as
abbrev pub is_valid_ipv4 : List ℕ → Bool
is_valid_ipv4 ip =
    nat_beq (length (split_on dot ip)) 4
    && all (λ part. is_some (octet (parse_int part))) (split_on dot ip)

-- the text after the last colon
unfoldable pub after_last_colon : List ℕ → List ℕ
after_last_colon [] = []
after_last_colon (c ∷ cs) =
    let rest = after_last_colon cs in
    if has_char b':' (c ∷ cs) then (if has_char b':' cs then rest else cs) else c ∷ cs

unfoldable pub normalize_client_ip : List ℕ → List ℕ
unfolding after_last_colon
normalize_client_ip ip =
    if starts_with ip (codes "::ffff:")
    then drop 7 ip
    else if ip == codes "::1"
    then codes "127.0.0.1"
    else if has_char b':' ip && has_char b'.' ip && is_valid_ipv4 (after_last_colon ip)
    then after_last_colon ip
    else ip

abbrev pub head_or_nil : List (List ℕ) → List ℕ
head_or_nil [] = []
head_or_nil (p ∷ ps) = p

abbrev pub client_address :
    Option (List ℕ) → Option (List ℕ) → Option (List ℕ) → Option (List ℕ) → List ℕ
client_address (some f) real cf remote = trim (head_or_nil (split_on b',' f))
client_address none (some ip) cf remote = ip
client_address none none (some ip) remote = ip
client_address none none none remote = get_or remote []

unfoldable pub get_client_ip : Request → List ℕ
unfolding normalize_client_ip
get_client_ip q = normalize_client_ip (
    client_address (given q.forwarded_for) (given q.real_ip) (given q.cf_connecting_ip)
      (given q.remote_address))

unfoldable pub check_ip_whitelist :
    Request → Option (List IpRecord) → ℕ → ℕ → IpWhitelistService → IpWhitelistService × Outcome
unfolding get_client_ip
check_ip_whitelist q rs now later s =
    let (s', allowed) = is_ip_allowed (get_client_ip q) rs now later s in
    (s', if allowed then proceed else forbidden (get_client_ip q))

-- `path.endsWith('*')` and `path.slice(0, -1)`
unfoldable pub path_matches : List ℕ → List ℕ → Bool
path_matches request [] = request == []
path_matches request (c ∷ cs) = elim (strip_star (c ∷ cs)) [
  | none ↦ request == c ∷ cs
  | some p ↦ starts_with request p
]

unfoldable pub check_paths :
    List (List ℕ)
    → Request
    → Option (List IpRecord)
    → ℕ
    → ℕ
    → IpWhitelistService
    → IpWhitelistService × Outcome
check_paths paths q rs now later s =
    let checked = check_ip_whitelist q rs now later s in
    if any (path_matches q.path) paths then checked else (s, proceed)
