-- ===== src/Whitelist/Service.antt =====
-- security/IpWhitelistService.ts: the cached list and the test of an address. What the database
-- answers to findAll is an argument, `none` where it throws; so is each reading of the clock.
pub mod InForce
use peta_core.Prelude.{
  ℕ, List, Bool, Option, text_eq, [], any, false, get_or, if◌then◌else◌, ltb, map, none, not, some,
  true, ◌-◌, ◌==◌, ◌∷◌,
}
use peta_core.Whitelist.Addresses.{is_ip_match, any_address}

pub record IpRecord : Type 0 where
  pub id : ℕ
  pub ip : List ℕ
  pub addtime : ℕ

pub record IpWhitelistService : Type 0 where
  pub whitelist : List (List ℕ)
  pub last_cache_update : ℕ
  pub initialized : Bool

abbrev pub cache_expiry : ℕ
cache_expiry = 900000

abbrev pub allow_all : List (List ℕ)
allow_all = any_address ∷ []

unfoldable pub start : IpWhitelistService
start = record { whitelist = allow_all; last_cache_update = 0; initialized = false }

abbrev pub record_ip : IpRecord → List ℕ
record_ip r = r.ip

-- an empty table allows every address
abbrev pub list_of : List IpRecord → List (List ℕ)
list_of [] = allow_all
list_of (r ∷ rs) = map record_ip (r ∷ rs)

unfoldable pub load_from_database :
    Option (List IpRecord) → ℕ → IpWhitelistService → Option IpWhitelistService
load_from_database none now s = none
load_from_database (some rs) now s =
    some (record s { whitelist = list_of rs; last_cache_update = now })

abbrev pub initialized_or : IpWhitelistService → Option IpWhitelistService → IpWhitelistService
initialized_or s none = record s { whitelist = allow_all }
initialized_or s (some s') = record s' { initialized = true }

unfoldable pub initialize : Option (List IpRecord) → ℕ → IpWhitelistService → IpWhitelistService
unfolding load_from_database
initialize rs now s = if s.initialized then s else initialized_or s (load_from_database rs now s)

-- the state after a load that may fail, which leaves the list as it was
unfoldable pub get_ip_whitelist :
    Option (List IpRecord) → ℕ → ℕ → IpWhitelistService → IpWhitelistService × List (List ℕ)
unfolding load_from_database
get_ip_whitelist rs now later s =
    let s' =
      if ltb cache_expiry (now - s.last_cache_update)
      then get_or (load_from_database rs later s) s
      else s in
    (s', s'.whitelist)

-- `none` where the load throws, which leaves the list as it was
unfoldable pub reload_from_database :
    Option (List IpRecord) → ℕ → IpWhitelistService → Option (IpWhitelistService × List (List ℕ))
unfolding load_from_database
reload_from_database none now s = none
reload_from_database (some rs) now s =
    let s' = get_or (load_from_database (some rs) now s) s in some (s', s'.whitelist)

abbrev pub allows : List ℕ → List (List ℕ) → Bool
allows ip entries =
    if any (λ e. e == any_address) entries then true else any (is_ip_match ip) entries

unfoldable pub is_ip_allowed :
    List ℕ → Option (List IpRecord) → ℕ → ℕ → IpWhitelistService → IpWhitelistService × Bool
unfolding get_ip_whitelist
is_ip_allowed ip rs now later s =
    let (s', entries) = get_ip_whitelist rs now later s in (s', allows ip entries)

unfoldable pub clear_cache : IpWhitelistService → IpWhitelistService
clear_cache s = record s { last_cache_update = 0 }

unfoldable pub get_status : IpWhitelistService → List (List ℕ) × Bool
get_status s = (s.whitelist, not (any (λ e. e == any_address) s.whitelist))
