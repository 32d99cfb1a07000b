-- ===== src/Whitelist/Examples.antt =====
-- Runs of security/IpWhitelistService.ts and controllers/handlers/IpWhitelistHandler.ts at concrete
-- inputs.
use peta_core.Json.{codes, show}
use peta_core.Prelude.{text_eq}
use peta_core.Prelude.{ℕ, List, [], if◌then◌else◌, none, refl, true, ◌+◌, ◌↔◌, ◌∷◌, ◌≡◌}
use peta_core.Whitelist.Addresses.{
  is_ip_match, block_bits, block_network, ip_to_number, is_valid_ip, is_valid_ip_or_cidr, mask_of,
  normalize_ip, slash,
}
use peta_core.Whitelist.Addresses.Blocks.{is_ip_match-Meets, Meets}
use peta_core.Text.{has_char, parse_int, read_digits, skip_blanks, split_on, starts_with}
use peta_core.Whitelist.Handler.{Whitelist, op_allow_all, op_deny_all}
use peta_core.Whitelist.Handler.Kept.{
  Call, IsKept, addition, deletion, handle_all, handle_all-IsKept, special, replacement,
}
use peta_core.Whitelist.Service.{IpWhitelistService, is_ip_allowed}
use peta_core.Whitelist.Service.InForce.{Admits, in_force, is_ip_allowed-Admits}

abbrev client : List ℕ
client = codes "::ffff:192.168.1.77"

abbrev office : List ℕ
office = codes "192.168.1.0/24"

office-valid : is_valid_ip_or_cidr office ≡ true
unfolding is_valid_ip_or_cidr is_valid_ip block_network block_bits split_on parse_int read_digits
    skip_blanks has_char show
office-valid = refl

is_ip_match-Meets_example : (is_ip_match client office ≡ true) ↔ (
    if has_char slash office
    then Meets client office (block_bits office)
    else normalize_ip client ≡ office)
is_ip_match-Meets_example = is_ip_match-Meets client office office-valid

client-in-office : is_ip_match client office ≡ true
unfolding is_ip_match is_valid_ip block_network block_bits split_on parse_int read_digits
    skip_blanks has_char normalize_ip starts_with ip_to_number mask_of show
client-in-office = refl

abbrev stale : IpWhitelistService
stale = record { whitelist = office ∷ []; last_cache_update = 1000; initialized = true }

is_ip_allowed-Admits_example :
    (((is_ip_allowed client none 2000000 2000001 stale).1 ≡ true)
      ↔ Admits client (in_force none 2000000 stale))
    × ((is_ip_allowed client none 2000000 2000001 stale).0.whitelist ≡ in_force none 2000000 stale)
is_ip_allowed-Admits_example = is_ip_allowed-Admits client none 2000000 2000001 stale

abbrev kept : Whitelist
kept = record { table = record { id = 1; ip = office; addtime = 1 } ∷ []; service = stale }

kept-IsKept : IsKept kept
kept-IsKept = record { valid = (office-valid, tt); in_sync = refl }

abbrev wishes : List (ℕ × Call)
wishes =
    (4000, replacement (λ n. n) (office ∷ []))
    ∷ (5000, special (λ n. n) op_allow_all)
    ∷ (6000, addition (λ n. n + 7) (codes "10.0.0.0/8" ∷ codes "10.0.0.300" ∷ []))
    ∷ (7000, addition (λ n. n + 7) (codes "10.0.0.0/8" ∷ office ∷ []))
    ∷ (8000, deletion (office ∷ []))
    ∷ (9000, special (λ n. n) op_deny_all)
    ∷ []

handle_all-IsKept_example : IsKept (handle_all wishes kept)
handle_all-IsKept_example =
    handle_all-IsKept wishes kept ((office-valid, tt), (tt, (tt, (tt, (tt, (tt, tt)))))) kept-IsKept
