-- ===== src/Whitelist/Handler.antt =====
-- controllers/handlers/IpWhitelistHandler.ts: the administrator's requests. The table of entries and
-- the service's cached list are the state; the database answers every statement, and gives new
-- records the ids that it is told.
pub mod Kept
use peta_core.Prelude.{
  ℕ, List, Bool, Option, text_eq, [], any, count, find, if◌then◌else◌, keep, length, map, none, not,
  some, suc, zero, ◌++◌, ◌-◌, ◌/◌, ◌==◌, ◌∷◌,
}
use peta_core.Whitelist.Addresses.{any_address, is_valid_ip_or_cidr}
use peta_core.Whitelist.Service.{IpRecord, IpWhitelistService, allow_all, list_of, record_ip}

pub record Whitelist : Type 0 where
  pub table : List IpRecord
  pub service : IpWhitelistService

pub data Answer : Type 0 where
  updated listed : List (List ℕ) → Answer
  deleted : ℕ → Answer
  added : ℕ → ℕ → Answer
  switched invalid_request : Answer
  invalid_ip_format : List ℕ → Answer

abbrev pub is_listed : List (List ℕ) → List ℕ → Bool
is_listed ips ip = any (λ e. e == ip) ips

abbrev pub has_ip : List ℕ → IpRecord → Bool
has_ip ip r = r.ip == ip

unfoldable pub reload : ℕ → Whitelist → Whitelist
reload now w = record w {
  service = record w.service { whitelist = list_of w.table; last_cache_update = now };
}

-- the entries that are not the wildcard
abbrev pub others : List IpRecord → List IpRecord
others t = keep (λ r. not (r.ip == any_address)) t

abbrev pub shown_list : List IpRecord → List (List ℕ)
shown_list [] = allow_all
shown_list (r ∷ t) = shown_others (others (r ∷ t)) (r ∷ t)
  where
    shown_others : List IpRecord → List IpRecord → List (List ℕ)
    shown_others [] all_of = map record_ip all_of
    shown_others (s ∷ ss) all_of = allow_all

unfoldable pub handle_get_ip_whitelist : Whitelist → Answer
handle_get_ip_whitelist w = listed (shown_list w.table)

abbrev pub delete_found : ℕ → List (List ℕ) → Whitelist → ℕ → Whitelist × Answer
delete_found now ips w zero = (w, deleted 0)
delete_found now ips w (suc n) = (
  reload now (record w { table = keep (λ r. not (is_listed ips r.ip)) w.table }),
  deleted (suc n),
)

unfoldable pub handle_delete_ip_whitelist : ℕ → List (List ℕ) → Whitelist → Whitelist × Answer
unfolding reload
handle_delete_ip_whitelist now [] w = (w, invalid_request)
handle_delete_ip_whitelist now (i ∷ ips) w =
    delete_found now (i ∷ ips) w (count (λ r. is_listed (i ∷ ips) r.ip) w.table)

unfoldable pub new_records : (ℕ → ℕ) → ℕ → List (List ℕ) → List IpRecord
new_records new_id now [] = []
new_records new_id now (ip ∷ ips) =
    record { id = new_id (length ips); ip = ip; addtime = now / 1000 } ∷ new_records new_id now ips

-- the table is written anew, and no entry is looked at
unfoldable pub handle_update_ip_whitelist :
    (ℕ → ℕ) → ℕ → List (List ℕ) → Whitelist → Whitelist × Answer
unfolding reload new_records
handle_update_ip_whitelist new_id now ips w =
    let w' = reload now (record w { table = new_records new_id now ips }) in
    (w', updated w'.service.whitelist)

-- the first entry that is refused
abbrev pub first_invalid : List (List ℕ) → Option (List ℕ)
first_invalid ips = find (λ ip. not (is_valid_ip_or_cidr ip)) ips

abbrev pub is_known : List IpRecord → List ℕ → Bool
is_known t ip = any (has_ip ip) t

abbrev pub add_valid :
    (ℕ → ℕ) → ℕ → List (List ℕ) → Whitelist → Option (List ℕ) → Whitelist × Answer
add_valid new_id now ips w (some bad) = (w, invalid_ip_format bad)
add_valid new_id now ips w none =
    let new_ips = keep (λ ip. not (is_known w.table ip)) ips in
    (
      reload now (record w { table = w.table ++ new_records new_id now new_ips }),
      added (length new_ips) (length ips - length new_ips),
    )

unfoldable pub handle_add_ip_whitelist :
    (ℕ → ℕ) → ℕ → List (List ℕ) → Whitelist → Whitelist × Answer
unfolding reload new_records
handle_add_ip_whitelist new_id now [] w = (w, invalid_request)
handle_add_ip_whitelist new_id now (i ∷ ips) w =
    add_valid new_id now (i ∷ ips) w (first_invalid (i ∷ ips))

pub data Operation : Type 0 where
  op_allow_all op_deny_all op_unknown : Operation

abbrev pub with_wildcard : (ℕ → ℕ) → ℕ → List IpRecord → List IpRecord
with_wildcard new_id now t =
    if is_known t any_address
    then t
    else t ++ record { id = new_id 0; ip = any_address; addtime = now / 1000 } ∷ []

-- the wildcard is deleted only where another entry is left
abbrev pub without_wildcard : List IpRecord → List IpRecord → List IpRecord
without_wildcard t [] = t
without_wildcard t (r ∷ rest) = others t

unfoldable pub handle_special_operation : (ℕ → ℕ) → ℕ → Operation → Whitelist → Whitelist × Answer
unfolding reload
handle_special_operation new_id now op_allow_all w =
    (reload now (record w { table = with_wildcard new_id now w.table }), switched)
handle_special_operation new_id now op_deny_all w =
    (reload now (record w { table = without_wildcard w.table (others w.table) }), switched)
handle_special_operation new_id now op_unknown w = (w, invalid_request)
