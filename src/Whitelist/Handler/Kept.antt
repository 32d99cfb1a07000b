-- ===== src/Whitelist/Handler/Kept.antt =====
-- controllers/handlers/IpWhitelistHandler.ts: the table and the cached list under the requests.
use peta_core.Prelude.{
  ℕ, List, Option, text_eq, All, All-append, All-keep, Bool-cases, [], arith, find, inl, inr, keep,
  none, not, refl, some, suc, true, zero, ◌++◌, ◌==◌, ◌∷◌, ◌≡◌,
}
use peta_core.Whitelist.Addresses.{any_address, is_valid_ip_or_cidr}
use peta_core.Whitelist.Service.{IpRecord, list_of}
use peta_core.Whitelist.Handler.{
  Whitelist, Answer, Operation, add_valid, delete_found, first_invalid, handle_add_ip_whitelist,
  handle_delete_ip_whitelist, handle_special_operation, is_known, is_listed, new_records,
  op_allow_all, op_deny_all, op_unknown, others, reload, with_wildcard, without_wildcard,
  handle_update_ip_whitelist,
}

pub data Call : Type 0 where
  replacement : (ℕ → ℕ) → List (List ℕ) → Call
  deletion : List (List ℕ) → Call
  addition : (ℕ → ℕ) → List (List ℕ) → Call
  special : (ℕ → ℕ) → Operation → Call

unfoldable pub handle : ℕ → Call → Whitelist → Whitelist × Answer
handle now (replacement new_id ips) w = handle_update_ip_whitelist new_id now ips w
handle now (deletion ips) w = handle_delete_ip_whitelist now ips w
handle now (addition new_id ips) w = handle_add_ip_whitelist new_id now ips w
handle now (special new_id op) w = handle_special_operation new_id now op w

-- the requests of administrators, each at its time
unfoldable pub handle_all : List (ℕ × Call) → Whitelist → Whitelist
handle_all [] w = w
handle_all ((now, c) ∷ cs) w = handle_all cs (handle now c w).0

-- The one request whose entries the handler does not check replaces the table.
abbrev pub GivesValid : Call → Type 0
GivesValid (replacement new_id ips) = All (λ ip. is_valid_ip_or_cidr ip ≡ true) ips
GivesValid _ = Unit

abbrev pub AllValid : List IpRecord → Type 0
AllValid = All (λ r. is_valid_ip_or_cidr r.ip ≡ true)

-- The table holds valid entries, and the cached list is what the table says.
pub record IsKept (w : Whitelist) : Type 0 where
  pub valid : AllValid w.table
  pub in_sync : w.service.whitelist ≡ list_of w.table

reload-IsKept : (now : ℕ) (w : Whitelist) → AllValid w.table → IsKept (reload now w)
unfolding reload
reload-IsKept now w h = record { valid = h; in_sync = refl }

find-none-valid :
    (ips : List (List ℕ)) → first_invalid ips ≡ none → All (λ ip. is_valid_ip_or_cidr ip ≡ true) ips
unfolding find
find-none-valid [] h = tt
find-none-valid (ip ∷ ips) h = elim (Bool-cases (is_valid_ip_or_cidr ip)) [
  | inl e ↦ (e, find-none-valid ips (ground arith))
  | inr e ↦ ground arith
]

new_records-AllValid :
    (new_id : ℕ → ℕ) (now : ℕ) (ips : List (List ℕ))
    → All (λ ip. is_valid_ip_or_cidr ip ≡ true) ips
    → AllValid (new_records new_id now ips)
unfolding new_records
new_records-AllValid new_id now [] h = tt
new_records-AllValid new_id now (ip ∷ ips) h = (h.0, new_records-AllValid new_id now ips h.1)

any_address-valid : is_valid_ip_or_cidr any_address ≡ true
unfolding is_valid_ip_or_cidr
any_address-valid = refl

delete-IsKept :
    (now : ℕ) (ips : List (List ℕ)) (w : Whitelist) (n : ℕ)
    → IsKept w
    → IsKept (delete_found now ips w n).0
delete-IsKept now ips w zero k = k
delete-IsKept now ips w (suc n) k =
    reload-IsKept now (record w { table = keep (λ r. not (is_listed ips r.ip)) w.table })
      (All-keep (λ r. is_valid_ip_or_cidr r.ip ≡ true) (λ r. not (is_listed ips r.ip)) w.table
        k.valid)

add-IsKept :
    (new_id : ℕ → ℕ) (now : ℕ) (ips : List (List ℕ)) (w : Whitelist) (o : Option (List ℕ))
    → first_invalid ips ≡ o
    → IsKept w
    → IsKept (add_valid new_id now ips w o).0
add-IsKept new_id now ips w (some bad) e k = k
add-IsKept new_id now ips w none e k =
    let new_ips = keep (λ ip. not (is_known w.table ip)) ips in
    reload-IsKept now (record w { table = w.table ++ new_records new_id now new_ips })
      (All-append (λ r. is_valid_ip_or_cidr r.ip ≡ true) w.table (new_records new_id now new_ips)
        k.valid
        (new_records-AllValid new_id now new_ips (
          All-keep (λ ip. is_valid_ip_or_cidr ip ≡ true) (λ ip. not (is_known w.table ip)) ips
            (find-none-valid ips e))))

wildcard-AllValid :
    (new_id : ℕ → ℕ) (now : ℕ) (t : List IpRecord)
    → AllValid t
    → AllValid (with_wildcard new_id now t)
wildcard-AllValid new_id now t h = elim (Bool-cases (is_known t any_address)) [
  | inl e ↦ rw e h
  | inr e ↦ rw e (All-append (λ r. is_valid_ip_or_cidr r.ip ≡ true) t _ h (any_address-valid, tt))
]

others-AllValid : (t rest : List IpRecord) → AllValid t → AllValid (without_wildcard t rest)
others-AllValid t [] h = h
others-AllValid t (r ∷ rest) h =
    All-keep (λ r. is_valid_ip_or_cidr r.ip ≡ true) (λ r. not (r.ip == any_address)) t h

handle-IsKept :
    (now : ℕ) (c : Call) (w : Whitelist) → GivesValid c → IsKept w → IsKept (handle now c w).0
unfolding handle handle_update_ip_whitelist handle_delete_ip_whitelist handle_add_ip_whitelist
    handle_special_operation
handle-IsKept now (replacement new_id ips) w g k =
    reload-IsKept now (record w { table = new_records new_id now ips })
      (new_records-AllValid new_id now ips g)
handle-IsKept now (deletion []) w g k = k
handle-IsKept now (deletion (i ∷ ips)) w g k = delete-IsKept now (i ∷ ips) w _ k
handle-IsKept now (addition new_id []) w g k = k
handle-IsKept now (addition new_id (i ∷ ips)) w g k =
    add-IsKept new_id now (i ∷ ips) w (first_invalid (i ∷ ips)) refl k
handle-IsKept now (special new_id op_allow_all) w g k =
    reload-IsKept now (record w { table = with_wildcard new_id now w.table })
      (wildcard-AllValid new_id now w.table k.valid)
handle-IsKept now (special new_id op_deny_all) w g k =
    reload-IsKept now (record w { table = without_wildcard w.table (others w.table) })
      (others-AllValid w.table (others w.table) k.valid)
handle-IsKept now (special new_id op_unknown) w g k = k

-- Whatever administrators ask for, in whatever order, the table holds entries of valid format only
-- and the cached list is what the table says, if both held before and each list that replaces the
-- table is of valid entries, which the handler does not check for this request alone.
pub handle_all-IsKept :
    (cs : List (ℕ × Call)) (w : Whitelist)
    → All (λ c. GivesValid c.1) cs
    → IsKept w
    → IsKept (handle_all cs w)
unfolding handle_all
handle_all-IsKept [] w g k = k
handle_all-IsKept ((now, c) ∷ cs) w g k =
    handle_all-IsKept cs (handle now c w).0 g.1 (handle-IsKept now c w g.0 k)
