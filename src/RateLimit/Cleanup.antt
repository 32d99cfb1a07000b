-- ===== src/RateLimit/Cleanup.antt =====
-- security/RateLimitService.ts: requests before and after the cleanup.
use peta_core.Prelude.{
  string_eq, All, Bool-cases, Option, String, [], ap, arith, beq_self, inl, inr, none, not, refl,
  some, sym, true, ℕ, ◌∙◌, ◌∷◌, ◌≡◌, ◌≤◌,
}
use peta_core.Prelude.Dict
use peta_core.Prelude.Dict.{get-set, get-keep}
use peta_core.RateLimit.{
  Counts, UserCount, check_rate_limit, cleanup_expired_counts, count_request, is_expired,
}

-- Every window starts no later than its last request. A clock that never goes back keeps this.
abbrev pub Ordered : Counts → Type 0
Ordered = All (λ b. b.1.window_start ≤ b.1.last_request_time)

-- What the cleanup drops, the next request would have started anew.
count_request_expired :
    (c : UserCount) (limit t now : ℕ)
    → c.window_start ≤ c.last_request_time
    → is_expired t c ≡ true
    → t ≤ now
    → count_request (some c) limit now ≡ count_request none limit now
unfolding count_request
count_request_expired c limit t now h e le = ground arith

get-Ordered :
    (user : String) (m : Counts) (c : UserCount)
    → Ordered m
    → Dict.get user m ≡ some c
    → c.window_start ≤ c.last_request_time
unfolding Dict.get
get-Ordered user [] c h e = cc
get-Ordered user ((k, d) ∷ m) c (h, hs) e = ground (arith, get-Ordered user m c hs)

count_request-kept :
    (user : String) (o : Option UserCount) (limit t now : ℕ)
    → ((c : UserCount) → o ≡ some c → c.window_start ≤ c.last_request_time)
    → t ≤ now
    → count_request (Dict.kept (λ b. not (is_expired t b.1)) user o) limit now
      ≡ count_request o limit now
count_request-kept user none limit t now h le = refl
count_request-kept user (some c) limit t now h le = elim (Bool-cases (is_expired t c)) [
  | inl old ↦ rw old (sym (count_request_expired c limit t now (h c refl) old le))
  | inr young ↦ rw young
]

-- No user can tell whether the cleanup has run: a request at its time or later gets the answer that
-- it would have got, and leaves the same record of its user. No user has two records, and none was
-- last used before its window started.
pub cleanup_transparent :
    (user : String) (limit t now : ℕ) (m : Counts)
    → Dict.IsUnique m
    → Ordered m
    → t ≤ now
    → ((check_rate_limit user limit now (cleanup_expired_counts t m)).1
        ≡ (check_rate_limit user limit now m).1)
      × (Dict.get user (check_rate_limit user limit now (cleanup_expired_counts t m)).0
          ≡ Dict.get user (check_rate_limit user limit now m).0)
unfolding check_rate_limit cleanup_expired_counts
cleanup_transparent user limit t now m unique h le =
    let same =
      ap (λ o. count_request o limit now) (get-keep (λ b. not (is_expired t b.1)) user m unique)
      ∙ count_request-kept user (Dict.get user m) limit t now (λ c e. get-Ordered user m c h e)
          le in
    (ap (λ p. p.1) same, simp (get-set, beq_self) (ap (λ p. some p.0) same))
