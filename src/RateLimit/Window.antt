-- ===== src/RateLimit/Window.antt =====
-- security/RateLimitService.ts: how many requests a window lets through, and when the next may come.
use peta_core.Prelude.{
  ℕ, String, string_eq, All, List, [], arith, if◌then◌else◌, some, suc, ◌+◌, ◌<◌, ◌∷◌, ◌≡◌, ◌≤◌, ap,
  beq_self, false, inl, inr, true, ◌∙◌, ◌⊎◌, Option, eq_iff, none, refl, ◌*◌, ◌≢◌,
}
use peta_core.Prelude.Dict
use peta_core.Prelude.Dict.{get-set, kept}
use peta_core.RateLimit.{
  Counts, RateLimitResult, UserCount, check_rate_limit, count_request, window_size, opened,
}

-- The answers to one user's requests at these times.
unfoldable pub answers : String → ℕ → List ℕ → Counts → List RateLimitResult
answers user limit [] m = []
answers user limit (now ∷ ts) m =
    let (m', a) = check_rate_limit user limit now m in a ∷ answers user limit ts m'

abbrev pub allowed_count : List RateLimitResult → ℕ
allowed_count [] = 0
allowed_count (a ∷ rest) = if a.allowed then suc (allowed_count rest) else allowed_count rest

abbrev pub Before : ℕ → List ℕ → Type 0
Before end = All (λ t. t < end)

-- A request within the open window passes and is counted, or is refused and changes nothing.
count_request_open :
    (c : UserCount) (limit now : ℕ)
    → now < c.window_start + window_size
    → ((count_request (some c) limit now).0.window_start ≡ c.window_start)
      × (((count_request (some c) limit now).1.allowed ≡ true)
            × (c.count < limit)
            × ((count_request (some c) limit now).0.count ≡ suc c.count)
          ⊎ ((count_request (some c) limit now).1.allowed ≡ false)
            × ((count_request (some c) limit now).0.count ≡ c.count))
unfolding count_request
count_request_open c limit now h = ground arith

get_check :
    (user : String) (limit now : ℕ) (m : Counts)
    → Dict.get user (check_rate_limit user limit now m).0
      ≡ some (count_request (Dict.get user m) limit now).0
unfolding check_rate_limit
get_check user limit now m = rw (get-set, beq_self user)

answer_check :
    (user : String) (limit now : ℕ) (m : Counts) {c : UserCount}
    → Dict.get user m ≡ some c
    → (check_rate_limit user limit now m).1.allowed ≡ (count_request (some c) limit now).1.allowed
unfolding check_rate_limit
answer_check user limit now m e = ap (λ o. (count_request o limit now).1.allowed) e

-- While a user's window is open, the requests that pass and the number that it has counted before
-- are together no more than the limit, at whatever times within the window they come; if that number
-- is beyond the limit already, none passes.
pub allowed_in_window :
    (user : String) (limit : ℕ) (ts : List ℕ) (m : Counts) (c : UserCount)
    → Dict.get user m ≡ some c
    → Before (c.window_start + window_size) ts
    → (allowed_count (answers user limit ts m) + c.count ≤ limit)
      ⊎ ((limit < c.count) × (allowed_count (answers user limit ts m) ≡ 0))
unfolding answers
allowed_in_window user limit [] m c e h = omega arith
allowed_in_window user limit (now ∷ ts) m c e (h, hs) =
    let (start, cases) = count_request_open c limit now h in
    let next = (count_request (some c) limit now).0 in
    let rest =
      allowed_in_window user limit ts (check_rate_limit user limit now m).0 next
        (get_check user limit now m ∙ ap (λ o. some (count_request o limit now).0) e)
        (rw start hs) in
    elim cases [
      | inl (passed, room, counted) ↦
          rw (answer_check user limit now m e ∙ passed) (omega (arith, rest))
      | inr (refused, kept) ↦ rw (answer_check user limit now m e ∙ refused) (omega (arith, rest))
    ]

-- From the first request of a user without a record on, a window lets through no more requests than
-- the limit, which is one at least.
pub allowed_from_opening :
    (user : String) (limit start : ℕ) (ts : List ℕ) (m : Counts)
    → Dict.get user m ≡ none
    → 1 ≤ limit
    → Before (start + window_size) ts
    → allowed_count (answers user limit (start ∷ ts) m) ≤ limit
unfolding answers check_rate_limit count_request
allowed_from_opening user limit start ts m e pos_limit h = rw e (
    omega (
      arith,
      allowed_in_window user limit ts (Dict.set user (opened start) m) (opened start)
          (rw (get-set, beq_self user) refl) h,
    ))

count_request_retry :
    (o : Option UserCount) (limit now later s : ℕ)
    → (count_request o limit now).1.retry_after ≡ some s
    → now + s * 1000 ≤ later
    → (count_request (some (count_request o limit now).0) limit later).1.allowed ≡ true
unfolding count_request
count_request_retry none limit now later s e h = cc
count_request_retry (some c) limit now later s e h = ground arith

-- A refused request that is repeated no sooner than it was told to wait is let through, if the user
-- sent none in between.
pub retry_after_suffices :
    (user : String) (limit now later s : ℕ) (m : Counts)
    → (check_rate_limit user limit now m).1.retry_after ≡ some s
    → now + s * 1000 ≤ later
    → (check_rate_limit user limit later (check_rate_limit user limit now m).0).1.allowed ≡ true
unfolding check_rate_limit
retry_after_suffices user limit now later s m e h =
    rw (get-set, beq_self user) (count_request_retry (Dict.get user m) limit now later s e h)

-- A request counts for its own user alone.
pub get-check_rate_limit_ne :
    (user other : String) (limit now : ℕ) (m : Counts)
    → user ≢ other
    → Dict.get other (check_rate_limit user limit now m).0 ≡ Dict.get other m
unfolding check_rate_limit
get-check_rate_limit_ne user other limit now m ne =
    ground
      (arith, get-set user other (count_request (Dict.get user m) limit now).0 m, eq_iff user other)
