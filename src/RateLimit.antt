-- ===== src/RateLimit.antt =====
-- security/RateLimitService.ts: a fixed window for each user. `now` is `Date.now()`.
pub mod Window
pub mod Cleanup
mod Examples
use peta_core.Prelude.{
  ℕ, String, string_eq, Bool, List, Option, false, if◌then◌else◌, keep, leb, ltb, none, not, some,
  true, ◌*◌, ◌+◌, ◌-◌, ◌/◌,
}
use peta_core.Prelude.Int.{pos, sub_ℕ, ℤ}
use peta_core.Prelude.Dict

abbrev pub window_size : ℕ
window_size = 60000

pub record UserCount : Type 0 where
  pub count : ℕ
  pub window_start : ℕ
  pub last_request_time : ℕ

pub record RateLimitResult : Type 0 where
  pub allowed : Bool
  pub remaining : ℤ
  pub reset_time : ℕ
  pub retry_after : Option ℕ

abbrev pub Counts : Type 0
Counts = List (String × UserCount)

-- the record of a user whose window starts at this request, and the answer
abbrev pub opened : ℕ → UserCount
opened now = record { count = 1; window_start = now; last_request_time = now }

abbrev pub open_answer : ℕ → ℕ → RateLimitResult
open_answer limit now = record {
  allowed = true;
  remaining = sub_ℕ limit 1;
  reset_time = now + window_size;
  retry_after = none;
}

-- What a request makes of the user's record, and the answer. `now - start` stops at 0 here: a clock
-- that was set back stays within the window, as it does in the source.
unfoldable pub count_request : Option UserCount → ℕ → ℕ → UserCount × RateLimitResult
count_request none limit now = (opened now, open_answer limit now)
count_request (some c) limit now =
    let reset = c.window_start + window_size in
    if leb window_size (now - c.window_start)
    then (opened now, open_answer limit now)
    else if leb limit c.count
    then (
      c,
      record {
        allowed = false;
        remaining = pos 0;
        reset_time = reset;
        retry_after = some ((reset - now + 999) / 1000);
      },
    )
    else (
      record c { count = c.count + 1; last_request_time = now },
      record {
        allowed = true;
        remaining = sub_ℕ limit (c.count + 1);
        reset_time = reset;
        retry_after = none;
      },
    )

unfoldable pub check_rate_limit : String → ℕ → ℕ → Counts → Counts × RateLimitResult
unfolding count_request
check_rate_limit user limit now m =
    let (c, answer) = count_request (Dict.get user m) limit now in (Dict.set user c m, answer)

-- `now - last > 2 * window`, the test by which the cleanup drops a record
abbrev pub is_expired : ℕ → UserCount → Bool
is_expired now c = ltb (window_size * 2) (now - c.last_request_time)

unfoldable pub cleanup_expired_counts : ℕ → Counts → Counts
cleanup_expired_counts now m = keep (λ b. not (is_expired now b.1)) m
