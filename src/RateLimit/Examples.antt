-- ===== src/RateLimit/Examples.antt =====
-- Runs of the rate limiter of security/RateLimitService.ts at concrete inputs.
use peta_core.Prelude.{
  string_eq, nat_eq, [], arith, none, refl, some, true, ◌+◌, ◌∷◌, ◌≡◌, ◌≤◌, ◌⊎◌, ◌<◌,
}
use peta_core.Prelude.Dict
use peta_core.RateLimit.{UserCount, Counts, check_rate_limit, cleanup_expired_counts, count_request}
use peta_core.RateLimit.Window.{allowed_in_window, retry_after_suffices, allowed_count, answers}
use peta_core.RateLimit.Cleanup.{cleanup_transparent}

abbrev some_count : UserCount
some_count = record { count = 2; window_start = 100000; last_request_time = 101000 }

abbrev counts : Counts
counts = ("ann", some_count) ∷ []

counts-get : Dict.get "ann" counts ≡ some some_count
unfolding Dict.get
counts-get = refl

allowed_in_window_example :
    (allowed_count (answers "ann" 3 (110000 ∷ 120000 ∷ 159999 ∷ []) counts) + 2 ≤ 3)
    ⊎ ((3 < 2) × (allowed_count (answers "ann" 3 (110000 ∷ 120000 ∷ 159999 ∷ []) counts) ≡ 0))
allowed_in_window_example =
    allowed_in_window "ann" 3 (110000 ∷ 120000 ∷ 159999 ∷ []) counts some_count counts-get
      (omega arith, (omega arith, (omega arith, tt)))

absent : Dict.get "bob" counts ≡ none
unfolding Dict.get
absent = refl

refused : (check_rate_limit "ann" 2 130500 counts).1.retry_after ≡ some 30
unfolding check_rate_limit count_request Dict.get Dict.set
refused = refl

retry_after_suffices_example :
    (check_rate_limit "ann" 2 160500 (check_rate_limit "ann" 2 130500 counts).0).1.allowed ≡ true
retry_after_suffices_example =
    retry_after_suffices "ann" 2 130500 160500 30 counts refused (omega arith)

unique : Dict.IsUnique counts
unfolding Dict.get
unique = (refl, tt)

cleanup_transparent_example :
    ((check_rate_limit "ann" 1 400000 (cleanup_expired_counts 300000 counts)).1
      ≡ (check_rate_limit "ann" 1 400000 counts).1)
    × (Dict.get "ann" (check_rate_limit "ann" 1 400000 (cleanup_expired_counts 300000 counts)).0
        ≡ Dict.get "ann" (check_rate_limit "ann" 1 400000 counts).0)
cleanup_transparent_example =
    cleanup_transparent "ann" 1 300000 400000 counts unique (omega arith, tt) (omega arith)
