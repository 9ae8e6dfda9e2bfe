-- ===== src/RateLimit/Tests.antt =====
-- The laws of the rate limiter at a limit of two requests in ten ticks.
use hire_ai.Prelude.{◌≤◌, ◌≡◌, refl, true, false, some, [], ◌∷◌, count_where, arith}
use hire_ai.RateLimit.{RateLimitResult, window_of, check_window, evict, deny}
use hire_ai.RateLimit.Sliding.{was_allowed, serve, is_recent, serve-within_limit}
use hire_ai.RateLimit.RetryAfter.{retry_after-allowed}

no_window : window_of "ip" [] ≡ []
unfolding window_of
no_window = refl

serve-within_limit_example :
    count_where (is_recent 10 12) (serve "ip" 2 10 (1 ∷ 2 ∷ 3 ∷ 12 ∷ []) [] []).0 ≤ 2
serve-within_limit_example =
    serve-within_limit "ip" 2 10 0 (1 ∷ 2 ∷ 3 ∷ 12 ∷ []) []
      (omega arith, (omega arith, (omega arith, (omega arith, tt)))) no_window

abbrev denial : RateLimitResult
denial = record {
  allowed = false;
  remaining = 0;
  retry_after_seconds = some 8;
  limit = 2;
  window_seconds = 10;
}

is_denied : (check_window 2 10 3 (1 ∷ 2 ∷ [])).0 ≡ some denial
unfolding check_window evict deny
is_denied = refl

retry_after-allowed_example :
    was_allowed (check_window 2 10 12 (check_window 2 10 3 (1 ∷ 2 ∷ [])).1).0 ≡ true
retry_after-allowed_example =
    retry_after-allowed 2 10 3 12 8 (1 ∷ 2 ∷ []) denial (omega arith) (omega arith) is_denied refl
      (omega arith)
