-- ===== src/RateLimit.antt =====
-- security/rate_limiter.py: `MemoryRateLimiterBackend`, whose lock makes each call one step, and the
-- `RateLimiter` facade. Instants are ticks of `time.monotonic()`; a timestamp is below the cutoff
-- `now - window_seconds` when it plus the window is below now. A limit is 0 or more.
mod Tests
pub mod Sliding
pub mod RetryAfter
use hire_ai.Prelude.{
  ℕ, suc, ◌+◌, ◌-◌, String, Bool, true, false, Option, none, some, List, [], ◌∷◌, ◌++◌, length, ltb,
  leb, str_eq, if◌then◌else◌,
}

-- `RateLimitResult`
pub record RateLimitResult : Type 0 where
  pub allowed : Bool
  pub remaining : ℕ
  pub retry_after_seconds : Option ℕ
  pub limit : ℕ
  pub window_seconds : ℕ

-- `_windows`; a key that is not there has no timestamps.
abbrev pub Windows : Type 0
Windows = List (String × List ℕ)

unfoldable pub window_of : String → Windows → List ℕ
window_of key [] = []
window_of key ((k, window) ∷ rest) = if str_eq k key then window else window_of key rest

unfoldable pub put_window : String → List ℕ → Windows → Windows
put_window key window [] = (key, window) ∷ []
put_window key window ((k, old) ∷ rest) =
    if str_eq k key then (k, window) ∷ rest else (k, old) ∷ put_window key window rest

-- The loop that evicts the expired timestamps from the left.
unfoldable pub evict : (window_seconds now : ℕ) → List ℕ → List ℕ
evict window_seconds now [] = []
evict window_seconds now (t ∷ ts) =
    let rest = evict window_seconds now ts in if ltb (t + window_seconds) now then rest else t ∷ ts

-- The denial; `window[0]` raises `IndexError` on an empty window, which a limit of 0 allows.
unfoldable pub deny : (limit window_seconds now : ℕ) → List ℕ → Option RateLimitResult
deny limit window_seconds now [] = none
deny limit window_seconds now (oldest ∷ rest) = some (record {
  allowed = false;
  remaining = 0;
  retry_after_seconds = some (oldest + window_seconds - now);
  limit = limit;
  window_seconds = window_seconds;
})

-- `check_and_record`, on the window of the key
unfoldable pub check_window :
    (limit window_seconds now : ℕ) → List ℕ → Option RateLimitResult × List ℕ
check_window limit window_seconds now window =
    let kept = evict window_seconds now window in
    if leb limit (length kept) then (deny limit window_seconds now kept, kept) else (
      some (record {
        allowed = true;
        remaining = limit - length kept - 1;
        retry_after_seconds = none;
        limit = limit;
        window_seconds = window_seconds;
      }),
      kept ++ now ∷ [],
    )

-- `check_and_record`
unfoldable pub check_and_record :
    String → (limit window_seconds now : ℕ) → Windows → Option RateLimitResult × Windows
check_and_record key limit window_seconds now windows =
    let (result, window) = check_window limit window_seconds now (window_of key windows) in
    (result, put_window key window windows)

-- `reset`
unfoldable pub reset : String → Windows → Windows
reset key [] = []
reset key ((k, window) ∷ rest) = if str_eq k key then rest else (k, window) ∷ reset key rest

-- `RateLimiter`
pub record RateLimiter : Type 0 where
  pub default_limit : ℕ
  pub default_window : ℕ
  pub backend : Windows

unfoldable pub check : String → (now : ℕ) → RateLimiter → Option RateLimitResult × RateLimiter
check key now limiter =
    let (result, windows) =
      check_and_record key limiter.default_limit limiter.default_window now limiter.backend in
    (result, record limiter { backend = windows })
