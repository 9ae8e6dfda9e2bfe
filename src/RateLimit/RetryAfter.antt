-- ===== src/RateLimit/RetryAfter.antt =====
-- What a denial promises about the time to wait.
use mathlib.Core.Path.{subst}
use mathlib.Core.Option.{some-injective, none-ne-some}
use hire_ai.Prelude.{
  ℕ, ◌+◌, ◌-◌, ◌≤◌, ◌<◌, ◌≡◌, sym, ap, ◌∙◌, inl, inr, true, false, Option, none, some, List, [],
  ◌∷◌, length, ltb, leb, lt→ltb, Bool-cases, arith,
}
use hire_ai.RateLimit.{RateLimitResult, evict, deny, check_window}
use hire_ai.RateLimit.Sliding.{was_allowed, check_allowed, check_denied}

abbrev retry_of : Option RateLimitResult → Option ℕ
retry_of none = none
retry_of (some r) = r.retry_after_seconds

length-evict :
    (window_seconds now : ℕ) (window : List ℕ)
    → length (evict window_seconds now window) ≤ length window
unfolding evict
length-evict window_seconds now [] = omega arith
length-evict window_seconds now (t ∷ ts) = elim (Bool-cases (ltb (t + window_seconds) now)) [
  | inl gone ↦ rw gone (omega (arith, length-evict window_seconds now ts))
  | inr fresh ↦ rw fresh (omega arith)
]

-- Later than the time that the denial names, its oldest timestamp is evicted.
retry_frees :
    (limit window_seconds now later wait : ℕ) (kept : List ℕ) (r : RateLimitResult)
    → length kept ≤ limit
    → 1 ≤ limit
    → deny limit window_seconds now kept ≡ some r
    → r.retry_after_seconds ≡ some wait
    → now + wait < later
    → leb limit (length (evict window_seconds later kept)) ≡ false
unfolding deny evict
retry_frees limit window_seconds now later wait [] r h one e waits after = absurd (none-ne-some _ e)
retry_frees limit window_seconds now later wait (oldest ∷ rest) r h one e waits after =
    let w : oldest + window_seconds - now ≡ wait = some-injective _ _ (ap retry_of e ∙ waits) in
    rw (lt→ltb (oldest + window_seconds) later (omega (arith, w, after)))
      (ground (arith, h, length-evict window_seconds later rest))

-- A denial tells the truth: if the window holds no more than a limit of 1 or more, then a request that
-- was denied with some `retry_after_seconds` is allowed when it is made again later than that, nothing
-- else having come between.
pub retry_after-allowed :
    (limit window_seconds now later wait : ℕ) (window : List ℕ) (r : RateLimitResult)
    → length window ≤ limit
    → 1 ≤ limit
    → (check_window limit window_seconds now window).0 ≡ some r
    → r.retry_after_seconds ≡ some wait
    → now + wait < later
    → was_allowed
        (check_window limit window_seconds later (check_window limit window_seconds now window).1).0
      ≡ true
retry_after-allowed limit window_seconds now later wait window r h one e waits after =
    elim (Bool-cases (leb limit (length (evict window_seconds now window)))) [
      | inr room ↦ absurd (
          none-ne-some wait (
            ap (λ (o : Option RateLimitResult × List ℕ). retry_of o.0)
              (sym (check_allowed limit window_seconds now window room))
            ∙ ap retry_of e
            ∙ waits))
      | inl full ↦
          let denied = check_denied limit window_seconds now window full in
          let refused = sym (ap (λ (o : Option RateLimitResult × List ℕ). o.0) denied) ∙ e in
          let within = length-evict window_seconds now window in
          let free =
            retry_frees limit window_seconds now later wait (evict window_seconds now window) r
              (omega (arith, within, h)) one refused waits after in
          subst
            (λ (o : Option RateLimitResult × List ℕ).
              was_allowed (check_window limit window_seconds later o.1).0 ≡ true)
            (sym denied)
            (ap (λ (o : Option RateLimitResult × List ℕ). was_allowed o.0)
              (check_allowed limit window_seconds later (evict window_seconds now window) free))
    ]
