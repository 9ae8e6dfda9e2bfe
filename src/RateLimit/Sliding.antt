-- ===== src/RateLimit/Sliding.antt =====
-- The window slides: in any window, the requests that were allowed are at most the limit.
use mathlib.Core.Path.{subst}
use hire_ai.Prelude.{
  ℕ, ◌+◌, ◌-◌, ◌≤◌, ◌<◌, String, ◌≡◌, refl, sym, ap, ◌∙◌, inl, inr, Bool, true, false, Option, none,
  some, List, [], ◌∷◌, ◌++◌, length, length-append, All, All-append, All-weaken, count_where, ltb,
  leb, str_eq, eq_refl, if◌then◌else◌, Bool-cases, arith,
}
use hire_ai.RateLimit.{
  RateLimitResult, Windows, window_of, put_window, evict, deny, check_window, check_and_record,
}

-- A request that was allowed.
abbrev pub was_allowed : Option RateLimitResult → Bool
was_allowed none = false
was_allowed (some r) = r.allowed

-- The requests for a key at the given times, and the times of those that were allowed, in order.
unfoldable pub serve :
    String → (limit window_seconds : ℕ) → List ℕ → (log : List ℕ) → Windows → List ℕ × Windows
serve key limit window_seconds [] log windows = (log, windows)
serve key limit window_seconds (now ∷ rest) log windows =
    let step = check_and_record key limit window_seconds now windows in
    serve key limit window_seconds rest (if was_allowed step.0 then log ++ now ∷ [] else log) step.1

-- The clock does not run backwards, from the given time on.
abbrev pub IsMonotone : ℕ → List ℕ → Type 0
IsMonotone last [] = Unit
IsMonotone last (now ∷ rest) = (last ≤ now) × IsMonotone now rest

abbrev pub last_of : ℕ → List ℕ → ℕ
last_of last [] = last
last_of last (now ∷ rest) = last_of now rest

abbrev pub is_recent : (window_seconds now : ℕ) → ℕ → Bool
is_recent window_seconds now t = leb now (t + window_seconds)

abbrev Expired : (window_seconds now : ℕ) → ℕ → Type 0
Expired window_seconds now t = t + window_seconds < now

-- The log is an expired part and the window, which is within the limit.
record Slides (limit window_seconds now : ℕ) (log window : List ℕ) : Type 0 where
  old : List ℕ
  split : log ≡ old ++ window
  expired : All (Expired window_seconds now) old
  bounded : length window ≤ limit

append_assoc : (xs ys zs : List ℕ) → (xs ++ ys) ++ zs ≡ xs ++ (ys ++ zs)
append_assoc [] ys zs = refl
append_assoc (x ∷ xs) ys zs = ap (λ r. x ∷ r) (append_assoc xs ys zs)

module _ (limit window_seconds : ℕ) where
  evict-Slides :
      (last now : ℕ) (log window : List ℕ)
      → last ≤ now
      → Slides limit window_seconds last log window
      → Slides limit window_seconds now log (evict window_seconds now window)
  unfolding evict
  evict-Slides last now log [] h s = record {
    old = s.old;
    split = s.split;
    expired =
        All-weaken _ _ s.old (λ t. λ (e : t + window_seconds < last). omega (arith, e, h))
          s.expired;
    bounded = s.bounded;
  }
  evict-Slides last now log (t ∷ ts) h s = elim (Bool-cases (ltb (t + window_seconds) now)) [
    | inr fresh ↦ rw fresh (record {
      old = s.old;
      split = s.split;
      expired =
          All-weaken _ _ s.old (λ u. λ (e : u + window_seconds < last). omega (arith, e, h))
            s.expired;
      bounded = s.bounded;
    })
    | inl gone ↦ rw gone (
        evict-Slides now now log ts (omega arith) (record {
          old = s.old ++ t ∷ [];
          split = s.split ∙ sym (append_assoc s.old (t ∷ []) ts);
          expired =
              All-append _ s.old (t ∷ [])
                (All-weaken _ _ s.old (λ u. λ (e : u + window_seconds < last). omega (arith, e, h))
                  s.expired)
                (ground (arith, gone), tt);
          bounded = ground (arith, s.bounded);
        }))
  ]

  pub check_allowed :
      (now : ℕ) (window : List ℕ)
      → leb limit (length (evict window_seconds now window)) ≡ false
      → check_window limit window_seconds now window ≡ (
        some (record {
          allowed = true;
          remaining = limit - length (evict window_seconds now window) - 1;
          retry_after_seconds = none;
          limit = limit;
          window_seconds = window_seconds;
        }),
        evict window_seconds now window ++ now ∷ [],
      )
  unfolding check_window
  check_allowed now window room = rw (room, check_window) refl

  pub check_denied :
      (now : ℕ) (window : List ℕ)
      → leb limit (length (evict window_seconds now window)) ≡ true
      → check_window limit window_seconds now window ≡ (
        deny limit window_seconds now (evict window_seconds now window),
        evict window_seconds now window,
      )
  unfolding check_window
  check_denied now window full = rw (full, check_window) refl

  deny-refuses : (now : ℕ) (w : List ℕ) → was_allowed (deny limit window_seconds now w) ≡ false
  unfolding deny
  deny-refuses now [] = refl
  deny-refuses now (t ∷ w) = refl

  -- The log and the window after a call.
  abbrev SlidesAfter : ℕ → List ℕ → Option RateLimitResult × List ℕ → Type 0
  SlidesAfter now log r =
      Slides limit window_seconds now (if was_allowed r.0 then log ++ now ∷ [] else log) r.1

  check_window-Slides :
      (last now : ℕ) (log window : List ℕ)
      → last ≤ now
      → Slides limit window_seconds last log window
      → SlidesAfter now log (check_window limit window_seconds now window)
  check_window-Slides last now log window h s =
      let kept = evict-Slides last now log window h s in
      elim (Bool-cases (leb limit (length (evict window_seconds now window)))) [
        | inl full ↦
            subst (SlidesAfter now log) (sym (check_denied now window full))
              (rw (deny-refuses now (evict window_seconds now window)) kept)
        | inr room ↦ subst (SlidesAfter now log) (sym (check_allowed now window room)) (record {
          old = kept.old;
          split =
              ap (λ l. l ++ now ∷ []) kept.split
              ∙ append_assoc kept.old (evict window_seconds now window) (now ∷ []);
          expired = kept.expired;
          bounded =
              ground (arith, room, length-append (evict window_seconds now window) (now ∷ []));
        })
      ]

module _ (key : String) where
  window_of-put_window :
      (window : List ℕ) (windows : Windows) → window_of key (put_window key window windows) ≡ window
  unfolding window_of put_window
  window_of-put_window window [] = rw (eq_refl key) refl
  window_of-put_window window ((k, old) ∷ rest) = elim (Bool-cases (str_eq k key)) [
    | inl same ↦ rw (same, same) refl
    | inr other ↦ rw (other, other) (window_of-put_window window rest)
  ]

  module _ (limit window_seconds : ℕ) where
    serve-Slides :
        (times : List ℕ) (last : ℕ) (log : List ℕ) (windows : Windows)
        → IsMonotone last times
        → Slides limit window_seconds last log (window_of key windows)
        → Slides limit window_seconds
            (last_of last times)
            (serve key limit window_seconds times log windows).0
            (window_of key (serve key limit window_seconds times log windows).1)
    unfolding serve check_and_record
    serve-Slides [] last log windows h s = s
    serve-Slides (now ∷ rest) last log windows h s =
        serve-Slides rest now _ (check_and_record key limit window_seconds now windows).1 h.1 (
          subst
            (λ w.
              Slides limit window_seconds now
                (if was_allowed (check_window limit window_seconds now (window_of key windows)).0
                  then log ++ now ∷ []
                  else log)
                w)
            (sym (
              window_of-put_window (check_window limit window_seconds now (window_of key windows)).1
                windows))
            (check_window-Slides limit window_seconds last now log (window_of key windows) h.0 s))

count_where-old :
    (window_seconds now : ℕ) (old window : List ℕ)
    → All (Expired window_seconds now) old
    → count_where (is_recent window_seconds now) (old ++ window) ≤ length window
count_where-old window_seconds now [] [] h = omega arith
count_where-old window_seconds now [] (t ∷ ts) h =
    ground (arith, count_where-old window_seconds now [] ts tt)
count_where-old window_seconds now (t ∷ old) window h =
    ground (arith, h.0, count_where-old window_seconds now old window h.1)

-- Starting with no timestamps for the key, and while the clock does not run backwards: after any number
-- of requests, at the time of the last one, at most `limit` requests of this key were allowed in the
-- last `window_seconds`.
pub serve-within_limit :
    (key : String) (limit window_seconds start : ℕ) (times : List ℕ) (windows : Windows)
    → IsMonotone start times
    → window_of key windows ≡ []
    → count_where
        (is_recent window_seconds (last_of start times))
        (serve key limit window_seconds times [] windows).0
      ≤ limit
serve-within_limit key limit window_seconds start times windows h fresh =
    let s = serve-Slides key limit window_seconds times start [] windows h (
      subst (Slides limit window_seconds start []) (sym fresh)
        (record { old = []; split = refl; expired = tt; bounded = omega arith })) in
    let c =
      count_where-old window_seconds (last_of start times) s.old
        (window_of key (serve key limit window_seconds times [] windows).1) s.expired in
    let p = ap (count_where (is_recent window_seconds (last_of start times))) s.split in
    omega (arith, c, p, s.bounded)
