-- ===== src/Access/Explained.antt =====
-- What a cached answer rests on.
use mathlib.Core.Path.{subst}
use mathlib.Core.Bool.{false≢true}
use mathlib.Core.Option.{none-ne-some, some-injective}
use hire_ai.Prelude.{
  ℕ, ◌+◌, ◌≤◌, ◌≡◌, refl, sym, ap, ◌∙◌, inl, inr, ◌⊎◌, Bool, true, ◌&&◌, Option, some, List, [],
  ◌∷◌, filter, All, ltb, ◌==◌, Bool-cases, Option-cases, arith,
}
use hire_ai.Leads.{Text}
use hire_ai.Leads.Repository.{same_text}
use hire_ai.Access.Engine.{
  AccessRequest, AuthDecision, Cache, cache_ttl_seconds, find_entry, drop_entry, get_cached,
  set_cached, invalidate, clear, decide, key_of, authorize,
}

-- A request and when it was made.
abbrev pub Timed : Type 0
Timed = ℕ × AccessRequest

abbrev pub IsAmong : Timed → List Timed → Type 0
IsAmong q [] = ⊥
IsAmong q (x ∷ xs) = (q ≡ x) ⊎ IsAmong q xs

pub data CacheOp : Type 0 where
  ask : (now : ℕ) → AccessRequest → CacheOp
  invalidate_op : (ctx_key : Text) → CacheOp
  clear_op : CacheOp

-- A stored decision is the one that an earlier request with this key came to, for 60 seconds.
module _ (uuid_text : ℕ → Text) where
  abbrev pub IsExplained : List Timed → Text × (AuthDecision × ℕ) → Type 0
  IsExplained past (k, (decision, expires_at)) =
      (q : Timed) × IsAmong q past
      × (key_of uuid_text q.1 ≡ k)
      × (decide q.1 ≡ some decision)
      × (expires_at ≡ q.0 + cache_ttl_seconds)

  -- An answer: none for an exception, the decision made from scratch, or the one that an earlier
  -- request with the same key came to at most 60 seconds before.
  abbrev pub IsJustified : List Timed → (now : ℕ) → AccessRequest → Option AuthDecision → Type 0
  IsJustified past now r answer =
      (answer ≡ decide r)
      ⊎ ((q : Timed) × (decision : AuthDecision) × IsAmong q past
          × (key_of uuid_text q.1 ≡ key_of uuid_text r)
          × (now ≤ q.0 + cache_ttl_seconds)
          × (decide q.1 ≡ some decision)
          × (answer ≡ some (record decision { cached = true })))

  -- Every answer in a sequence of operations is justified by the requests before it.
  abbrev pub AllJustified : List Timed → List CacheOp → Cache → Type 0
  AllJustified past [] cache = Unit
  AllJustified past (ask now r ∷ ops) cache =
      IsJustified past now r (authorize uuid_text now r cache).0
      × AllJustified ((now, r) ∷ past) ops (authorize uuid_text now r cache).1
  AllJustified past (invalidate_op ctx_key ∷ ops) cache =
      AllJustified past ops (invalidate ctx_key cache)
  AllJustified past (clear_op ∷ ops) cache = AllJustified past ops (clear cache)

same_text_sound : (a b : Text) → same_text a b ≡ true → a ≡ b
same_text_sound [] [] h = refl
same_text_sound [] (y ∷ b) h = absurd (false≢true h)
same_text_sound (x ∷ a) [] h = absurd (false≢true h)
same_text_sound (x ∷ a) (y ∷ b) h =
    ap (λ c. c ∷ a) (first x y (same_text a b) h)
    ∙ ap (λ r. y ∷ r) (same_text_sound a b (second (x == y) (same_text a b) h))
  where
    first : (m n : ℕ) (b : Bool) → (m == n && b) ≡ true → m ≡ n
    first m n b h = ground (arith, h)

    second : (a b : Bool) → (a && b) ≡ true → b ≡ true
    second a b h = ground (arith, h)

module _ (P : Text × (AuthDecision × ℕ) → Type 0) where
  pub find_entry-holds :
      (k : Text) (cache : Cache) (stored : AuthDecision × ℕ)
      → All P cache
      → find_entry k cache ≡ some stored
      → P (k, stored)
  unfolding find_entry
  find_entry-holds k [] stored h e = absurd (none-ne-some _ e)
  find_entry-holds k ((key, s) ∷ rest) stored h e = elim (Bool-cases (same_text key k)) [
    | inl hit ↦
        subst (λ s. P (k, s)) (some-injective _ _ (rw (hit, find_entry) at e))
          (subst (λ k. P (k, s)) (same_text_sound key k hit) h.0)
    | inr miss ↦ find_entry-holds k rest stored h.1 (rw (miss, find_entry) at e)
  ]

  drop_entry-holds : (k : Text) (cache : Cache) → All P cache → All P (drop_entry k cache)
  unfolding drop_entry
  drop_entry-holds k [] h = tt
  drop_entry-holds k ((key, s) ∷ rest) h = elim (Bool-cases (same_text key k)) [
    | inl hit ↦ rw (hit, drop_entry) h.1
    | inr miss ↦ rw (miss, drop_entry) (h.0, drop_entry-holds k rest h.1)
  ]

  pub set_cached-holds :
      (now : ℕ) (k : Text) (decision : AuthDecision) (cache : Cache)
      → P (k, (decision, now + cache_ttl_seconds))
      → All P cache
      → All P (set_cached now k decision cache)
  unfolding set_cached
  set_cached-holds now k decision [] new h = (new, tt)
  set_cached-holds now k decision ((key, s) ∷ rest) new h = elim (Bool-cases (same_text key k)) [
    | inl hit ↦
        rw (hit, set_cached)
          (
            subst (λ k. P (k, (decision, now + cache_ttl_seconds)))
                (sym (same_text_sound key k hit)) new,
            h.1,
          )
    | inr miss ↦ rw (miss, set_cached) (h.0, set_cached-holds now k decision rest new h.1)
  ]

  pub filter-holds :
      (q : Text × (AuthDecision × ℕ) → Bool) (cache : Cache) → All P cache → All P (filter q cache)
  filter-holds q [] h = tt
  filter-holds q (e ∷ rest) h = elim (Bool-cases (q e)) [
    | inl keep ↦ rw keep (h.0, filter-holds q rest h.1)
    | inr drop ↦ rw drop (filter-holds q rest h.1)
  ]

  pub get_cached-holds :
      (now : ℕ) (k : Text) (cache : Cache) → All P cache → All P (get_cached now k cache).1
  unfolding get_cached
  get_cached-holds now k cache h = elim (Option-cases (find_entry k cache)) [
    | inl missing ↦ rw (missing, get_cached) h
    | inr ((decision, expires_at), found) ↦
        rw (found, get_cached)
          (elim (Bool-cases (ltb expires_at now)) [
            | inl old ↦ rw (old, get_cached) (drop_entry-holds k cache h)
            | inr live ↦ rw (live, get_cached) h
          ])
  ]

  -- A hit is a stored decision that has not expired.
  pub get_cached-hit :
      (now : ℕ) (k : Text) (cache : Cache) (decision : AuthDecision)
      → All P cache
      → (get_cached now k cache).0 ≡ some decision
      → (expires_at : ℕ) × P (k, (decision, expires_at)) × (now ≤ expires_at)
  unfolding get_cached
  get_cached-hit now k cache decision h e = elim (Option-cases (find_entry k cache)) [
    | inl missing ↦ absurd (none-ne-some _ (rw (missing, get_cached) at e))
    | inr ((d, expires_at), found) ↦ elim (Bool-cases (ltb expires_at now)) [
      | inl old ↦ absurd (none-ne-some _ (rw (old, get_cached) at (rw (found, get_cached) at e)))
      | inr live ↦ (
        expires_at,
        subst (λ d. P (k, (d, expires_at)))
            (some-injective _ _ (rw (live, get_cached) at (rw (found, get_cached) at e)))
            (find_entry-holds k cache (d, expires_at) h found),
        ground (arith, live),
      )
    ]
  ]
