-- ===== src/Access/Answers.antt =====
-- Every answer of the authorization engine rests on a decision that is at most a minute old.
use mathlib.Core.Path.{subst}
use hire_ai.Prelude.{
  ℕ, ◌≤◌, ◌≡◌, refl, sym, inl, inr, true, not, Option, none, some, List, [], ◌∷◌, ◌++◌, All,
  All-weaken, Option-cases,
}
use hire_ai.Leads.{Text}
use hire_ai.Leads.Contact.{starts_with}
use hire_ai.Access.Engine.{
  AccessRequest, AuthDecision, Cache, get_cached, set_cached, invalidate, clear, bar, decide,
  key_of, authorize,
}
use hire_ai.Access.Explained.{
  Timed, IsExplained, IsJustified, CacheOp, ask, invalidate_op, clear_op, AllJustified,
  set_cached-holds, filter-holds, get_cached-holds, get_cached-hit,
}

module _ (uuid_text : ℕ → Text) (past : List Timed) (now : ℕ) (r : AccessRequest)
    (cache : Cache) where
  abbrev k : Text
  k = key_of uuid_text r

  abbrev hit : Option AuthDecision × Cache
  hit = get_cached now k cache

  -- The three ways through `authorize`.
  authorize_hit :
      (decision : AuthDecision)
      → hit.0 ≡ some decision
      → authorize uuid_text now r cache ≡ (some (record decision { cached = true }), hit.1)
  unfolding authorize
  authorize_hit decision e = rw (e, authorize) refl

  authorize_raises :
      hit.0 ≡ none → decide r ≡ none → authorize uuid_text now r cache ≡ (none, hit.1)
  unfolding authorize
  authorize_raises e f = rw (e, authorize) (rw (f, authorize) refl)

  authorize_decides :
      (decision : AuthDecision)
      → hit.0 ≡ none
      → decide r ≡ some decision
      → authorize uuid_text now r cache ≡ (some decision, set_cached now k decision hit.1)
  unfolding authorize
  authorize_decides decision e f = rw (e, authorize) (rw (f, authorize) refl)

  abbrev Step : Option AuthDecision × Cache → Type 0
  Step a = IsJustified uuid_text past now r a.0 × All (IsExplained uuid_text ((now, r) ∷ past)) a.1

  longer :
      (c : Cache)
      → All (IsExplained uuid_text past) c
      → All (IsExplained uuid_text ((now, r) ∷ past)) c
  longer c h =
      All-weaken (IsExplained uuid_text past) (IsExplained uuid_text ((now, r) ∷ past)) c
        (λ e x. (x.0, inr x.1, x.2, x.3, x.4)) h

  authorize-Step : All (IsExplained uuid_text past) cache → Step (authorize uuid_text now r cache)
  authorize-Step h = elim (Option-cases hit.0) [
    | inr (decision, e) ↦
        let found = get_cached-hit (IsExplained uuid_text past) now k cache decision h e in
        subst Step (sym (authorize_hit decision e)) (
          inr (
            found.1.0,
            decision,
            found.1.1,
            found.1.2,
            subst (λ n. now ≤ n) found.1.4 found.2,
            found.1.3,
            refl,
          ),
          longer hit.1 kept_rest,
        )
    | inl missed ↦ elim (Option-cases (decide r)) [
      | inl raises ↦
          subst Step (sym (authorize_raises missed raises))
            (inl (sym raises), longer hit.1 kept_rest)
      | inr (decision, e) ↦ subst Step (sym (authorize_decides decision missed e)) (
        inl (sym e),
        set_cached-holds (IsExplained uuid_text ((now, r) ∷ past)) now k decision hit.1
            ((now, r), inl refl, refl, e, refl) (longer hit.1 kept_rest),
      )
    ]
  ]
    where
      kept_rest : All (IsExplained uuid_text past) hit.1
      kept_rest = get_cached-holds (IsExplained uuid_text past) now k cache h

module _ (uuid_text : ℕ → Text) where
  answers_from :
      (past : List Timed) (ops : List CacheOp) (cache : Cache)
      → All (IsExplained uuid_text past) cache
      → AllJustified uuid_text past ops cache
  unfolding invalidate
  answers_from past [] cache h = tt
  answers_from past (ask now r ∷ ops) cache h =
      let one = authorize-Step uuid_text past now r cache h in
      (one.0, answers_from ((now, r) ∷ past) ops (authorize uuid_text now r cache).1 one.1)
  answers_from past (invalidate_op ctx_key ∷ ops) cache h =
      answers_from past ops (invalidate ctx_key cache) (
        filter-holds (IsExplained uuid_text past) (λ e. not (starts_with (ctx_key ++ bar ∷ []) e.0))
          cache h)
  answers_from past (clear_op ∷ ops) cache h = answers_from past ops (clear cache) tt

  -- From the empty cache, and through any sequence of requests, invalidations and clearings, every
  -- answer is what the stages decide from scratch for the request, or, marked as cached, what they
  -- decided for an earlier request with the same key, at most 60 seconds before.
  pub answers-AllJustified : (ops : List CacheOp) → AllJustified uuid_text [] ops []
  answers-AllJustified ops = answers_from [] ops [] tt
