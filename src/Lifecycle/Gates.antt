-- ===== src/Lifecycle/Gates.antt =====
-- An enabled agent has passed every gate.
use hire_ai.Prelude.{
  ◌≡◌, refl, ap, ◌∙◌, inl, inr, Bool, true, false, ◌&&◌, ◌||◌, List, [], ◌∷◌, any, all, ◌==◌, arith,
  Bool-cases, ==_iff,
}
use hire_ai.Lifecycle.{
  PackageStatus, draft, sandbox_tested, security_checked, governance_checked, published, installed,
  enabled, disabled, archived, package_code, same_package, can_transition_package,
}

-- The histories of a package: the statuses it has had, the latest first, by allowed transitions.
pub data History : List PackageStatus → PackageStatus → Type 0 where
  created : History (draft ∷ []) draft
  moved :
      (past : List PackageStatus) (s t : PackageStatus)
      → History past s
      → can_transition_package s t ≡ true
      → History (t ∷ past) t

-- The gates behind a package of that status.
abbrev pub gates : PackageStatus → List PackageStatus
gates draft = []
gates sandbox_tested = sandbox_tested ∷ []
gates security_checked = sandbox_tested ∷ security_checked ∷ []
gates governance_checked = sandbox_tested ∷ security_checked ∷ governance_checked ∷ []
gates published = sandbox_tested ∷ security_checked ∷ governance_checked ∷ published ∷ []
gates installed = sandbox_tested ∷ security_checked ∷ governance_checked ∷ published ∷ []
gates enabled = sandbox_tested ∷ security_checked ∷ governance_checked ∷ published ∷ []
gates disabled = sandbox_tested ∷ security_checked ∷ governance_checked ∷ published ∷ []
gates archived = []

abbrev pub was_in : List PackageStatus → PackageStatus → Bool
was_in past g = any (λ s. same_package s g) past

-- The gates of the target are the target, or gates that the status before it needed.
gates_step :
    (s t : PackageStatus)
    → can_transition_package s t ≡ true
    → all (λ g. same_package t g || was_in (gates s) g) (gates t) ≡ true
unfolding can_transition_package
gates_step s t h = ground arith

and_split : (a b : Bool) → (a && b) ≡ true → (a ≡ true) × (b ≡ true)
and_split true b h = (refl, h)
and_split false b h = cc (h)

all-weaken :
    (p q : PackageStatus → Bool) (xs : List PackageStatus)
    → ((x : PackageStatus) → p x ≡ true → q x ≡ true)
    → all p xs ≡ true
    → all q xs ≡ true
all-weaken p q [] f h = refl
all-weaken p q (x ∷ xs) f h =
    let parts = and_split (p x) (all p xs) h in rw (f x parts.0) (all-weaken p q xs f parts.1)

-- What is in a list, all of which is in the past, is in the past.
was_in_trans :
    (past xs : List PackageStatus) (g : PackageStatus)
    → all (was_in past) xs ≡ true
    → was_in xs g ≡ true
    → was_in past g ≡ true
was_in_trans past [] g h e = cc (e)
was_in_trans past (x ∷ xs) g h e =
    let parts = and_split (was_in past x) (all (was_in past) xs) h in
    elim (Bool-cases (same_package x g)) [
      | inl same ↦
          ap (λ c. any (λ s. package_code s == c) past)
            (ground (arith, (==_iff (package_code x) (package_code g)).0 same))
          ∙ parts.0
      | inr other ↦ was_in_trans past xs g parts.1 (rw other at e)
    ]

or_step : (a b c : Bool) → (b ≡ true → c ≡ true) → (a || b) ≡ true → (a || c) ≡ true
or_step true b c f h = refl
or_step false b c f h = f h

-- A package whose status was reached from DRAFT by allowed transitions only has had every status that
-- is a gate of it: one that is INSTALLED, ENABLED or DISABLED has been SANDBOX_TESTED,
-- SECURITY_CHECKED, GOVERNANCE_CHECKED and PUBLISHED, and one at one of these four has been at those
-- before it.
pub History-gates :
    (past : List PackageStatus) (s : PackageStatus)
    → History past s
    → all (was_in past) (gates s) ≡ true
History-gates _ _ created = refl
History-gates _ _ (moved past s t h e) =
    all-weaken (λ g. same_package t g || was_in (gates s) g) (was_in (t ∷ past)) (gates t)
      (λ g.
        or_step (same_package t g) (was_in (gates s) g) (was_in past g)
          (was_in_trans past (gates s) g (History-gates past s h)))
      (gates_step s t e)
