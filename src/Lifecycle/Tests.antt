-- ===== src/Lifecycle/Tests.antt =====
-- The gates of a package that was sandbox-tested and then security-checked.
use hire_ai.Prelude.{◌≡◌, refl, true, false, [], ◌∷◌, all}
use hire_ai.Lifecycle.{draft, sandbox_tested, security_checked, enabled, can_transition_package}
use hire_ai.Lifecycle.Gates.{History, created, moved, gates, was_in, History-gates}

checked : History (security_checked ∷ sandbox_tested ∷ draft ∷ []) security_checked
unfolding can_transition_package
checked =
    moved (sandbox_tested ∷ draft ∷ []) sandbox_tested security_checked
      (moved (draft ∷ []) draft sandbox_tested created refl) refl

no_shortcut : can_transition_package draft enabled ≡ false
unfolding can_transition_package
no_shortcut = refl

History-gates_example :
    all (was_in (security_checked ∷ sandbox_tested ∷ draft ∷ [])) (gates security_checked) ≡ true
History-gates_example =
    History-gates (security_checked ∷ sandbox_tested ∷ draft ∷ []) security_checked checked
