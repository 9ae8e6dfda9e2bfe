-- ===== src/Lifecycle.antt =====
-- marketplace/lifecycle_manager.py: the statuses of agent packages and of their installations.
mod Tests
pub mod Gates
use hire_ai.Prelude.{ℕ, Bool, List, [], ◌∷◌, any, ◌==◌}

-- `AgentLifecycleStatus` of models/enums.py
pub data PackageStatus : Type 0 where
  draft sandbox_tested security_checked governance_checked published : PackageStatus
  installed enabled disabled archived : PackageStatus

-- `AgentInstallationStatus` of models/enums.py
pub data InstallationStatus : Type 0 where
  pending set_up verified active failed uninstalled : InstallationStatus

abbrev pub package_code : PackageStatus → ℕ
package_code draft = 0
package_code sandbox_tested = 1
package_code security_checked = 2
package_code governance_checked = 3
package_code published = 4
package_code installed = 5
package_code enabled = 6
package_code disabled = 7
package_code archived = 8

abbrev pub same_package : PackageStatus → PackageStatus → Bool
same_package a b = package_code a == package_code b

abbrev pub installation_code : InstallationStatus → ℕ
installation_code pending = 0
installation_code set_up = 1
installation_code verified = 2
installation_code active = 3
installation_code failed = 4
installation_code uninstalled = 5

-- `VALID_PACKAGE_TRANSITIONS`
abbrev pub valid_package_transitions : PackageStatus → List PackageStatus
valid_package_transitions draft = sandbox_tested ∷ archived ∷ []
valid_package_transitions sandbox_tested = security_checked ∷ archived ∷ []
valid_package_transitions security_checked = governance_checked ∷ archived ∷ []
valid_package_transitions governance_checked = published ∷ archived ∷ []
valid_package_transitions published = installed ∷ archived ∷ []
valid_package_transitions installed = enabled ∷ disabled ∷ archived ∷ []
valid_package_transitions enabled = disabled ∷ archived ∷ []
valid_package_transitions disabled = enabled ∷ archived ∷ []
valid_package_transitions archived = []

-- `VALID_INSTALLATION_TRANSITIONS`
abbrev pub valid_installation_transitions : InstallationStatus → List InstallationStatus
valid_installation_transitions pending = set_up ∷ failed ∷ []
valid_installation_transitions set_up = verified ∷ failed ∷ []
valid_installation_transitions verified = active ∷ failed ∷ []
valid_installation_transitions active = uninstalled ∷ failed ∷ []
valid_installation_transitions failed = pending ∷ uninstalled ∷ []
valid_installation_transitions uninstalled = []

-- `can_transition_package`
unfoldable pub can_transition_package : PackageStatus → PackageStatus → Bool
can_transition_package current target =
    any (λ s. same_package s target) (valid_package_transitions current)

-- `can_transition_installation`
unfoldable pub can_transition_installation : InstallationStatus → InstallationStatus → Bool
can_transition_installation current target =
    any (λ s. installation_code s == installation_code target)
      (valid_installation_transitions current)
