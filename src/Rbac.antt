-- ===== src/Rbac.antt =====
-- security/rbac_engine.py: the permissions of the roles, and the check of one.
mod Tests
pub mod Inclusion
use hire_ai.Prelude.{String, Bool, ◌&&◌, ◌||◌, List, [], ◌∷◌, ◌++◌, any, str_eq}

-- `OrganizationRole` of models/enums.py
pub data OrganizationRole : Type 0 where
  owner admin sales viewer : OrganizationRole

pub record ResourcePermission : Type 0 where
  pub resource_type : String
  pub action : String

-- `_p`
abbrev pub permission : String → String → ResourcePermission
permission resource action = record { resource_type = resource; action = action }

abbrev pub member_permissions : List ResourcePermission
member_permissions =
    permission "Lead" "read"
    ∷ permission "Task" "read"
    ∷ permission "Workflow" "read"
    ∷ permission "AuditLog" "read"
    ∷ []

abbrev pub sales_permissions : List ResourcePermission
sales_permissions =
    member_permissions
    ++ (permission "Lead" "create"
        ∷ permission "Lead" "update"
        ∷ permission "Task" "create"
        ∷ permission "Task" "update"
        ∷ permission "Communication" "create"
        ∷ permission "AIJob" "create"
        ∷ permission "AIJob" "read"
        ∷ [])

abbrev pub admin_permissions : List ResourcePermission
admin_permissions =
    sales_permissions
    ++ (permission "Lead" "delete"
        ∷ permission "Task" "delete"
        ∷ permission "Workflow" "create"
        ∷ permission "Workflow" "update"
        ∷ permission "Workflow" "delete"
        ∷ permission "APIKey" "create"
        ∷ permission "APIKey" "read"
        ∷ permission "APIKey" "revoke"
        ∷ permission "SecurityPolicy" "read"
        ∷ permission "SecurityPolicy" "update"
        ∷ permission "PIIIncident" "read"
        ∷ permission "SecretReference" "create"
        ∷ permission "SecretReference" "read"
        ∷ [])

abbrev pub owner_permissions : List ResourcePermission
owner_permissions =
    admin_permissions
    ++ (permission "APIKey" "rotate"
        ∷ permission "APIKey" "delete"
        ∷ permission "SecurityPolicy" "create"
        ∷ permission "SecurityPolicy" "delete"
        ∷ permission "SecretReference" "delete"
        ∷ permission "Organization" "update"
        ∷ permission "Organization" "delete"
        ∷ permission "OrganizationMember" "invite"
        ∷ permission "OrganizationMember" "remove"
        ∷ permission "OrganizationMember" "update_role"
        ∷ [])

-- `get_permissions`, by `ROLE_PERMISSION_MAP`
unfoldable pub get_permissions : OrganizationRole → List ResourcePermission
get_permissions owner = owner_permissions
get_permissions admin = admin_permissions
get_permissions sales = sales_permissions
get_permissions viewer = member_permissions

-- `target in perms`; permissions are equal by their two strings.
unfoldable pub is_granted : String → String → List ResourcePermission → Bool
is_granted resource action perms =
    any (λ p. str_eq p.resource_type resource && str_eq p.action action) perms

-- `check_permission`: the exact permission, or the wildcard action on the resource.
unfoldable pub check_permission : OrganizationRole → String → String → Bool
check_permission role resource action =
    is_granted resource action (get_permissions role)
    || is_granted resource "*" (get_permissions role)
