-- ===== src/Rbac/Tests.antt =====
-- The inclusion of roles at one permission.
use hire_ai.Prelude.{◌≡◌, refl, true, false, arith}
use hire_ai.Rbac.{sales, viewer, owner, get_permissions, is_granted, check_permission}
use hire_ai.Rbac.Inclusion.{check_permission_mono}

sales_creates : check_permission sales "Lead" "create" ≡ true
unfolding check_permission get_permissions is_granted
sales_creates = refl

viewer_refused : check_permission viewer "Lead" "create" ≡ false
unfolding check_permission get_permissions is_granted
viewer_refused = refl

check_permission_mono_example : check_permission owner "Lead" "create" ≡ true
check_permission_mono_example =
    check_permission_mono sales owner "Lead" "create" (omega arith) sales_creates
