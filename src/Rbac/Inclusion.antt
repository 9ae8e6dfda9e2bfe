-- ===== src/Rbac/Inclusion.antt =====
-- Higher roles include the permissions of lower ones.
use hire_ai.Prelude.{
  ℕ, ◌≤◌, String, ◌≡◌, refl, inl, inr, Bool, true, false, ◌||◌, List, [], ◌∷◌, ◌++◌, any, arith,
  Bool-cases,
}
use hire_ai.Rbac.{
  OrganizationRole, owner, admin, sales, viewer, ResourcePermission, get_permissions, is_granted,
  check_permission, member_permissions, sales_permissions, admin_permissions,
}

-- The order of the roles.
abbrev pub rank : OrganizationRole → ℕ
rank viewer = 0
rank sales = 1
rank admin = 2
rank owner = 3

any-append :
    (p : ResourcePermission → Bool) (xs ys : List ResourcePermission)
    → any p xs ≡ true
    → any p (xs ++ ys) ≡ true
any-append p [] ys h = cc (h)
any-append p (x ∷ xs) ys h = elim (Bool-cases (p x)) [
  | inl hit ↦ rw hit refl
  | inr miss ↦ rw miss (any-append p xs ys (rw miss at h))
]

-- The check, on a list of permissions.
abbrev checks : String → String → List ResourcePermission → Bool
checks resource action perms = is_granted resource action perms || is_granted resource "*" perms

or_mono :
    (a b c d : Bool)
    → (a ≡ true → c ≡ true)
    → (b ≡ true → d ≡ true)
    → (a || b) ≡ true
    → (c || d) ≡ true
or_mono true b c d f g h = rw (f refl) refl
or_mono false b true d f g h = refl
or_mono false b false d f g h = g h

module _ (resource action : String) where
  checks-append :
      (xs ys : List ResourcePermission)
      → checks resource action xs ≡ true
      → checks resource action (xs ++ ys) ≡ true
  unfolding is_granted
  checks-append xs ys h =
      or_mono (is_granted resource action xs) (is_granted resource "*" xs)
        (is_granted resource action (xs ++ ys)) (is_granted resource "*" (xs ++ ys))
        (any-append _ xs ys) (any-append _ xs ys) h

  viewer_to_sales :
      check_permission viewer resource action ≡ true → check_permission sales resource action ≡ true
  unfolding check_permission get_permissions
  viewer_to_sales h = checks-append member_permissions _ h

  sales_to_admin :
      check_permission sales resource action ≡ true → check_permission admin resource action ≡ true
  unfolding check_permission get_permissions
  sales_to_admin h = checks-append sales_permissions _ h

  admin_to_owner :
      check_permission admin resource action ≡ true → check_permission owner resource action ≡ true
  unfolding check_permission get_permissions
  admin_to_owner h = checks-append admin_permissions _ h

-- What a role may do, every higher role may do: VIEWER, SALES, ADMIN and OWNER each include the one before.
pub check_permission_mono :
    (low high : OrganizationRole) (resource action : String)
    → rank low ≤ rank high
    → check_permission low resource action ≡ true
    → check_permission high resource action ≡ true
check_permission_mono viewer viewer resource action le h = h
check_permission_mono viewer sales resource action le h = viewer_to_sales resource action h
check_permission_mono viewer admin resource action le h =
    sales_to_admin resource action (viewer_to_sales resource action h)
check_permission_mono viewer owner resource action le h =
    admin_to_owner resource action
      (sales_to_admin resource action (viewer_to_sales resource action h))
check_permission_mono sales viewer resource action le h = absurd (omega (arith, le))
check_permission_mono sales sales resource action le h = h
check_permission_mono sales admin resource action le h = sales_to_admin resource action h
check_permission_mono sales owner resource action le h =
    admin_to_owner resource action (sales_to_admin resource action h)
check_permission_mono admin viewer resource action le h = absurd (omega (arith, le))
check_permission_mono admin sales resource action le h = absurd (omega (arith, le))
check_permission_mono admin admin resource action le h = h
check_permission_mono admin owner resource action le h = admin_to_owner resource action h
check_permission_mono owner viewer resource action le h = absurd (omega (arith, le))
check_permission_mono owner sales resource action le h = absurd (omega (arith, le))
check_permission_mono owner admin resource action le h = absurd (omega (arith, le))
check_permission_mono owner owner resource action le h = h
