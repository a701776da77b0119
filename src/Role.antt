-- ===== src/Role.antt =====
-- The roles that the platform knows: the pattern `^(admin|analyst|viewer)$` of app/core/auth.py
-- and app/api/routes.py, and the set that an upload may name.
use enterprise_multi_tenant.Base.{
  ◌≡◌, refl, Bool, true, false, List, [], ◌∷◌, arith, inl, inr, Bool-cases,
}
use enterprise_multi_tenant.Text.{Text, text, text_eq, text_eq_iff, is_one_of, is_empty}

pub data Role : Type 0 where
  admin analyst viewer : Role

abbrev pub role_name : Role → Text
role_name Role.admin = text "admin"
role_name Role.analyst = text "analyst"
role_name Role.viewer = text "viewer"

abbrev pub role_names : List Text
role_names = text "admin" ∷ text "analyst" ∷ text "viewer" ∷ []

abbrev pub is_role : Text → Bool
is_role r = is_one_of r role_names

abbrev pub same_role : Role → Role → Bool
same_role Role.admin Role.admin = true
same_role Role.analyst Role.analyst = true
same_role Role.viewer Role.viewer = true
same_role _ _ = false

-- A text that passes the test is the name of a role.
pub is_role-name : (r : Text) → is_role r ≡ true → (k : Role) × (r ≡ role_name k)
is_role-name r h = elim (Bool-cases (text_eq r (text "admin"))) [
  | inl a ↦ (Role.admin, (text_eq_iff r (text "admin")).0 a)
  | inr na ↦ elim (Bool-cases (text_eq r (text "analyst"))) [
    | inl b ↦ (Role.analyst, (text_eq_iff r (text "analyst")).0 b)
    | inr nb ↦ (Role.viewer, (text_eq_iff r (text "viewer")).0 (ground arith))
  ]
]

pub is_role-ne-empty : (r : Text) → is_role r ≡ true → is_empty r ≡ false
unfolding text_eq
is_role-ne-empty [] h = cc
is_role-ne-empty (c ∷ r) h = refl
