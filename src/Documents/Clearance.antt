-- ===== src/Documents/Clearance.antt =====
-- The role filter of `list_tenant_documents`, on the lists of roles that an upload stores.
use enterprise_multi_tenant.Base.{
  ◌≡◌, refl, ap, sym, ◌∙◌, true, false, ◌&&◌, ◌||◌, List, [], ◌∷◌, ◌++◌, some, any, map, arith,
}
use mathlib.Core.Path.{ap₂}
use mathlib.Core.Bool.{or_self}
use enterprise_multi_tenant.Documents.{Document, is_active}
use enterprise_multi_tenant.Text.{
  Text, text, text_eq, lower, lower_char, split_on, join, lstrip, rstrip,
}
use enterprise_multi_tenant.Role.{Role, role_name, same_role}
use enterprise_multi_tenant.Documents.Listing.{
  some_tail, like, grants, is_selected, string_to_array,
}

-- `",".join(roles_list)` of the ingestion pipeline.
abbrev pub stored_roles : List Role → Text
stored_roles roles = join (text ",") (map role_name roles)

any_tail : (s : Text) → some_tail (like []) s ≡ true
unfolding like
any_tail [] = refl
any_tail (c ∷ s) = ground (arith, any_tail s)

pattern_of : Role → Text
pattern_of r = text "%" ++ role_name r ++ text "%"

like-stored_analyst :
    (roles : List Role)
    → like (pattern_of Role.analyst) (lower (stored_roles roles))
      ≡ any (same_role Role.analyst) roles
unfolding like join lower_char pattern_of
like-stored_analyst [] = refl
like-stored_analyst (Role.admin ∷ []) = refl
like-stored_analyst (Role.analyst ∷ []) = refl
like-stored_analyst (Role.viewer ∷ []) = refl
like-stored_analyst (Role.admin ∷ r ∷ rs) = like-stored_analyst (r ∷ rs)
like-stored_analyst (Role.analyst ∷ r ∷ rs) = refl
like-stored_analyst (Role.viewer ∷ r ∷ rs) = like-stored_analyst (r ∷ rs)

like-stored_viewer :
    (roles : List Role)
    → like (pattern_of Role.viewer) (lower (stored_roles roles)) ≡ any (same_role Role.viewer) roles
unfolding like join lower_char pattern_of
like-stored_viewer [] = refl
like-stored_viewer (Role.admin ∷ []) = refl
like-stored_viewer (Role.analyst ∷ []) = refl
like-stored_viewer (Role.viewer ∷ []) = refl
like-stored_viewer (Role.admin ∷ r ∷ rs) = like-stored_viewer (r ∷ rs)
like-stored_viewer (Role.analyst ∷ r ∷ rs) = like-stored_viewer (r ∷ rs)
like-stored_viewer (Role.viewer ∷ r ∷ rs) = refl

same_name : (k r : Role) → text_eq (role_name k) (role_name r) ≡ same_role k r
unfolding text_eq
same_name Role.admin Role.admin = refl
same_name Role.admin Role.analyst = refl
same_name Role.admin Role.viewer = refl
same_name Role.analyst Role.admin = refl
same_name Role.analyst Role.analyst = refl
same_name Role.analyst Role.viewer = refl
same_name Role.viewer Role.admin = refl
same_name Role.viewer Role.analyst = refl
same_name Role.viewer Role.viewer = refl

split-role : (r : Role) → split_on b',' (role_name r) ≡ role_name r ∷ []
unfolding split_on
split-role Role.admin = refl
split-role Role.analyst = refl
split-role Role.viewer = refl

split-role_comma :
    (r : Role) (s : Text) → split_on b',' (role_name r ++ b',' ∷ s) ≡ role_name r ∷ split_on b',' s
unfolding split_on
split-role_comma Role.admin s = refl
split-role_comma Role.analyst s = refl
split-role_comma Role.viewer s = refl

split-nil : (k : Role) → any (text_eq (role_name k)) (split_on b',' []) ≡ false
unfolding split_on text_eq
split-nil Role.admin = refl
split-nil Role.analyst = refl
split-nil Role.viewer = refl

-- Cut at the commas, the stored text gives back the roles.
array-stored :
    (k : Role) (roles : List Role)
    → any (text_eq (role_name k)) (split_on b',' (stored_roles roles)) ≡ any (same_role k) roles
unfolding join
array-stored k [] = split-nil k
array-stored k (r ∷ []) = rw (split-role r, same_name k r)
array-stored k (r ∷ s ∷ rs) =
    ap (any (text_eq (role_name k))) (split-role_comma r (stored_roles (s ∷ rs)))
    ∙ ap₂ (λ a b. a || b) (same_name k r) (array-stored k (s ∷ rs))

string_to_array-any :
    (k : Role) (s : Text)
    → any (text_eq (role_name k)) (string_to_array s)
      ≡ any (text_eq (role_name k)) (split_on b',' s)
string_to_array-any k [] = sym (split-nil k)
string_to_array-any k (c ∷ s) = refl

-- The two tests of the query agree on stored role lists, and say that the role is listed: that one
-- is a test for a piece of text lets no other role in.
grants-stored :
    (k : Role) (roles : List Role)
    → same_role k Role.admin ≡ false
    → grants (role_name k) (stored_roles roles) ≡ any (same_role k) roles
unfolding grants lower_char pattern_of
grants-stored Role.admin roles h = cc
grants-stored Role.analyst roles h =
    ap₂ (λ a b. a || b)
      (string_to_array-any Role.analyst (stored_roles roles) ∙ array-stored Role.analyst roles)
      (like-stored_analyst roles)
    ∙ or_self (any (same_role Role.analyst) roles)
grants-stored Role.viewer roles h =
    ap₂ (λ a b. a || b)
      (string_to_array-any Role.viewer (stored_roles roles) ∙ array-stored Role.viewer roles)
      (like-stored_viewer roles)
    ∙ or_self (any (same_role Role.viewer) roles)

-- A document that was stored with a list of roles is listed for a caller exactly if it is an
-- active document of the caller's tenant and the caller is an administrator or has a listed role.
pub clearance_exact :
    (tenant : Text) (k : Role) (roles : List Role) (d : Document)
    → d.allowed_roles ≡ stored_roles roles
    → is_selected tenant (some (role_name k)) d
      ≡ (is_active tenant d && (same_role k Role.admin || any (same_role k) roles))
unfolding is_selected lower_char text_eq lstrip rstrip
clearance_exact tenant Role.admin roles d h = refl
clearance_exact tenant Role.analyst roles d h =
    ap (λ b. is_active tenant d && b)
      (ap (grants (role_name Role.analyst)) h ∙ grants-stored Role.analyst roles refl)
clearance_exact tenant Role.viewer roles d h =
    ap (λ b. is_active tenant d && b)
      (ap (grants (role_name Role.viewer)) h ∙ grants-stored Role.viewer roles refl)
