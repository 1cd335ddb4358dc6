-- ===== src/Samples.antt =====
-- Concrete values that the tests and the examples of the theorems use: value objects that check
-- lengths and members and trim nothing, a member, a staff user and system permissions.
use Prim.Native.String.{count}
use cellixjs.Base.{
  ℕ, ◌≤◌, Bool, true, false, ◌&&◌, String, List, [], ◌∷◌, ◌≡◌, refl, arith, Option, none, some, leb,
  if◌then◌else◌, includes,
}
use cellixjs.ValueObjects.{StringRule, ValueObjects, ValueObjectLaws, LongEnough}
use cellixjs.Iam.Permissions.{EndUserRolePermissions, MemberReference, StaffRolePermissions}
use cellixjs.Iam.Visas.{Passport, member_passport, staff_user_passport, system_passport}

abbrev long_enough : Option ℕ → ℕ → Bool
long_enough none n = true
long_enough (some least) n = leb least n

abbrev pub checked_values : ValueObjects
checked_values = record {
  text_length = count;
  vo_string = λ rule raw.
      if long_enough rule.min_length (count raw) && leb (count raw) rule.max_length
      then some raw
      else none;
  vo_set = λ members raw. if includes members raw then some raw else none;
  vo_integer = λ least most raw. if leb least raw && leb raw most then some raw else none;
}

string_bounds :
    (rule : StringRule) (raw value : String)
    → checked_values.vo_string rule raw ≡ some value
    → LongEnough rule.min_length (count value) × (count value ≤ rule.max_length)
string_bounds rule raw value h = go rule.min_length rule.max_length h
  where
    go :
        (least : Option ℕ) (most : ℕ)
        → (if long_enough least (count raw) && leb (count raw) most then some raw else none)
          ≡ some value
        → LongEnough least (count value) × (count value ≤ most)
    go none most e = ground arith
    go (some least) most e = ground arith

pub checked_values_laws : ValueObjectLaws checked_values
checked_values_laws = record {
  string_bounds = string_bounds;
  set_members = λ members raw. refl;
  integer_range = λ least most raw p q. ground arith;
  integer_bounds = λ least most raw value e. ground arith;
}

abbrev pub sample_role : EndUserRolePermissions
sample_role = record {
  can_manage_community_settings = false;
  can_manage_members = true;
  can_edit_own_member_profile = true;
  can_edit_own_member_accounts = true;
  can_manage_end_user_roles_and_permissions = false;
  can_manage_site_content = false;
  can_manage_services = false;
  can_manage_properties = some false;
  can_edit_own_property = none;
}

abbrev pub sample_member : MemberReference
sample_member = record {
  id = "m1";
  community_id = "c1";
  account_user_ids = "u1" ∷ [];
  role = sample_role;
}

abbrev pub sample_member_passport : Passport
sample_member_passport = member_passport "u1" sample_member "c1"

abbrev pub sample_staff_role : StaffRolePermissions
sample_staff_role = record {
  can_manage_all_communities = true;
  can_manage_staff_roles_and_permissions = false;
}

abbrev pub sample_staff_passport : Passport
sample_staff_passport =
    staff_user_passport (record { external_id = "s1"; role = some sample_staff_role })

abbrev pub system_rights : List (String × Bool)
system_rights = ("isSystemAccount", true) ∷ []

abbrev pub sample_system_passport : Passport
sample_system_passport = system_passport system_rights
