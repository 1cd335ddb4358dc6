-- ===== src/Iam/Others.antt =====
-- The user, property and service visas of the four passports.
use cellixjs.Base.{
  Bool, false, ◌&&◌, not, String, List, Option, none, some, ◌==◌, if◌then◌else◌, any, or_else,
  Error, plain_error,
}
use cellixjs.Iam.Permissions.{
  UserDomainPermissions, PropertyDomainPermissions, ServiceDomainPermissions, MemberReference,
  StaffUserReference, StaffRolePermissions, PropertyReference,
}
use cellixjs.Iam.Visas.{
  Visa, Passport, member_passport, staff_user_passport, guest_passport, system_passport, granted,
}

-- The root that a user visa is asked for, with the id that the visas compare.
pub data UserRoot : Type 0 where
  end_user_root : String → UserRoot
  staff_user_root : String → UserRoot
  staff_role_root : UserRoot
  vendor_user_root : UserRoot

-- MemberUserEndUserVisa, and the constant visas for the other three roots.
abbrev member_editing_own_account : MemberReference → UserRoot → Bool
member_editing_own_account member (end_user_root id) = any (λ u. u == id) member.account_user_ids
member_editing_own_account member (staff_user_root external_id) = false
member_editing_own_account member staff_role_root = false
member_editing_own_account member vendor_user_root = false

unfoldable pub member_user_permissions : MemberReference → UserRoot → UserDomainPermissions
member_user_permissions member root = record {
  can_manage_end_users = false;
  can_manage_staff_roles_and_permissions = false;
  can_manage_staff_users = false;
  can_manage_vendor_users = false;
  is_editing_own_account = member_editing_own_account member root;
  is_system_account = false;
}

-- StaffUserUserPassport.buildPermissions.
abbrev manages_staff_roles : Option StaffRolePermissions → Bool
manages_staff_roles none = false
manages_staff_roles (some role) = role.can_manage_staff_roles_and_permissions

abbrev staff_editing_own_account : StaffUserReference → UserRoot → Bool
staff_editing_own_account user (staff_user_root external_id) = external_id == user.external_id
staff_editing_own_account user (end_user_root id) = false
staff_editing_own_account user staff_role_root = false
staff_editing_own_account user vendor_user_root = false

unfoldable pub build_permissions : StaffUserReference → UserRoot → UserDomainPermissions
build_permissions user root = record {
  can_manage_end_users = false;
  can_manage_staff_roles_and_permissions = manages_staff_roles user.role;
  can_manage_staff_users = manages_staff_roles user.role;
  can_manage_vendor_users = false;
  is_editing_own_account = staff_editing_own_account user root;
  is_system_account = false;
}

unfoldable pub system_user_permissions : List (String × Bool) → UserDomainPermissions
system_user_permissions spec = record {
  can_manage_end_users = granted spec "canManageEndUsers";
  can_manage_staff_roles_and_permissions = granted spec "canManageStaffRolesAndPermissions";
  can_manage_staff_users = granted spec "canManageStaffUsers";
  can_manage_vendor_users = granted spec "canManageVendorUsers";
  is_editing_own_account = granted spec "isEditingOwnAccount";
  is_system_account = granted spec "isSystemAccount";
}

-- passport.user.forEndUser, forStaffUser, forStaffRole and forVendorUser.
unfoldable pub for_user : Passport → UserRoot → Visa UserDomainPermissions
for_user (member_passport user member community) root func =
    func (member_user_permissions member root)
for_user (staff_user_passport user) root func = func (build_permissions user root)
for_user guest_passport root func = false
for_user (system_passport spec) root func = func (system_user_permissions spec)

-- MemberPropertyVisa. An owner with an empty id is no owner.
abbrev is_owner : Option String → String → Bool
is_owner none id = false
is_owner (some owner) id = not (owner == "") && owner == id

unfoldable pub member_property_permissions :
    MemberReference → PropertyReference → PropertyDomainPermissions
member_property_permissions member root = record {
  can_manage_properties = or_else member.role.can_manage_properties false;
  can_edit_own_property = or_else member.role.can_edit_own_property false;
  is_editing_own_property = is_owner root.owner_id member.id;
  is_system_account = false;
}

unfoldable pub system_property_permissions : List (String × Bool) → PropertyDomainPermissions
system_property_permissions spec = record {
  can_manage_properties = granted spec "canManageProperties";
  can_edit_own_property = granted spec "canEditOwnProperty";
  is_editing_own_property = granted spec "isEditingOwnProperty";
  is_system_account = granted spec "isSystemAccount";
}

-- passport.property.forProperty(root).
unfoldable pub for_property : Passport → PropertyReference → Visa PropertyDomainPermissions
for_property (member_passport user member community) root func =
    if member.community_id == root.community_id
    then func (member_property_permissions member root)
    else false
for_property (staff_user_passport user) root func = false
for_property guest_passport root func = false
for_property (system_passport spec) root func = func (system_property_permissions spec)

-- What passport.service gives: a passport of services, or an exception.
pub data ServiceAccess : Type 0 where
  visa : Bool → ServiceAccess
  unavailable : Error → ServiceAccess

-- passport.service.forService({ community: { id } }).determineIf(func). The getter of a staff
-- user's passport throws.
unfoldable pub for_service : Passport → String → (ServiceDomainPermissions → Bool) → ServiceAccess
for_service (member_passport user member community) id func = visa (
    if member.community_id == id
    then func (record {
      can_manage_services = member.role.can_manage_services;
      is_system_account = false;
    })
    else false)
for_service (staff_user_passport user) id func =
    unavailable (plain_error "Service passport is not available for StaffUserPassport")
for_service guest_passport id func = visa false
for_service (system_passport spec) id func = visa (
    func (record {
      can_manage_services = granted spec "canManageServices";
      is_system_account = granted spec "isSystemAccount";
    }))
