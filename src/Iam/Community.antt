-- ===== src/Iam/Community.antt =====
-- The community visas: member.community.visa.ts, staff-user.community.visa.ts,
-- system.community.passport.ts and guest.community.passport.ts.
use cellixjs.Base.{Bool, true, false, String, List, none, some, ◌==◌, if◌then◌else◌}
use cellixjs.Iam.Permissions.{
  CommunityDomainPermissions, MemberReference, StaffUserReference, StaffRolePermissions,
}
use cellixjs.Iam.Visas.{
  Visa, Passport, member_passport, staff_user_passport, guest_passport, system_passport, granted,
}

-- MemberCommunityVisa: the permissions of the member's role.
unfoldable pub member_community_permissions : MemberReference → CommunityDomainPermissions
member_community_permissions member = record {
  can_manage_community_settings = member.role.can_manage_community_settings;
  can_create_communities = true;
  can_manage_members = member.role.can_manage_members;
  can_edit_own_member_profile = member.role.can_edit_own_member_profile;
  can_edit_own_member_accounts = member.role.can_edit_own_member_accounts;
  is_editing_own_member_account = false;
  can_manage_end_user_roles_and_permissions = member.role.can_manage_end_user_roles_and_permissions;
  can_manage_vendor_user_roles_and_permissions = false;
  can_manage_site_content = member.role.can_manage_site_content;
  is_system_account = false;
}

unfoldable pub member_community_visa : MemberReference → String → Visa CommunityDomainPermissions
member_community_visa member community_id func =
    if member.community_id == community_id
    then func (member_community_permissions member)
    else false

-- StaffUserCommunityVisa: one permission of the role stands for all but two.
unfoldable pub staff_community_permissions : StaffRolePermissions → CommunityDomainPermissions
staff_community_permissions role = record {
  can_manage_community_settings = role.can_manage_all_communities;
  can_create_communities = role.can_manage_all_communities;
  can_manage_members = role.can_manage_all_communities;
  can_edit_own_member_profile = role.can_manage_all_communities;
  can_edit_own_member_accounts = role.can_manage_all_communities;
  is_editing_own_member_account = false;
  can_manage_end_user_roles_and_permissions = role.can_manage_all_communities;
  can_manage_vendor_user_roles_and_permissions = role.can_manage_all_communities;
  can_manage_site_content = role.can_manage_all_communities;
  is_system_account = false;
}

unfoldable pub staff_community_visa : StaffUserReference → Visa CommunityDomainPermissions
staff_community_visa user func = elim user.role [
  | none ↦ false
  | some role ↦ func (staff_community_permissions role)
]

unfoldable pub system_community_permissions : List (String × Bool) → CommunityDomainPermissions
system_community_permissions spec = record {
  can_manage_community_settings = granted spec "canManageCommunitySettings";
  can_create_communities = granted spec "canCreateCommunities";
  can_manage_members = granted spec "canManageMembers";
  can_edit_own_member_profile = granted spec "canEditOwnMemberProfile";
  can_edit_own_member_accounts = granted spec "canEditOwnMemberAccounts";
  is_editing_own_member_account = granted spec "isEditingOwnMemberAccount";
  can_manage_end_user_roles_and_permissions = granted spec "canManageEndUserRolesAndPermissions";
  can_manage_vendor_user_roles_and_permissions =
      granted spec "canManageVendorUserRolesAndPermissions";
  can_manage_site_content = granted spec "canManageSiteContent";
  is_system_account = granted spec "isSystemAccount";
}

-- passport.community.forCommunity({ id: community_id }).
unfoldable pub for_community : Passport → String → Visa CommunityDomainPermissions
for_community (member_passport user member community) id func = member_community_visa member id func
for_community (staff_user_passport user) id func = staff_community_visa user func
for_community guest_passport id func = false
for_community (system_passport spec) id func = func (system_community_permissions spec)
