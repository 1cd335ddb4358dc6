-- ===== src/Iam/Permissions.antt =====
-- The permission records of packages/ocom/domain/src/domain/contexts (*.domain-permissions.ts) and
-- the references to users, members and roots, with the fields that the visas read.
use cellixjs.Base.{Bool, String, List, Option}

pub record CaseDomainPermissions : Type 0 where
  pub can_create_tickets : Bool
  pub can_manage_tickets : Bool
  pub can_assign_tickets : Bool
  pub can_work_on_tickets : Bool
  pub is_editing_own_ticket : Bool
  pub is_editing_assigned_ticket : Bool
  pub is_system_account : Bool

pub record CommunityDomainPermissions : Type 0 where
  pub can_manage_community_settings : Bool
  pub can_create_communities : Bool
  pub can_manage_members : Bool
  pub can_edit_own_member_profile : Bool
  pub can_edit_own_member_accounts : Bool
  pub is_editing_own_member_account : Bool
  pub can_manage_end_user_roles_and_permissions : Bool
  pub can_manage_vendor_user_roles_and_permissions : Bool
  pub can_manage_site_content : Bool
  pub is_system_account : Bool

pub record UserDomainPermissions : Type 0 where
  pub can_manage_end_users : Bool
  pub can_manage_staff_roles_and_permissions : Bool
  pub can_manage_staff_users : Bool
  pub can_manage_vendor_users : Bool
  pub is_editing_own_account : Bool
  pub is_system_account : Bool

pub record PropertyDomainPermissions : Type 0 where
  pub can_manage_properties : Bool
  pub can_edit_own_property : Bool
  pub is_editing_own_property : Bool
  pub is_system_account : Bool

pub record ServiceDomainPermissions : Type 0 where
  pub can_manage_services : Bool
  pub is_system_account : Bool

-- The permissions of an end-user role that the member visas read.
pub record EndUserRolePermissions : Type 0 where
  pub can_manage_community_settings : Bool
  pub can_manage_members : Bool
  pub can_edit_own_member_profile : Bool
  pub can_edit_own_member_accounts : Bool
  pub can_manage_end_user_roles_and_permissions : Bool
  pub can_manage_site_content : Bool
  pub can_manage_services : Bool
  pub can_manage_properties : Option Bool
  pub can_edit_own_property : Option Bool

-- A member of a community. `account_user_ids` are the ids of the users of its accounts.
pub record MemberReference : Type 0 where
  pub id : String
  pub community_id : String
  pub account_user_ids : List String
  pub role : EndUserRolePermissions

-- The community permissions of a staff role that the staff visas read.
pub record StaffRolePermissions : Type 0 where
  pub can_manage_all_communities : Bool
  pub can_manage_staff_roles_and_permissions : Bool

pub record StaffUserReference : Type 0 where
  pub external_id : String
  pub role : Option StaffRolePermissions

-- What the case visas read of a ticket.
pub record TicketReference : Type 0 where
  pub community_id : String
  pub requestor_id : String
  pub assigned_to_id : Option String

-- What the property visa reads of a property.
pub record PropertyReference : Type 0 where
  pub community_id : String
  pub owner_id : Option String
