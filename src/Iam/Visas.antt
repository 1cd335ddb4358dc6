-- ===== src/Iam/Visas.antt =====
-- packages/ocom/domain/src/domain/iam and contexts/passport.ts: who issues which visa. The lazy
-- caches of the passports are left out: each visa is computed from the same fields every time.
use cellixjs.Base.{
  Bool, true, false, String, List, ◌≡◌, Option, none, some, ◌==◌, if◌then◌else◌, any, lookup,
  or_else, is_text,
}
use cellixjs.Iam.Permissions.{
  CaseDomainPermissions, MemberReference, StaffUserReference, TicketReference,
}

-- determineIf(func).
abbrev pub Visa : Type 0 → Type 0
Visa P = (P → Bool) → Bool

abbrev pub Denies : {P : Type 0} → Visa P → Type 0
Denies {P} visa = (func : P → Bool) → visa func ≡ false

-- The four passports. A member passport holds the user's id and the community's id beside the
-- member; a system passport holds the permissions that it was given, by name.
pub data Passport : Type 0 where
  member_passport : String → MemberReference → String → Passport
  staff_user_passport : StaffUserReference → Passport
  guest_passport : Passport
  system_passport : List (String × Bool) → Passport

-- MemberPassportBase's constructor: the user must own an account of the member, and the member must
-- belong to the community. `none` where it throws.
unfoldable pub member_passport_base : String → MemberReference → String → Option Passport
member_passport_base user_id member community_id =
    if any (λ id. id == user_id) member.account_user_ids
    then (if member.community_id == community_id
        then some (member_passport user_id member community_id)
        else none)
    else none

-- A missing permission of a system passport is undefined, which is falsy.
abbrev pub granted : List (String × Bool) → String → Bool
granted spec name = or_else (lookup name spec) false

-- MemberServiceTicketVisa and MemberViolationTicketVisa, which are alike.
unfoldable pub member_case_permissions : MemberReference → TicketReference → CaseDomainPermissions
member_case_permissions member root = record {
  can_create_tickets = true;
  can_manage_tickets = false;
  can_assign_tickets = false;
  can_work_on_tickets = false;
  is_editing_own_ticket = root.requestor_id == member.id;
  is_editing_assigned_ticket = is_text root.assigned_to_id member.id;
  is_system_account = false;
}

unfoldable pub member_case_visa : MemberReference → TicketReference → Visa CaseDomainPermissions
member_case_visa member root func =
    if member.community_id == root.community_id
    then func (member_case_permissions member root)
    else false

-- StaffUserServiceTicketVisa and StaffUserViolationTicketVisa.
unfoldable pub staff_case_permissions : CaseDomainPermissions
staff_case_permissions = record {
  can_create_tickets = true;
  can_manage_tickets = true;
  can_assign_tickets = true;
  can_work_on_tickets = true;
  is_editing_own_ticket = false;
  is_editing_assigned_ticket = false;
  is_system_account = false;
}

unfoldable pub system_case_permissions : List (String × Bool) → CaseDomainPermissions
system_case_permissions spec = record {
  can_create_tickets = granted spec "canCreateTickets";
  can_manage_tickets = granted spec "canManageTickets";
  can_assign_tickets = granted spec "canAssignTickets";
  can_work_on_tickets = granted spec "canWorkOnTickets";
  is_editing_own_ticket = granted spec "isEditingOwnTicket";
  is_editing_assigned_ticket = granted spec "isEditingAssignedTicket";
  is_system_account = granted spec "isSystemAccount";
}

-- passport.case.forServiceTicketV1(root) and forViolationTicketV1(root).
unfoldable pub for_ticket : Passport → TicketReference → Visa CaseDomainPermissions
unfolding member_case_visa member_case_permissions staff_case_permissions system_case_permissions
for_ticket (member_passport user member community) root func = member_case_visa member root func
for_ticket (staff_user_passport user) root func = func staff_case_permissions
for_ticket guest_passport root func = false
for_ticket (system_passport spec) root func = func (system_case_permissions spec)
