-- ===== src/Case/ServiceTicket/Refusal.antt =====
-- A service ticket whose visa denies everything: the passport is a guest's, or a member's of
-- another community.
use cellixjs.Base.{false, String, ◌≡◌, ◌≢◌, arith, thrown, permission_error}
use cellixjs.Iam.Permissions.{MemberReference}
use cellixjs.Iam.Visas.{Denies, Passport, guest_passport, member_passport, for_ticket}
use cellixjs.Iam.Facts.{foreign-Denies, guest-Denies}
use cellixjs.Case.Parts.{system_or_manager}
use cellixjs.Case.ServiceTicket.State.{ServiceTicketV1, reference}
use cellixjs.Case.ServiceTicket.Methods.{
  may_update, may_transition, request_add_status_update, request_add_status_transition,
  request_delete,
}
use cellixjs.Case.ServiceTicket.Setters.{
  may_edit_text, may_set_status, may_assign, may_set_service, set_title, set_description,
  set_status, set_priority, set_community_id, set_property_id, set_requestor_id, set_assigned_to_id,
  set_service_id,
}
use cellixjs.Case.ServiceTicket.Commands.{
  Command, title_to, description_to, status_to, community_to, requestor_to, assigned_to, service_to,
  priority_to, property_to, hash_to, last_indexed_to, index_failed_to, add_status_update,
  add_status_transition, add_activity, delete_ticket, save_hook, perform,
}

-- The calls that ask the visa: all but three setters, `requestNewActivityDetail` and the hook that
-- a repository calls.
abbrev pub Guarded : Command → Type 0
Guarded (hash_to s) = ⊥
Guarded (last_indexed_to d) = ⊥
Guarded (index_failed_to d) = ⊥
Guarded (add_activity item by) = ⊥
Guarded (save_hook b) = ⊥
Guarded c = Unit {0}

-- The message of the PermissionError.
abbrev pub refusal : Command → String
refusal (title_to s) = "You do not have permission to update this service ticket"
refusal (description_to s) = "You do not have permission to update this service ticket"
refusal (status_to s) = "You do not have permission to change the status of this service ticket"
refusal (community_to s) =
    "You do not have permission to change the community of this service ticket"
refusal (requestor_to s) =
    "You do not have permission to change the requestor of this service ticket"
refusal (property_to s) = "You do not have permission to change the property of this service ticket"
refusal (assigned_to s) = "You do not have permission to assign this service ticket"
refusal (priority_to s) = "You do not have permission to change the priority of this service ticket"
refusal (service_to s) = "You do not have permission to change the service of this service ticket"
refusal (add_status_update item s by) = "You do not have permission to update this service ticket"
refusal (add_status_transition item s d by) =
    "You do not have permission to change the status of this service ticket or the status transition is invalid"
refusal delete_ticket = "You do not have permission to delete this property"
refusal c = ""

-- The call throws, and has changed nothing.
abbrev pub Refuses : Passport → Command → ServiceTicketV1 → Type 0
Refuses passport c t = perform passport c t ≡ thrown (permission_error (refusal c)) t

module _ (passport : Passport) (t : ServiceTicketV1)
    (denied : Denies (for_ticket passport (reference t))) (old : t.is_new ≡ false)
    (kept : t.root.is_deleted ≡ false) where
  denied_Refuses : (c : Command) → Guarded c → Refuses passport c t
  unfolding perform set_title set_description set_status set_priority set_community_id
      set_property_id set_requestor_id set_assigned_to_id set_service_id request_add_status_update
      request_add_status_transition request_delete
  denied_Refuses (title_to s) h = ground (arith, denied may_edit_text)
  denied_Refuses (description_to s) h = ground (arith, denied may_edit_text)
  denied_Refuses (status_to s) h = ground (arith, denied may_set_status)
  denied_Refuses (community_to s) h = ground (arith, denied system_or_manager)
  denied_Refuses (requestor_to s) h = ground (arith, denied system_or_manager)
  denied_Refuses (property_to s) h = ground (arith, denied system_or_manager)
  denied_Refuses (assigned_to s) h = ground (arith, denied may_assign)
  denied_Refuses (priority_to s) h = ground (arith, denied may_assign)
  denied_Refuses (service_to s) h = ground (arith, denied may_set_service)
  denied_Refuses (add_status_update item s by) h = ground (arith, denied may_update)
  denied_Refuses (add_status_transition item s d by) h =
      ground (arith, denied (may_transition t.props.status s))
  denied_Refuses delete_ticket h = ground (arith, denied system_or_manager)
  denied_Refuses c h = absurd h

-- A member of another community can make none of the guarded calls on a service ticket that exists
-- and is not deleted: each throws a PermissionError and changes nothing.
pub foreign_member_Refuses :
    (user : String) (member : MemberReference) (community : String) (t : ServiceTicketV1)
    (c : Command)
    → member.community_id ≢ t.props.community_id
    → t.is_new ≡ false
    → t.root.is_deleted ≡ false
    → Guarded c
    → Refuses (member_passport user member community) c t
foreign_member_Refuses user member community t c other old kept h =
    denied_Refuses (member_passport user member community) t
      (foreign-Denies user member community (reference t) other) old kept c h

-- Nor can a guest.
pub guest_Refuses :
    (t : ServiceTicketV1) (c : Command)
    → t.is_new ≡ false
    → t.root.is_deleted ≡ false
    → Guarded c
    → Refuses guest_passport c t
guest_Refuses t c old kept h =
    denied_Refuses guest_passport t (guest-Denies (reference t)) old kept c h
