-- ===== src/Case/ViolationTicket/Refusal.antt =====
-- A violation ticket whose visa denies everything: the passport is a guest's, or a member's of
-- another community.
use cellixjs.Base.{false, String, ◌≡◌, ◌≢◌, arith, thrown, permission_error}
use cellixjs.ValueObjects.{ValueObjects}
use cellixjs.Iam.Permissions.{MemberReference}
use cellixjs.Iam.Visas.{Denies, Passport, member_passport, for_ticket}
use cellixjs.Iam.Facts.{foreign-Denies}
use cellixjs.Case.Parts.{system_or_manager}
use cellixjs.Case.ViolationTicket.State.{ViolationTicketV1, reference}
use cellixjs.Case.ViolationTicket.Methods.{
  may_update, may_add, may_transition, request_add_status_update, request_add_status_transition,
  request_delete, request_add_message, request_add_photo,
}
use cellixjs.Case.ViolationTicket.Setters.{
  may_edit, may_assign, may_prioritise, set_title, set_description, set_status, set_priority,
  set_community_id, set_property_id, set_assigned_to_id, set_service_id, set_ticket_type, set_hash,
  set_last_indexed, set_update_index_failed_date,
}
use cellixjs.Case.ViolationTicket.Commands.{
  Command, title_to, description_to, status_to, community_to, hash_to, priority_to, service_fee_to,
  property_to, assigned_to, service_to, ticket_type_to, last_indexed_to, index_failed_to,
  add_activity, add_status_update, add_status_transition, add_message, add_photo, delete_ticket,
  save_hook, perform,
}

-- The calls that make a test: all but the fee, which is set through the finance details,
-- `requestNewActivityDetail` and the hook that a repository calls.
abbrev pub Guarded : Command → Type 0
Guarded (service_fee_to n) = ⊥
Guarded (add_activity item by) = ⊥
Guarded (save_hook b) = ⊥
Guarded c = Unit {0}

-- The message of the PermissionError.
abbrev pub refusal : Command → String
refusal (title_to s) = "You do not have permission to change the title"
refusal (description_to s) = "You do not have permission to change the description"
refusal (status_to s) = "You do not have permission to change the status"
refusal (community_to s) = "You do not have permission to change the community"
refusal (hash_to s) = "You do not have permission to change the hash"
refusal (priority_to n) = "You do not have permission to change the priority"
refusal (property_to s) = "You do not have permission to change the property"
refusal (assigned_to s) = "You do not have permission to assign this violation ticket"
refusal (service_to s) = "You do not have permission to change the service"
refusal (ticket_type_to s) = "You do not have permission to change the ticket type"
refusal (last_indexed_to d) = "You do not have permission to change the last indexed date"
refusal (index_failed_to d) = "You do not have permission to change the update index failed date"
refusal (add_status_update item s by) = "You do not have permission to update this violation ticket"
refusal (add_status_transition item s d by) =
    "You do not have permission to change the status of this violation ticket or the status transition is invalid"
refusal (add_message item now m s e by) =
    "You do not have permission to add messages to this violation ticket"
refusal (add_photo item s d) = "You do not have permission to add photos to this violation ticket"
refusal delete_ticket = "You do not have permission to delete this violation ticket"
refusal c = ""

-- The call throws, and has changed nothing.
abbrev pub Refuses : ValueObjects → Passport → Command → ViolationTicketV1 → Type 0
Refuses vo passport c t = perform vo passport c t ≡ thrown (permission_error (refusal c)) t

module _ (vo : ValueObjects) (passport : Passport) (t : ViolationTicketV1)
    (denied : Denies (for_ticket passport (reference t))) (old : t.is_new ≡ false) where
  denied_Refuses : (c : Command) → Guarded c → Refuses vo passport c t
  unfolding perform set_title set_description set_status set_priority set_community_id
      set_property_id set_assigned_to_id set_service_id set_ticket_type set_hash set_last_indexed
      set_update_index_failed_date request_add_status_update request_add_status_transition
      request_add_message request_add_photo request_delete
  denied_Refuses (title_to s) h = ground (arith, denied may_edit)
  denied_Refuses (description_to s) h = ground (arith, denied may_edit)
  denied_Refuses (status_to s) h = ground (arith, denied (λ p. p.is_system_account))
  denied_Refuses (community_to s) h = ground arith
  denied_Refuses (hash_to s) h = ground (arith, denied may_update)
  denied_Refuses (priority_to n) h = ground (arith, denied may_prioritise)
  denied_Refuses (property_to s) h = ground (arith, denied may_edit)
  denied_Refuses (assigned_to s) h = ground (arith, denied may_assign)
  denied_Refuses (service_to s) h = ground (arith, denied may_edit)
  denied_Refuses (ticket_type_to s) h = ground (arith, denied system_or_manager)
  denied_Refuses (last_indexed_to d) h = ground (arith, denied may_update)
  denied_Refuses (index_failed_to d) h = ground (arith, denied may_update)
  denied_Refuses (add_status_update item s by) h = ground (arith, denied may_update)
  denied_Refuses (add_status_transition item s d by) h =
      ground (arith, denied (may_transition t.props.status s))
  denied_Refuses (add_message item now m s e by) h = ground (arith, denied may_add)
  denied_Refuses (add_photo item s d) h = ground (arith, denied may_add)
  denied_Refuses delete_ticket h = ground (arith, denied system_or_manager)
  denied_Refuses c h = absurd h

-- A member of another community can make none of the guarded calls on a violation ticket that
-- exists: each throws a PermissionError and changes nothing.
pub foreign_member_Refuses_violation :
    (vo : ValueObjects) (user : String) (member : MemberReference) (community : String)
    (t : ViolationTicketV1) (c : Command)
    → member.community_id ≢ t.props.community_id
    → t.is_new ≡ false
    → Guarded c
    → Refuses vo (member_passport user member community) c t
foreign_member_Refuses_violation vo user member community t c other old h =
    denied_Refuses vo (member_passport user member community) t
      (foreign-Denies user member community (reference t) other) old c h
