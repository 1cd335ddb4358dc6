-- ===== src/Case/ViolationTicket/Setters.antt =====
-- violation-ticket-v1.aggregate.ts, the setters.
use cellixjs.Base.{
  ℕ, Bool, ◌||◌, String, Option, Exec, guard, permission_error, ◌>>=◌, ◌>>◌, construct,
}
use cellixjs.ValueObjects.{ValueObjects}
use cellixjs.Iam.Permissions.{CaseDomainPermissions}
use cellixjs.Iam.Visas.{Passport}
use cellixjs.Case.Parts.{edits_own, system_or_manager}
use cellixjs.Case.ViolationTicket.State.{
  ViolationTicketV1, status_codes, title_rule, description_rule, new_or_permitted, change_props,
}
use cellixjs.Case.ViolationTicket.Methods.{may_update}

abbrev pub may_edit : CaseDomainPermissions → Bool
may_edit p = p.is_system_account || p.can_manage_tickets || edits_own p

abbrev pub may_assign : CaseDomainPermissions → Bool
may_assign p = p.is_system_account || p.can_assign_tickets

abbrev pub may_prioritise : CaseDomainPermissions → Bool
may_prioritise p = p.is_system_account || edits_own p || p.can_manage_tickets

-- The community and the requestor are set while the ticket is new.
unfoldable pub set_community_id : String → Exec ViolationTicketV1 (Unit {0})
set_community_id value = do
  guard (λ t. t.is_new) (permission_error "You do not have permission to change the community")
  change_props (λ p. record p { community_id = value })

unfoldable pub set_requestor_id : String → Exec ViolationTicketV1 (Unit {0})
set_requestor_id value = do
  guard (λ t. t.is_new) (permission_error "You do not have permission to change the requestor")
  change_props (λ p. record p { requestor_id = value })

-- financeDetails.serviceFee = value, through the getter of financeDetails: no test.
unfoldable pub set_service_fee : ℕ → Exec ViolationTicketV1 (Unit {0})
set_service_fee value =
    change_props
      (λ p. record p { finance_details = record p.finance_details { service_fee = value } })

module _ (passport : Passport) where
  unfoldable pub set_property_id : Option String → Exec ViolationTicketV1 (Unit {0})
  set_property_id value = do
    new_or_permitted passport may_edit "You do not have permission to change the property"
    change_props (λ p. record p { property_id = value })

  unfoldable pub set_assigned_to_id : Option String → Exec ViolationTicketV1 (Unit {0})
  set_assigned_to_id value = do
    new_or_permitted passport may_assign
        "You do not have permission to assign this violation ticket"
    change_props (λ p. record p { assigned_to_id = value })

  unfoldable pub set_service_id : Option String → Exec ViolationTicketV1 (Unit {0})
  set_service_id value = do
    new_or_permitted passport may_edit "You do not have permission to change the service"
    change_props (λ p. record p { service_id = value })

  unfoldable pub set_ticket_type : Option String → Exec ViolationTicketV1 (Unit {0})
  set_ticket_type value = do
    new_or_permitted passport system_or_manager
        "You do not have permission to change the ticket type"
    change_props (λ p. record p { ticket_type = value })

  unfoldable pub set_hash : String → Exec ViolationTicketV1 (Unit {0})
  set_hash value = do
    new_or_permitted passport may_update "You do not have permission to change the hash"
    change_props (λ p. record p { hash = value })

  unfoldable pub set_last_indexed : Option ℕ → Exec ViolationTicketV1 (Unit {0})
  set_last_indexed value = do
    new_or_permitted passport may_update
        "You do not have permission to change the last indexed date"
    change_props (λ p. record p { last_indexed = value })

  unfoldable pub set_update_index_failed_date : Option ℕ → Exec ViolationTicketV1 (Unit {0})
  set_update_index_failed_date value = do
    new_or_permitted passport may_update
        "You do not have permission to change the update index failed date"
    change_props (λ p. record p { update_index_failed_date = value })

module _ (vo : ValueObjects) (passport : Passport) where
  unfoldable pub set_title : String → Exec ViolationTicketV1 (Unit {0})
  set_title value = do
    new_or_permitted passport may_edit "You do not have permission to change the title"
    title ← construct (vo.vo_string title_rule value)
    change_props (λ p. record p { title = title })

  unfoldable pub set_description : String → Exec ViolationTicketV1 (Unit {0})
  set_description value = do
    new_or_permitted passport may_edit "You do not have permission to change the description"
    description ← construct (vo.vo_string description_rule value)
    change_props (λ p. record p { description = description })

  unfoldable pub set_status : String → Exec ViolationTicketV1 (Unit {0})
  set_status value = do
    new_or_permitted passport (λ p. p.is_system_account)
        "You do not have permission to change the status"
    status ← construct (vo.vo_set status_codes value)
    change_props (λ p. record p { status = status })

  unfoldable pub set_priority : ℕ → Exec ViolationTicketV1 (Unit {0})
  set_priority value = do
    new_or_permitted passport may_prioritise "You do not have permission to change the priority"
    priority ← construct (vo.vo_integer 1 5 value)
    change_props (λ p. record p { priority = priority })
