-- ===== src/Case/ServiceTicket/Setters.antt =====
-- service-ticket-v1.aggregate.ts, the setters. A value object is given by its valueOf().
use cellixjs.Base.{ℕ, Bool, ◌||◌, String, Option, some, Exec, guard, permission_error, ◌>>◌}
use cellixjs.Iam.Permissions.{CaseDomainPermissions}
use cellixjs.Iam.Visas.{Passport}
use cellixjs.Case.Parts.{edits_own, works_on_assigned, system_or_manager}
use cellixjs.Case.ServiceTicket.State.{
  ServiceTicketV1, determine_if, new_or_permitted, change_props,
}

abbrev pub may_edit_text : CaseDomainPermissions → Bool
may_edit_text p = p.is_system_account || p.can_manage_tickets || edits_own p || works_on_assigned p

abbrev pub may_set_status : CaseDomainPermissions → Bool
may_set_status p =
    p.is_system_account || p.can_manage_tickets || p.can_assign_tickets || works_on_assigned p

abbrev pub may_assign : CaseDomainPermissions → Bool
may_assign p = p.is_system_account || p.can_manage_tickets || p.can_assign_tickets

abbrev pub may_set_service : CaseDomainPermissions → Bool
may_set_service p = p.is_system_account || p.can_manage_tickets || works_on_assigned p

module _ (passport : Passport) where
  unfoldable pub set_title : String → Exec ServiceTicketV1 (Unit {0})
  set_title title = do
    new_or_permitted passport may_edit_text
        "You do not have permission to update this service ticket"
    change_props (λ p. record p { title = title })

  unfoldable pub set_description : String → Exec ServiceTicketV1 (Unit {0})
  set_description description = do
    new_or_permitted passport may_edit_text
        "You do not have permission to update this service ticket"
    change_props (λ p. record p { description = description })

  unfoldable pub set_status : String → Exec ServiceTicketV1 (Unit {0})
  set_status status = do
    new_or_permitted passport may_set_status
        "You do not have permission to change the status of this service ticket"
    change_props (λ p. record p { status = status })

  unfoldable pub set_priority : ℕ → Exec ServiceTicketV1 (Unit {0})
  set_priority priority = do
    new_or_permitted passport may_assign
        "You do not have permission to change the priority of this service ticket"
    change_props (λ p. record p { priority = priority })

  unfoldable pub set_community_id : String → Exec ServiceTicketV1 (Unit {0})
  set_community_id value = do
    new_or_permitted passport system_or_manager
        "You do not have permission to change the community of this service ticket"
    change_props (λ p. record p { community_id = value })

  unfoldable pub set_property_id : Option String → Exec ServiceTicketV1 (Unit {0})
  set_property_id value = do
    new_or_permitted passport system_or_manager
        "You do not have permission to change the property of this service ticket"
    change_props (λ p. record p { property_id = value })

  unfoldable pub set_requestor_id : String → Exec ServiceTicketV1 (Unit {0})
  set_requestor_id value = do
    new_or_permitted passport system_or_manager
        "You do not have permission to change the requestor of this service ticket"
    change_props (λ p. record p { requestor_id = value })

  -- This setter makes its test of a new ticket too.
  unfoldable pub set_assigned_to_id : String → Exec ServiceTicketV1 (Unit {0})
  set_assigned_to_id value = do
    guard (determine_if passport may_assign)
        (permission_error "You do not have permission to assign this service ticket")
    change_props (λ p. record p { assigned_to_id = some value })

  unfoldable pub set_service_id : String → Exec ServiceTicketV1 (Unit {0})
  set_service_id value = do
    new_or_permitted passport may_set_service
        "You do not have permission to change the service of this service ticket"
    change_props (λ p. record p { service_id = some value })

-- The last three setters make no test.
unfoldable pub set_hash : String → Exec ServiceTicketV1 (Unit {0})
set_hash value = change_props (λ p. record p { hash = value })

unfoldable pub set_last_indexed : Option ℕ → Exec ServiceTicketV1 (Unit {0})
set_last_indexed value = change_props (λ p. record p { last_indexed = value })

unfoldable pub set_update_index_failed_date : Option ℕ → Exec ServiceTicketV1 (Unit {0})
set_update_index_failed_date value =
    change_props (λ p. record p { update_index_failed_date = value })
