-- ===== src/Case/ServiceTicket/Methods.antt =====
-- service-ticket-v1.aggregate.ts (the methods) and service-ticket-v1-activity-detail.entity.ts.
-- `item` is the blank item that `activityLog.getNewItem()` makes.
use cellixjs.Base.{
  Bool, true, not, ◌&&◌, ◌||◌, String, Exec, guard, permission_error, ◌>>◌, modify, if◌then◌else◌,
  ◌>>=◌, pure,
}
use cellixjs.Seedwork.Aggregate.{add_integration_event, set_is_deleted}
use cellixjs.Iam.Permissions.{CaseDomainPermissions}
use cellixjs.Iam.Visas.{Passport}
use cellixjs.Case.Parts.{
  ActivityDetail, allows, activity_type_for, edits_own, works_on_assigned, system_or_manager,
}
use cellixjs.Case.ServiceTicket.State.{
  ServiceTicketV1, valid_status_transitions, status_mappings, determine_if, new_or_permitted,
  change_props, change_root, change_activity, append_activity,
}

-- The event is named by its class, and its payload is the ticket's id.
abbrev pub raise : String → Exec ServiceTicketV1 (Unit {0})
raise name = modify λ t. record t {
  root = add_integration_event name t.props.id (record { id = t.props.id }) t.root;
}

abbrev pub mark_as_new : Exec ServiceTicketV1 (Unit {0})
mark_as_new = do modify (λ t. record t { is_new = true }); raise "ServiceTicketV1CreatedEvent"

-- The entry that is returned is the one in the log: its setters of the type and of the description
-- are public and make no test, the one of the member serves the creation only.
abbrev pub request_new_activity_detail :
    ActivityDetail → String → Exec ServiceTicketV1 ActivityDetail
request_new_activity_detail item by = do
  append_activity item
  change_activity (λ a. record a { activity_by = by })
  pure (record item { activity_by = by })

abbrev pub may_update : CaseDomainPermissions → Bool
may_update p =
    p.is_system_account
    || edits_own p
    || works_on_assigned p
    || p.can_manage_tickets
    || p.can_assign_tickets

unfoldable pub request_add_status_update :
    Passport → ActivityDetail → String → String → Exec ServiceTicketV1 (Unit {0})
request_add_status_update passport item description by = do
  new_or_permitted passport may_update "You do not have permission to update this service ticket"
  detail ← request_new_activity_detail item by
  change_activity (λ a. record a { activity_type = "UPDATED" })
  change_activity (λ a. record a { activity_description = description })

-- The test of `requestAddStatusTransition`, with the ticket's status and the new one.
abbrev pub may_transition : String → String → CaseDomainPermissions → Bool
may_transition status new_status p =
    p.is_system_account
    || (allows valid_status_transitions status new_status
        && (p.can_manage_tickets || p.can_assign_tickets || edits_own p || works_on_assigned p))

unfoldable pub request_add_status_transition :
    Passport → ActivityDetail → String → String → String → Exec ServiceTicketV1 (Unit {0})
request_add_status_transition passport item new_status description by = do
  guard (λ t. determine_if passport (may_transition t.props.status new_status) t)
      (permission_error
        "You do not have permission to change the status of this service ticket or the status transition is invalid")
  change_props (λ p. record p { status = new_status })
  detail ← request_new_activity_detail item by
  change_activity (λ a. record a { activity_description = description })
  change_activity (λ a. record a { activity_type = activity_type_for status_mappings new_status })

unfoldable pub request_delete : Passport → Exec ServiceTicketV1 (Unit {0})
request_delete passport = do
  guard (λ t. t.root.is_deleted || determine_if passport system_or_manager t)
      (permission_error "You do not have permission to delete this property")
  change_root (set_is_deleted true)
  raise "ServiceTicketV1DeletedEvent"

unfoldable pub on_save : Bool → Exec ServiceTicketV1 (Unit {0})
on_save is_modified t =
    if is_modified && not t.root.is_deleted
    then raise "ServiceTicketV1UpdatedEvent" t
    else modify (λ u. u) t
