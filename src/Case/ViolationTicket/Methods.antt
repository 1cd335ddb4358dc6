-- ===== src/Case/ViolationTicket/Methods.antt =====
-- violation-ticket-v1.aggregate.ts, the methods. `item` is the blank item that `getNewItem` makes.
use cellixjs.Base.{
  ℕ, Bool, true, not, ◌&&◌, ◌||◌, String, Option, Exec, guard, permission_error, ◌>>◌, modify,
  if◌then◌else◌, pure, ◌>>=◌,
}
use cellixjs.ValueObjects.{ValueObjects}
use cellixjs.Seedwork.Aggregate.{add_integration_event, set_is_deleted}
use cellixjs.Iam.Permissions.{CaseDomainPermissions}
use cellixjs.Iam.Visas.{Passport}
use cellixjs.Case.Parts.{
  ActivityDetail, allows, activity_type_for, edits_own, works_on_assigned, system_or_manager,
}
use cellixjs.Case.ViolationTicket.State.{
  ViolationTicketV1, Message, Photo, valid_status_transitions, status_mappings, determine_if,
  permitted, new_or_permitted, change_props, change_root,
}
use cellixjs.Case.ViolationTicket.Items.{
  append_activity, change_activity, append_message, append_photo, set_activity_type,
  set_activity_description, new_message, new_photo,
}

-- The event is named by its class, and its payload is the ticket's id.
abbrev pub raise : String → Exec ViolationTicketV1 (Unit {0})
raise name = modify λ t. record t {
  root = add_integration_event name t.props.id (record { id = t.props.id }) t.root;
}

abbrev pub mark_as_new : Exec ViolationTicketV1 (Unit {0})
mark_as_new = do modify (λ t. record t { is_new = true }); raise "ViolationTicketV1CreatedEvent"

unfoldable pub request_delete : Passport → Exec ViolationTicketV1 (Unit {0})
request_delete passport = do
  permitted passport system_or_manager "You do not have permission to delete this violation ticket"
  change_root (set_is_deleted true)
  raise "ViolationTicketV1DeletedEvent"

-- The setter of activityBy makes no test.
abbrev pub request_new_activity_detail :
    ActivityDetail → String → Exec ViolationTicketV1 ActivityDetail
request_new_activity_detail item by = do
  append_activity item
  change_activity (λ a. record a { activity_by = by })
  pure (record item { activity_by = by })

abbrev pub may_update : CaseDomainPermissions → Bool
may_update p =
    p.is_system_account
    || edits_own p
    || works_on_assigned p
    || p.can_manage_tickets
    || p.can_assign_tickets

unfoldable pub request_add_status_update :
    Passport → ActivityDetail → String → String → Exec ViolationTicketV1 (Unit {0})
request_add_status_update passport item description by = do
  new_or_permitted passport may_update "You do not have permission to update this violation ticket"
  detail ← request_new_activity_detail item by
  set_activity_type passport "UPDATED"
  set_activity_description passport description

abbrev pub may_add : CaseDomainPermissions → Bool
may_add p = p.is_system_account || edits_own p || works_on_assigned p || p.can_manage_tickets

unfoldable pub request_add_message :
    ValueObjects
    → Passport
    → Message
    → ℕ
    → String
    → String
    → Option String
    → Option String
    → Exec ViolationTicketV1 (Unit {0})
unfolding new_message
request_add_message vo passport item now message sent_by embedding initiated_by = do
  permitted passport may_add "You do not have permission to add messages to this violation ticket"
  append_message item
  new_message passport vo now message sent_by embedding initiated_by

unfoldable pub request_add_photo :
    Passport → Photo → String → String → Exec ViolationTicketV1 (Unit {0})
unfolding new_photo
request_add_photo passport item document_id description = do
  permitted passport may_add "You do not have permission to add photos to this violation ticket"
  append_photo item
  new_photo passport document_id description

-- The test of `requestAddStatusTransition`, with the ticket's status and the new one.
abbrev pub may_transition : String → String → CaseDomainPermissions → Bool
may_transition status new_status p =
    p.is_system_account
    || (allows valid_status_transitions status new_status
        && (p.can_manage_tickets || p.can_assign_tickets || edits_own p || works_on_assigned p))

unfoldable pub request_add_status_transition :
    Passport → ActivityDetail → String → String → String → Exec ViolationTicketV1 (Unit {0})
request_add_status_transition passport item new_status description by = do
  guard (λ t. determine_if passport (may_transition t.props.status new_status) t)
      (permission_error
        "You do not have permission to change the status of this violation ticket or the status transition is invalid")
  change_props (λ p. record p { status = new_status })
  detail ← request_new_activity_detail item by
  set_activity_description passport description
  set_activity_type passport (activity_type_for status_mappings new_status)

unfoldable pub on_save : Bool → Exec ViolationTicketV1 (Unit {0})
on_save is_modified t =
    if is_modified && not t.root.is_deleted
    then raise "ViolationTicketV1UpdatedEvent" t
    else pure tt t
