-- ===== src/Case/ServiceTicket/Log.antt =====
-- What the methods of a service ticket write: its activity log and its events.
use cellixjs.Base.{
  Bool, true, false, ◌||◌, String, [], ◌∷◌, ◌++◌, ◌≡◌, arith, done, thrown, permission_error,
  if◌then◌else◌, Option,
}
use cellixjs.ValueObjects.{ValueObjects, ValueObjectLaws}
use cellixjs.Seedwork.Aggregate.{add_integration_event, new_root, new_event}
use cellixjs.Iam.Visas.{Passport}
use cellixjs.Case.Parts.{ActivityDetail, activity_type_for, given}
use cellixjs.Case.ServiceTicket.State.{
  ServiceTicketV1, ServiceTicketV1Props, determine_if, status_mappings,
}
use cellixjs.Case.ServiceTicket.Methods.{
  may_update, may_transition, request_add_status_update, request_add_status_transition,
  request_delete, on_save,
}
use cellixjs.Case.ServiceTicket.Create.{get_new_instance, new_ticket}
use cellixjs.Case.Log.{update_last-append}

-- The entry that a method leaves in the log.
abbrev pub entry : ActivityDetail → String → String → String → ActivityDetail
entry item activity_type description by = record item {
  activity_type = activity_type;
  activity_description = description;
  activity_by = by;
}

-- The ticket with a new status and one more entry.
abbrev pub moved : ServiceTicketV1 → String → ActivityDetail → ServiceTicketV1
moved t status e = record t {
  props = record t.props { status = status; activity_log = t.props.activity_log ++ e ∷ [] };
}

-- `requestAddStatusTransition` either throws and changes nothing, where the visa denies the move,
-- or sets the status and adds one entry to the end of the log, with the item's id, the activity
-- type of the new status, the description and the member; it changes nothing else.
pub service_transition_branches :
    (passport : Passport) (item : ActivityDetail) (new_status description by : String)
    (t : ServiceTicketV1)
    → request_add_status_transition passport item new_status description by t ≡ (
        if determine_if passport (may_transition t.props.status new_status) t
        then done tt (
            moved t new_status
              (entry item (activity_type_for status_mappings new_status) description by))
        else thrown
            (permission_error
              "You do not have permission to change the status of this service ticket or the status transition is invalid")
            t)
unfolding request_add_status_transition
service_transition_branches passport item new_status description by t = ground (
  arith,
  update_last-append (λ a. record a { activity_by = by }) item t.props.activity_log,
  update_last-append (λ a. record a { activity_description = description })
      (record item { activity_by = by }) t.props.activity_log,
  update_last-append
      (λ a. record a { activity_type = activity_type_for status_mappings new_status })
      (record item { activity_by = by; activity_description = description }) t.props.activity_log,
)

-- `requestAddStatusUpdate` either throws and changes nothing, where the ticket is not new and the
-- visa denies the update, or adds one entry of the type UPDATED to the end of the log and changes
-- nothing else.
pub service_status_update_branches :
    (passport : Passport) (item : ActivityDetail) (description by : String) (t : ServiceTicketV1)
    → request_add_status_update passport item description by t ≡ (
        if t.is_new || determine_if passport may_update t
        then done tt (moved t t.props.status (entry item "UPDATED" description by))
        else thrown (permission_error "You do not have permission to update this service ticket") t)
unfolding request_add_status_update
service_status_update_branches passport item description by t = ground (
  arith,
  update_last-append (λ a. record a { activity_by = by }) item t.props.activity_log,
  update_last-append (λ a. record a { activity_type = "UPDATED" })
      (record item { activity_by = by }) t.props.activity_log,
  update_last-append (λ a. record a { activity_description = description })
      (record item { activity_by = by; activity_type = "UPDATED" }) t.props.activity_log,
)

-- After a deletion that returned, the ticket is marked, its last integration event is the deleted
-- event with its id, and saving it raises no updated event.
pub request_delete-on_save :
    (passport : Passport) (t u : ServiceTicketV1) (is_modified : Bool)
    → request_delete passport t ≡ done tt u
    → (u.root.is_deleted ≡ true)
      × (u.root.integration_events
          ≡ t.root.integration_events
            ++ new_event "ServiceTicketV1DeletedEvent" t.props.id (record { id = t.props.id }) ∷ [])
      × (on_save is_modified u ≡ done tt u)
unfolding request_delete on_save
request_delete-on_save passport t u is_modified h = ground arith

-- What a new ticket is made of: a draft of priority 3, with one created event, whoever makes it.
abbrev pub created :
    ServiceTicketV1Props → String → String → String → String → Option String → ServiceTicketV1
created props title description community_id requestor_id property_id = record {
  root =
      add_integration_event "ServiceTicketV1CreatedEvent" props.id (record { id = props.id })
        new_root;
  props = record props {
    title = title;
    description = description;
    community_id = community_id;
    requestor_id = requestor_id;
    property_id = if given property_id then property_id else props.property_id;
    status = "DRAFT";
    priority = 3;
  };
  is_new = false;
}

-- With value objects that keep their laws, `getNewInstance` returns for every passport, a guest's
-- too, and gives a draft of priority 3 with the texts and ids that it was handed, one created
-- event, and isNew put back to false.
pub new_service_ticket :
    (vo : ValueObjects) (laws : ValueObjectLaws vo) (passport : Passport)
    (props : ServiceTicketV1Props) (title description community_id requestor_id : String)
    (property_id : Option String)
    → get_new_instance vo passport title description community_id requestor_id property_id
        (new_ticket props)
      ≡ done tt (created props title description community_id requestor_id property_id)
unfolding get_new_instance
new_service_ticket vo laws passport props title description community_id requestor_id property_id =
    ground (arith, laws.integer_range 1 5 3 (omega arith) (omega arith))
